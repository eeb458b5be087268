-- ===== src/Base/Elements.antt =====
-- Elements of lists by their indices.
use Prim.Native.Nat.{ℕ, zero, suc, ◌+◌, ◌-◌, ◌≤◌, ◌<◌, min}
use mathlib.Core.Path.{◌≡◌, refl, ap, ◌∙◌}
use mathlib.Core.Logic.{inl, inr}
use mathlib.Core.List.{List, [], ◌∷◌, ◌++◌, reverse, reverse-cons}
use mathlib.Core.Option.{some}
use native.Mathlib.Omega.{arith}
use bookworm.Base.Tests.{ltb, Bool-cases}
use bookworm.Base.Lists.{length, take, drop, get_elem?, length-take, length-drop}
use bookworm.Base.Ends.{last?, length-reverse}

module _ {ℓ} {A : Type ℓ} where
  pub lt-length : (xs : List A) (i : ℕ) (x : A) → get_elem? xs i ≡ some x → i < length xs
  lt-length [] i x h = cc
  lt-length (y ∷ xs) zero x h = omega arith
  lt-length (y ∷ xs) (suc i) x h = omega (arith, lt-length xs i x h)

  pub get_elem?-lt : (xs : List A) (i : ℕ) → i < length xs → (x : A) × (get_elem? xs i ≡ some x)
  get_elem?-lt [] i h = absurd (omega arith)
  get_elem?-lt (y ∷ xs) zero h = (y, refl)
  get_elem?-lt (y ∷ xs) (suc i) h = get_elem?-lt xs i (omega arith)

  pub get_elem?-split :
      (xs : List A) (i : ℕ) (x : A)
      → get_elem? xs i ≡ some x
      → (xs ≡ take i xs ++ x ∷ drop (suc i) xs) × (drop i xs ≡ x ∷ drop (suc i) xs)
  get_elem?-split [] i x h = cc
  get_elem?-split (y ∷ xs) zero x h = let e : y ≡ x = cc in (ap (λ z. z ∷ xs) e, ap (λ z. z ∷ xs) e)
  get_elem?-split (y ∷ xs) (suc i) x h =
      let (e, d) = get_elem?-split xs i x h in (ap (λ l. y ∷ l) e, d)

  pub get_elem?-take :
      (n : ℕ) (xs : List A) (i : ℕ) → i < n → get_elem? (take n xs) i ≡ get_elem? xs i
  get_elem?-take zero xs i h = absurd (omega arith)
  get_elem?-take (suc n) [] i h = refl
  get_elem?-take (suc n) (x ∷ xs) zero h = refl
  get_elem?-take (suc n) (x ∷ xs) (suc i) h = get_elem?-take n xs i (omega arith)

  pub get_elem?-drop :
      (n : ℕ) (xs : List A) (i : ℕ) → get_elem? (drop n xs) i ≡ get_elem? xs (n + i)
  get_elem?-drop zero xs i = ap (get_elem? xs) (let e : i ≡ 0 + i = omega arith in e)
  get_elem?-drop (suc n) [] i = refl
  get_elem?-drop (suc n) (x ∷ xs) i =
      get_elem?-drop n xs i
      ∙ ap (get_elem? (x ∷ xs)) (let e : suc (n + i) ≡ suc n + i = omega arith in e)

  pub get_elem?-append_lt :
      (xs ys : List A) (i : ℕ) → i < length xs → get_elem? (xs ++ ys) i ≡ get_elem? xs i
  get_elem?-append_lt [] ys i h = absurd (omega arith)
  get_elem?-append_lt (x ∷ xs) ys zero h = refl
  get_elem?-append_lt (x ∷ xs) ys (suc i) h = get_elem?-append_lt xs ys i (omega arith)

  pub get_elem?-append_length :
      (xs ys : List A) (i : ℕ) → get_elem? (xs ++ ys) (length xs + i) ≡ get_elem? ys i
  get_elem?-append_length [] ys i = ap (get_elem? ys) (let e : 0 + i ≡ i = omega arith in e)
  get_elem?-append_length (x ∷ xs) ys i =
      ap (get_elem? (x ∷ xs ++ ys))
        (let e : length (x ∷ xs) + i ≡ suc (length xs + i) = omega arith in e)
      ∙ get_elem?-append_length xs ys i

  pub get_elem?-reverse :
      (xs : List A) (i : ℕ)
      → i < length xs
      → get_elem? (reverse xs) i ≡ get_elem? xs (length xs - 1 - i)
  get_elem?-reverse [] i h = absurd (omega arith)
  get_elem?-reverse (x ∷ xs) i h = elim (Bool-cases (ltb i (length xs))) [
    | inl before ↦
        ap (λ l. get_elem? l i) (reverse-cons x xs)
        ∙ get_elem?-append_lt (reverse xs) (x ∷ []) i (ground (arith, length-reverse xs))
        ∙ get_elem?-reverse xs i (ground arith)
        ∙ ap (get_elem? (x ∷ xs))
            (let e : suc (length xs - 1 - i) ≡ length (x ∷ xs) - 1 - i = ground arith in e)
    | inr at ↦
        ap (λ l. get_elem? l i) (reverse-cons x xs)
        ∙ ap (get_elem? (reverse xs ++ x ∷ []))
            (let e : i ≡ length (reverse xs) + 0 = ground (arith, length-reverse xs) in e)
        ∙ get_elem?-append_length (reverse xs) (x ∷ []) 0
        ∙ ap (get_elem? (x ∷ xs)) (let e : 0 ≡ length (x ∷ xs) - 1 - i = ground arith in e)
  ]

  pub last?-get_elem? : (xs : List A) → last? xs ≡ get_elem? xs (length xs - 1)
  last?-get_elem? [] = refl
  last?-get_elem? (x ∷ []) = ap (get_elem? (x ∷ [])) (let e : 0 ≡ 1 - 1 = omega arith in e)
  last?-get_elem? (x ∷ (y ∷ xs)) =
      last?-get_elem? (y ∷ xs)
      ∙ ap (get_elem? (x ∷ (y ∷ xs)))
          (let e : suc (length (y ∷ xs) - 1) ≡ length (x ∷ (y ∷ xs)) - 1 = omega arith in e)

  -- The last element of a page behind an index, and of a page before one.
  pub last?-take-drop :
      (n i : ℕ) (xs : List A)
      → 0 < n
      → i < length xs
      → last? (take n (drop i xs)) ≡ get_elem? xs (min (i + n) (length xs) - 1)
  last?-take-drop n i xs p h =
      last?-get_elem? (take n (drop i xs))
      ∙ get_elem?-take n (drop i xs) (length (take n (drop i xs)) - 1)
          (omega (arith, length-take n (drop i xs)))
      ∙ get_elem?-drop i xs (length (take n (drop i xs)) - 1)
      ∙ ap (get_elem? xs) (
          let e : i + (length (take n (drop i xs)) - 1) ≡ min (i + n) (length xs) - 1 =
            omega (arith, length-take n (drop i xs), length-drop i xs) in
          e)

  pub last?-take-reverse :
      (n i : ℕ) (xs : List A)
      → 0 < n
      → 0 < i
      → i ≤ length xs
      → last? (take n (reverse (take i xs))) ≡ get_elem? xs (i - n)
  last?-take-reverse n i xs p q h =
      let page : List A = reverse (take i xs) in
      let size : length page ≡ i = length-reverse (take i xs) ∙ omega (arith, length-take i xs) in
      let whole : length (take i xs) ≡ i = omega (arith, length-take i xs) in
      last?-get_elem? (take n page)
      ∙ get_elem?-take n page (length (take n page) - 1) (omega (arith, length-take n page))
      ∙ get_elem?-reverse (take i xs) (length (take n page) - 1) (omega (arith, length-take n page))
      ∙ get_elem?-take i xs (length (take i xs) - 1 - (length (take n page) - 1)) (omega arith)
      ∙ ap (get_elem? xs) (
          let e : length (take i xs) - 1 - (length (take n page) - 1) ≡ i - n =
            omega (arith, length-take n page) in
          e)
