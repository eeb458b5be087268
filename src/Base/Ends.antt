-- ===== src/Base/Ends.antt =====
-- The last elements of a list, and lists read from the end.
use Prim.Native.Nat.{ℕ, zero, suc, ◌-◌, ◌≤◌}
use mathlib.Core.Path.{◌≡◌, refl, sym, ap, ◌∙◌}
use mathlib.Core.Logic.{◌⊎◌, inl, inr}
use mathlib.Core.List.{List, [], ◌∷◌, ◌++◌, reverse, reverse-cons, reverse-reverse}
use mathlib.Core.Option.{Option, none, some}
use native.Mathlib.Omega.{arith}
use bookworm.Base.Lists.{length, take, drop, length-append, take-append_le}
use bookworm.Base.Tests.{ltb, Bool-cases}

module _ {ℓ} {A : Type ℓ} where
  -- `first` and `last`
  abbrev pub first? : List A → Option A
  first? [] = none
  first? (x ∷ xs) = some x

  abbrev pub last? : List A → Option A
  last? [] = none
  last? (x ∷ []) = some x
  last? (x ∷ (y ∷ xs)) = last? (y ∷ xs)

  -- The last `n` elements, and those before them.
  abbrev pub take_last : ℕ → List A → List A
  take_last n xs = drop (length xs - n) xs

  abbrev pub drop_last : ℕ → List A → List A
  drop_last n xs = take (length xs - n) xs

  pub length-reverse : (xs : List A) → length (reverse xs) ≡ length xs
  length-reverse [] = refl
  length-reverse (x ∷ xs) =
      ap length (reverse-cons x xs)
      ∙ length-append (reverse xs) (x ∷ [])
      ∙ omega (arith, length-reverse xs)

  pub take_past : (n : ℕ) (xs : List A) → length xs ≤ n → take n xs ≡ xs
  take_past zero [] h = refl
  take_past zero (x ∷ xs) h = elim h [ ]
  take_past (suc n) [] h = refl
  take_past (suc n) (x ∷ xs) h = ap (λ l. x ∷ l) (take_past n xs (omega arith))

  drop_zero : (k : ℕ) → k ≡ 0 → (xs : List A) → drop k xs ≡ xs
  drop_zero k e xs = ap (λ j. drop j xs) e

  pub reverse-take-reverse : (n : ℕ) (xs : List A) → reverse (take n (reverse xs)) ≡ take_last n xs
  reverse-take-reverse n [] =
      ap reverse (take_past n [] (omega arith)) ∙ sym (drop_zero (0 - n) (omega arith) [])
  reverse-take-reverse n (x ∷ xs) = elim (Bool-cases (ltb (length xs) n)) [
    | inl past ↦
        ap reverse (take_past n (reverse (x ∷ xs)) (rw (length-reverse (x ∷ xs)) (ground arith)))
        ∙ reverse-reverse (x ∷ xs)
        ∙ sym (drop_zero (suc (length xs) - n) (ground arith) (x ∷ xs))
    | inr within ↦
        let le : n ≤ length (reverse xs) = rw (length-reverse xs) (ground arith) in
        ap (λ l. reverse (take n l)) (reverse-cons x xs)
        ∙ ap reverse (take-append_le n (reverse xs) (x ∷ []) le)
        ∙ reverse-take-reverse n xs
        ∙ ap (λ k. drop k (x ∷ xs))
            (let e : suc (length xs - n) ≡ suc (length xs) - n = ground arith in e)
  ]

  -- A list is empty or has a last element.
  pub last-cases :
      (xs : List A)
      → (xs ≡ []) ⊎ ((init : List A) × (x : A) × (xs ≡ init ++ x ∷ []) × (last? xs ≡ some x))
  last-cases [] = inl refl
  last-cases (x ∷ []) = inr ([], x, refl, refl)
  last-cases (x ∷ (y ∷ xs)) = elim (last-cases (y ∷ xs)) [
    | inl e ↦ inl (cc)
    | inr (init, z, e, l) ↦ inr (x ∷ init, z, ap (λ l'. x ∷ l') e, l)
  ]

  pub first-cases : (xs : List A) → (xs ≡ []) ⊎ ((x : A) × (rest : List A) × (xs ≡ x ∷ rest))
  first-cases [] = inl refl
  first-cases (x ∷ xs) = inr (x, xs, refl)
