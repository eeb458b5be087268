-- ===== src/Input/Autocomplete/Rotation.antt =====
-- The rotation of a list by which bookworm-input/src/autocomplete.rs walks its ring.
use bookworm.Base.{
  ℕ, zero, suc, ◌+◌, ◌-◌, ◌%◌, ◌≤◌, ◌<◌, ◌≡◌, refl, sym, ap, ◌∙◌, subst, List, [], ◌∷◌, ◌++◌,
  length, length-append, take, drop, take_all, drop_all, drop-append_le, take-append_le,
  drop-append_add, take-append_add, arith,
}
use mathlib.Core.List.{append_assoc}
use native.Mathlib.Decide.{dec_lt}
use native.Mathlib.Nat.{mod-eq_of_lt, mod-eq-sub-mod}
use bookworm.Input.Autocomplete.{rotate}

module _ {ℓ} {S : Type ℓ} where
  rotate_within :
      (xs ys : List S) (m : ℕ)
      → m < length ys
      → rotate ((length xs + m) % length (xs ++ ys)) (xs ++ ys) ≡ rotate m (ys ++ xs)
  rotate_within xs ys m p =
      let e : (length xs + m) % length (xs ++ ys) ≡ length xs + m =
        mod-eq_of_lt (omega (arith, length-append {ℓ} xs ys)) in
      rw
        (
          e,
          drop-append_add m xs ys,
          take-append_add m xs ys,
          drop-append_le m ys xs (omega arith),
          take-append_le m ys xs (omega arith),
        )
        (sym (append_assoc (drop m ys) xs (take m ys)))

  rotate_wrapped :
      (xs ys : List S) (j : ℕ)
      → j ≤ length xs
      → 0 < length ys
      → rotate ((length xs + (length ys + j)) % length (xs ++ ys)) (xs ++ ys)
        ≡ rotate (length ys + j) (ys ++ xs)
  rotate_wrapped xs ys j h k =
      let n : length (xs ++ ys) ≡ length xs + length ys = length-append xs ys in
      let e : (length xs + (length ys + j)) % length (xs ++ ys) ≡ j =
        mod-eq-sub-mod (omega arith)
        ∙ ap (λ a. a % length (xs ++ ys)) {y = j} (omega arith)
        ∙ mod-eq_of_lt (omega arith) in
      rw
        (
          e,
          drop-append_add j ys xs,
          take-append_add j ys xs,
          drop-append_le j xs ys h,
          take-append_le j xs ys h,
        )
        (append_assoc (drop j xs) ys (take j xs))

  -- Rotations add up, modulo the length.
  pub rotate-rotate :
      (xs ys : List S) (m : ℕ)
      → m ≤ length xs + length ys
      → 0 < length ys
      → rotate ((length xs + m) % length (xs ++ ys)) (xs ++ ys) ≡ rotate m (ys ++ xs)
  rotate-rotate xs ys m h k = elim (dec_lt m (length ys)) [
    | yes p ↦ rotate_within xs ys m p
    | no p ↦
        subst (λ n. rotate ((length xs + n) % length (xs ++ ys)) (xs ++ ys) ≡ rotate n (ys ++ xs))
          {x = length ys + (m - length ys)} (omega arith)
          (rotate_wrapped xs ys (m - length ys) (omega arith) k)
  ]

  pub rotate_behind :
      (before : List S) (x : S) (after : List S)
      → rotate (length before + 1) (before ++ x ∷ after) ≡ after ++ (before ++ x ∷ [])
  rotate_behind before x after =
      rw (drop-append_add 1 before (x ∷ after), take-append_add 1 before (x ∷ after))

  pub rotate_all : (q : List S) → rotate (length q) q ≡ q
  rotate_all q = rw (drop_all q, take_all q)

  pub rotate_nil : (n : ℕ) → rotate {S = S} n [] ≡ []
  rotate_nil zero = refl
  rotate_nil (suc n) = refl
