-- ===== src/Base/Maps.antt =====
-- `HashMap` and `HashSet` as lists: of pairs with distinct keys, and of distinct elements.
use mathlib.Core.Path.{◌≡◌, refl}
use mathlib.Core.Logic.{inl, inr}
use mathlib.Core.List.{List, [], ◌∷◌}
use mathlib.Core.Option.{Option, none, some}
use mathlib.Core.Bool.{Bool, true, false, ◌&&◌, ◌||◌, not}
use native.Mathlib.Omega.{arith}
use bookworm.Base.Tests.{Eq, if◌then◌else◌, Bool-cases}
use bookworm.Base.Strings.{Text, text_eq, text_eq_iff}

instance abbrev pub text_key : Eq Text
text_key = record { beq = text_eq; beq_iff = text_eq_iff }

module _ {ℓ κ} {K : Type ℓ} {V : Type κ} ⦃e : Eq K⦄ where
  -- `HashMap::insert`
  unfoldable pub insert_key : K → V → List (K × V) → List (K × V)
  insert_key k v [] = (k, v) ∷ []
  insert_key k v ((j, w) ∷ m) = if e.beq j k then (k, v) ∷ m else (j, w) ∷ insert_key k v m

  -- `HashMap::get`
  unfoldable pub lookup_key : K → List (K × V) → Option V
  lookup_key k [] = none
  lookup_key k ((j, w) ∷ m) = if e.beq j k then some w else lookup_key k m

  -- `HashMap::remove`
  unfoldable pub remove_key : K → List (K × V) → List (K × V)
  remove_key k [] = []
  remove_key k ((j, w) ∷ m) = let rest = remove_key k m in if e.beq j k then rest else (j, w) ∷ rest

  pub lookup_key-insert_key :
      (k j : K) (v : V) (m : List (K × V))
      → lookup_key j (insert_key k v m) ≡ (if e.beq k j then some v else lookup_key j m)
  unfolding lookup_key insert_key
  lookup_key-insert_key k j v [] = refl
  lookup_key-insert_key k j v ((i, w) ∷ m) =
      ground (arith, e.beq_iff k j, e.beq_iff i k, e.beq_iff i j, lookup_key-insert_key k j v m)

  pub lookup_key-remove_key :
      (k j : K) (m : List (K × V))
      → lookup_key j (remove_key k m) ≡ (if e.beq k j then none else lookup_key j m)
  unfolding lookup_key remove_key
  lookup_key-remove_key k j [] = ground arith
  lookup_key-remove_key k j ((i, w) ∷ m) =
      ground (arith, e.beq_iff k j, e.beq_iff i k, e.beq_iff i j, lookup_key-remove_key k j m)

module _ {ℓ} {K : Type ℓ} ⦃e : Eq K⦄ where
  -- `HashSet::contains`, `insert` and `remove`
  unfoldable pub has_elem : K → List K → Bool
  has_elem k [] = false
  has_elem k (j ∷ s) = if e.beq j k then true else has_elem k s

  unfoldable pub insert_elem : K → List K → List K
  unfolding has_elem
  insert_elem k s = if has_elem k s then s else k ∷ s

  unfoldable pub remove_elem : K → List K → List K
  remove_elem k [] = []
  remove_elem k (j ∷ s) = let rest = remove_elem k s in if e.beq j k then rest else j ∷ rest

  pub has_elem-insert_elem :
      (k j : K) (s : List K) → has_elem j (insert_elem k s) ≡ (e.beq k j || has_elem j s)
  unfolding has_elem insert_elem
  has_elem-insert_elem k j s = elim (Bool-cases (has_elem k s)) [
    | inl h ↦ rw h (ground (arith, e.beq_iff k j))
    | inr h ↦ rw h (ground arith)
  ]

  pub has_elem-remove_elem :
      (k j : K) (s : List K) → has_elem j (remove_elem k s) ≡ (not (e.beq k j) && has_elem j s)
  unfolding has_elem remove_elem
  has_elem-remove_elem k j [] = ground arith
  has_elem-remove_elem k j (i ∷ s) =
      ground (arith, e.beq_iff k j, e.beq_iff i k, e.beq_iff i j, has_elem-remove_elem k j s)
