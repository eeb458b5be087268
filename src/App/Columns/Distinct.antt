-- ===== src/App/Columns/Distinct.antt =====
-- What the changes of bookworm-app/src/columns.rs keep of the list of columns.
use bookworm.Base.{
  ◌≡◌, refl, ◌∙◌, Bool, true, false, ◌||◌, Option, none, some, List, [], ◌∷◌, ◌++◌, Text,
  Bool-cases, inl, inr, arith,
}
use bookworm.App.Command.{ModifyColumn, add_column, remove_column}
use bookworm.App.Columns.{contains, without, insert_column, answered, modify_columns}

module _ {K : Type 0} (same : K → K → Bool) where
  -- No column stands twice in the list.
  abbrev pub Distinct : List K → Type 0
  Distinct [] = Unit
  Distinct (x ∷ cols) = (contains same x cols ≡ false) × Distinct cols

  abbrev pub IsSymmetric : Type 0
  IsSymmetric = (x y : K) → same x y ≡ same y x

  contains-append :
      (c : K) (xs ys : List K)
      → contains same c (xs ++ ys) ≡ (contains same c xs || contains same c ys)
  unfolding contains
  contains-append c [] ys = refl
  contains-append c (x ∷ xs) ys = ground (arith, contains-append c xs ys)

  without_missing :
      (c d : K) (cols : List K)
      → contains same c cols ≡ false
      → contains same c (without same d cols) ≡ false
  unfolding contains without
  without_missing c d [] h = refl
  without_missing c d (x ∷ cols) h = ground (arith, without_missing c d cols)

  without-Distinct : (c : K) (cols : List K) → Distinct cols → Distinct (without same c cols)
  unfolding without
  without-Distinct c [] h = tt
  without-Distinct c (x ∷ cols) h = elim (Bool-cases (same x c)) [
    | inl e ↦ rw e (without-Distinct c cols h.1)
    | inr e ↦ rw e (without_missing x c cols h.0, without-Distinct c cols h.1)
  ]

  append-Distinct :
      (c : K) (cols : List K)
      → IsSymmetric
      → Distinct cols
      → contains same c cols ≡ false
      → Distinct (cols ++ c ∷ [])
  unfolding contains
  append-Distinct c [] s h k = (refl, tt)
  append-Distinct c (x ∷ cols) s h k = elim (Bool-cases (same x c)) [
    | inl e ↦ ground arith
    | inr e ↦ (
      contains-append x cols (c ∷ []) ∙ rw (h.0, s c x, e) refl,
      append-Distinct c cols s h.1 (rw e at k),
    )
  ]

  insert_column-Distinct :
      (c : K) (cols : List K) → IsSymmetric → Distinct cols → Distinct (insert_column same c cols)
  unfolding insert_column
  insert_column-Distinct c cols s h = elim (Bool-cases (contains same c cols)) [
    | inl e ↦ rw e h
    | inr e ↦ rw e (append-Distinct c cols s h e)
  ]

  answered-Distinct :
      (o : Option Bool) (rest : List K → List K × Bool) (c : K) (cols : List K)
      → IsSymmetric
      → ((cs : List K) → Distinct cs → Distinct (rest cs).0)
      → Distinct cols
      → Distinct (answered same o rest c cols).0
  answered-Distinct none rest c cols s k h = h
  answered-Distinct (some true) rest c cols s k h =
      k (insert_column same c cols) (insert_column-Distinct c cols s h)
  answered-Distinct (some false) rest c cols s k h = k cols h

  module _ (unicase : Text → K) (has_column : K → Option Bool) where
    -- No sequence of changes puts a column into the list twice, whatever the view answers and
    -- wherever it fails, if the equality of names is symmetric.
    pub modify_columns-Distinct :
        (changes : List ModifyColumn) (cols : List K)
        → IsSymmetric
        → Distinct cols
        → Distinct (modify_columns same unicase has_column changes cols).0
    unfolding modify_columns
    modify_columns-Distinct [] cols s h = h
    modify_columns-Distinct (add_column t ∷ changes) cols s h =
        answered-Distinct (has_column (unicase t)) (modify_columns same unicase has_column changes)
          (unicase t) cols s (λ cs. modify_columns-Distinct changes cs s) h
    modify_columns-Distinct (remove_column t ∷ changes) cols s h =
        modify_columns-Distinct changes (without same (unicase t) cols) s
          (without-Distinct (unicase t) cols h)
