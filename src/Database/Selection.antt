-- ===== src/Database/Selection.antt =====
-- `Selection` of bookworm-database/src/paginator.rs: which books of a paginator are selected. A book is
-- of type `B`, a matcher of type `M`. A `HashMap` of books is a list of pairs.
use bookworm.Base.{
  ℕ, Bool, true, false, ◌&&◌, ◌==◌, Option, none, some, List, [], ◌∷◌, map, Ordering, lt, eq, gt,
  nat_eq, lookup_key, is_empty, length,
}
use bookworm.Database.Query.{Rules}

-- What a selection asks of books: `id`, `cmp_columns` and `is_match`.
pub record Books (B M : Type 0) : Type 0 where
  pub id : B → ℕ
  pub cmp_columns : Rules → B → B → Ordering
  pub is_match : M → B → Bool

pub data Direction : Type 0 where
  up down : Direction

pub data Selection (B M : Type 0) : Type 0 where
  all : List M → Selection B M
  partial : List (ℕ × B) → Rules → Selection B M
  range : B → B → Rules → Direction → List M → Selection B M
  empty : Selection B M

abbrev pub is_gt : Ordering → Bool
is_gt gt = true
is_gt eq = false
is_gt lt = false

abbrev pub is_lt : Ordering → Bool
is_lt lt = true
is_lt eq = false
is_lt gt = false

abbrev pub is_le : Ordering → Bool
is_le gt = false
is_le eq = true
is_le lt = true

abbrev pub is_ge : Ordering → Bool
is_ge lt = false
is_ge eq = true
is_ge gt = true

-- `min_by` gives the first of the least elements, `max_by` the last of the greatest.
abbrev pub least : {B : Type 0} → (B → B → Ordering) → B → List B → B
least cmp b [] = b
least cmp b (c ∷ cs) = least cmp (elim (is_gt (cmp b c)) [ true ↦ c | false ↦ b ]) cs

abbrev pub greatest : {B : Type 0} → (B → B → Ordering) → B → List B → B
greatest cmp b [] = b
greatest cmp b (c ∷ cs) = greatest cmp (elim (is_gt (cmp b c)) [ true ↦ b | false ↦ c ]) cs

unfoldable pub min_by : {B : Type 0} → (B → B → Ordering) → List B → Option B
min_by cmp [] = none
min_by cmp (b ∷ bs) = some (least cmp b bs)

unfoldable pub max_by : {B : Type 0} → (B → B → Ordering) → List B → Option B
max_by cmp [] = none
max_by cmp (b ∷ bs) = some (greatest cmp b bs)

abbrev pub values : {B : Type 0} → List (ℕ × B) → List B
values books = map (λ p. p.1) books

abbrev pub is_some : {A : Type 0} → Option A → Bool
is_some none = false
is_some (some a) = true

module _ {B M : Type 0} where
  unfoldable pub nothing_selected : Selection B M → Bool
  nothing_selected (all _) = false
  nothing_selected (partial books _) = is_empty books
  nothing_selected (range _ _ _ _ _) = false
  nothing_selected empty = true

  module _ (k : Books B M) where
    unfoldable pub matches_all : List M → B → Bool
    matches_all [] b = true
    matches_all (m ∷ ms) b = k.is_match m b && matches_all ms b

    unfoldable pub contains : Selection B M → B → Bool
    unfolding matches_all lookup_key
    contains (all ms) b = matches_all ms b
    contains (partial books _) b = is_some (lookup_key (k.id b) books)
    contains (range start stop cols _ ms) b =
        matches_all ms b && is_le (k.cmp_columns cols start b) && is_ge (k.cmp_columns cols stop b)
    contains empty b = false

    unfoldable pub front : Selection B M → Option B
    unfolding min_by
    front (all _) = none
    front (partial books rules) = min_by (k.cmp_columns rules) (values books)
    front (range start _ _ up _) = some start
    front (range _ end _ down _) = some end
    front empty = none

    unfoldable pub first : Selection B M → Option B
    unfolding min_by
    first (all _) = none
    first (partial books rules) = min_by (k.cmp_columns rules) (values books)
    first (range start _ _ _ _) = some start
    first empty = none

    unfoldable pub last : Selection B M → Option B
    unfolding max_by
    last (all _) = none
    last (partial books rules) = max_by (k.cmp_columns rules) (values books)
    last (range _ end _ _ _) = some end
    last empty = none

    unfoldable pub is_single : Selection B M → Bool
    is_single (all _) = false
    is_single (partial books _) = length books == 1
    is_single (range start end _ _ _) = k.id start == k.id end
    is_single empty = false
