-- ===== src/Records/Compare.antt =====
-- The comparison of books by columns: `cmp_column` and `cmp_columns` of
-- bookworm-records/src/book.rs. `none` is the panic of the comparison of series.
pub mod Order
use bookworm.Base.{
  Option, none, some, List, [], ◌∷◌, Text, Ordering, lt, eq, gt, compare, reverse_order,
  option_order, text_order,
}
use bookworm.Records.Column.{
  ColumnIdentifier, title, author, series, id, description, ColumnOrder, ascending, descending,
}
use bookworm.Records.Series.{Series, Floats, cmp_series}
use bookworm.Records.Book.{Book, get_column}

-- The loop over the authors of two books, with the result of the last comparison.
unfoldable pub cmp_authors : List Text → List Text → Ordering
cmp_authors [] [] = eq
cmp_authors [] (t ∷ ts) = lt
cmp_authors (s ∷ ss) [] = gt
cmp_authors (s ∷ ss) (t ∷ ts) =
    let rest = cmp_authors ss ts in elim (text_order s t) [ eq ↦ rest | lt ↦ lt | gt ↦ gt ]

-- `Ord` of `Option`, for a comparison that may panic.
abbrev pub cmp_option :
    {A : Type 0} → (A → A → Option Ordering) → Option A → Option A → Option Ordering
cmp_option cmp none none = some eq
cmp_option cmp none (some b) = some lt
cmp_option cmp (some a) none = some gt
cmp_option cmp (some a) (some b) = cmp a b

-- The comparison in the direction of a column.
abbrev pub directed : ColumnOrder → Ordering → Ordering
directed ascending o = o
directed descending o = reverse_order o

module _ {F I : Type 0} (floats : Floats F) where
  unfoldable pub cmp_column : ColumnIdentifier → Book F I → Book F I → Option Ordering
  unfolding get_column cmp_authors
  cmp_column id a b = some (option_order compare a.id b.id)
  cmp_column series a b = cmp_option (cmp_series floats) a.series b.series
  cmp_column title a b = some (option_order text_order a.title b.title)
  cmp_column description a b = some (option_order text_order a.description b.description)
  cmp_column author a b = cmp_option (λ s t. some (cmp_authors s t)) a.authors b.authors
  cmp_column c a b = some (option_order text_order (get_column floats c a) (get_column floats c b))

  unfoldable pub cmp_columns :
      List (ColumnIdentifier × ColumnOrder) → Book F I → Book F I → Option Ordering
  unfolding cmp_column
  cmp_columns [] a b = some eq
  cmp_columns ((column, direction) ∷ rules) a b =
      let later = cmp_columns rules a b in
      elim (cmp_column column a b) [
        | none ↦ none
        | some o ↦ elim (directed direction o) [ eq ↦ later | lt ↦ some lt | gt ↦ some gt ]
      ]
