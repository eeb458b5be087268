-- ===== src/Records/Compare/Order.antt =====
-- Books are compared by a total preorder: `cmp_columns` of bookworm-records/src/book.rs.
use bookworm.Base.{
  ◌≡◌, refl, ap, Option, none, some, List, [], ◌∷◌, Text, arith, Ordering, eq, compare,
  compare-IsPreorder, IsPreorder, then_order, option_order, list_order, text_order,
  option_order-IsPreorder, list_order-IsPreorder, text_order-IsPreorder, on-IsPreorder,
  reverse_order-IsPreorder, then_order-IsPreorder,
}
use bookworm.Records.Column.{
  ColumnIdentifier, title, author, series, id, variants, description, tags, exact_tag, named_tag,
  multi_map, multi_map_exact, ColumnOrder, ascending, descending,
}
use bookworm.Records.Series.{Floats, cmp_series}
use bookworm.Records.Series.Order.{IsFloats, series_order, series_order-IsPreorder, cmp_series_lem}
use bookworm.Records.Book.{Book, get_column}
use bookworm.Records.Compare.{cmp_authors, cmp_option, cmp_column, directed, cmp_columns}

cmp_authors_lem : (ss ts : List Text) → cmp_authors ss ts ≡ list_order text_order ss ts
unfolding cmp_authors list_order
cmp_authors_lem [] [] = refl
cmp_authors_lem [] (t ∷ ts) = refl
cmp_authors_lem (s ∷ ss) [] = refl
cmp_authors_lem (s ∷ ss) (t ∷ ts) = ground (arith, cmp_authors_lem ss ts)

cmp_option_lem :
    {A : Type 0} (cmp : A → A → Option Ordering) (order : A → A → Ordering)
    → ((a b : A) → cmp a b ≡ some (order a b))
    → (a b : Option A) → cmp_option cmp a b ≡ some (option_order order a b)
cmp_option_lem cmp order h none none = refl
cmp_option_lem cmp order h none (some b) = refl
cmp_option_lem cmp order h (some a) none = refl
cmp_option_lem cmp order h (some a) (some b) = h a b

constant-IsPreorder : {A : Type 0} → IsPreorder (λ (a b : A). eq)
constant-IsPreorder = record {
  cmp_self = λ a. refl;
  cmp_swap = λ a b. refl;
  lt_trans = λ a b c h k. h;
  eq_left = λ a b c h. refl;
}

directed-IsPreorder :
    {A : Type 0} {order : A → A → Ordering} (d : ColumnOrder)
    → IsPreorder order
    → IsPreorder (λ a b. directed d (order a b))
directed-IsPreorder ascending p = p
directed-IsPreorder descending p = reverse_order-IsPreorder p

module _ {F I : Type 0} (floats : Floats F) (f : IsFloats floats) where
  -- The order that a column puts on books, with a missing value first.
  abbrev pub column_order : ColumnIdentifier → Book F I → Book F I → Ordering
  column_order id a b = option_order compare a.id b.id
  column_order series a b = option_order (series_order floats f) a.series b.series
  column_order author a b = option_order (list_order text_order) a.authors b.authors
  column_order c a b = option_order text_order (get_column floats c a) (get_column floats c b)

  -- The first rule that tells two books apart decides.
  abbrev pub rules_order : List (ColumnIdentifier × ColumnOrder) → Book F I → Book F I → Ordering
  rules_order [] a b = eq
  rules_order ((c, d) ∷ rules) a b =
      then_order (directed d (column_order c a b)) (rules_order rules a b)

  read-IsPreorder :
      (c : ColumnIdentifier)
      → IsPreorder
          (λ a b. option_order text_order (get_column {I = I} floats c a) (get_column floats c b))
  read-IsPreorder c =
      on-IsPreorder (option_order-IsPreorder text_order-IsPreorder)
        (λ (b : Book F I). get_column floats c b)

  column_order-IsPreorder : (c : ColumnIdentifier) → IsPreorder (column_order c)
  column_order-IsPreorder id =
      on-IsPreorder (option_order-IsPreorder compare-IsPreorder) (λ (b : Book F I). b.id)
  column_order-IsPreorder series =
      on-IsPreorder (option_order-IsPreorder (series_order-IsPreorder floats f))
        (λ (b : Book F I). b.series)
  column_order-IsPreorder author =
      on-IsPreorder (option_order-IsPreorder (list_order-IsPreorder text_order-IsPreorder))
        (λ (b : Book F I). b.authors)
  column_order-IsPreorder title = read-IsPreorder title
  column_order-IsPreorder variants = read-IsPreorder variants
  column_order-IsPreorder description = read-IsPreorder description
  column_order-IsPreorder tags = read-IsPreorder tags
  column_order-IsPreorder (exact_tag t) = read-IsPreorder (exact_tag t)
  column_order-IsPreorder (multi_map t) = read-IsPreorder (multi_map t)
  column_order-IsPreorder (multi_map_exact t u) = read-IsPreorder (multi_map_exact t u)
  column_order-IsPreorder (named_tag t) = read-IsPreorder (named_tag t)

  rules_order-IsPreorder :
      (rules : List (ColumnIdentifier × ColumnOrder)) → IsPreorder (rules_order rules)
  rules_order-IsPreorder [] = constant-IsPreorder
  rules_order-IsPreorder ((c, d) ∷ rules) =
      then_order-IsPreorder (directed-IsPreorder d (column_order-IsPreorder c))
        (rules_order-IsPreorder rules)

  cmp_column_lem :
      (c : ColumnIdentifier) (a b : Book F I) → cmp_column floats c a b ≡ some (column_order c a b)
  unfolding cmp_column get_column
  cmp_column_lem id a b = refl
  cmp_column_lem series a b =
      cmp_option_lem (cmp_series floats) (series_order floats f) (cmp_series_lem floats f) a.series
        b.series
  cmp_column_lem author a b =
      cmp_option_lem (λ s t. some (cmp_authors s t)) (list_order text_order)
        (λ s t. ap some (cmp_authors_lem s t)) a.authors b.authors
  cmp_column_lem title a b = refl
  cmp_column_lem variants a b = refl
  cmp_column_lem description a b = refl
  cmp_column_lem tags a b = refl
  cmp_column_lem (exact_tag t) a b = refl
  cmp_column_lem (multi_map t) a b = refl
  cmp_column_lem (multi_map_exact t u) a b = refl
  cmp_column_lem (named_tag t) a b = refl

  cmp_columns_lem :
      (rules : List (ColumnIdentifier × ColumnOrder)) (a b : Book F I)
      → cmp_columns floats rules a b ≡ some (rules_order rules a b)
  unfolding cmp_columns
  cmp_columns_lem [] a b = refl
  cmp_columns_lem ((c, d) ∷ rules) a b =
      ground (arith, cmp_column_lem c a b, cmp_columns_lem rules a b)

  -- Whatever the rules, books are compared without a panic, and by a total preorder: the
  -- comparison by the first rule that tells them apart, with missing values before all texts, the
  -- empty one included, authors one by one and series by name and number.
  pub cmp_columns-IsPreorder :
      (rules : List (ColumnIdentifier × ColumnOrder))
      → ((a b : Book F I) → cmp_columns floats rules a b ≡ some (rules_order rules a b))
        × IsPreorder (rules_order rules)
  cmp_columns-IsPreorder rules = (cmp_columns_lem rules, rules_order-IsPreorder rules)
