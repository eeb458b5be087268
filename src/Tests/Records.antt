-- ===== src/Tests/Records.antt =====
-- bookworm-records: the theorems at concrete inputs, and tests.
use bookworm.Base.{
  ℕ, ◌≡◌, refl, false, none, some, List, [], ◌∷◌, Text, codes, compare, compare-IsPreorder,
  IsPreorder, has_elem, text_key, lookup_key, text_order, lt,
}
use bookworm.Records.Column.{
  ColumnIdentifier, title, author, series, exact_tag, ColumnOrder, ascending, descending,
}
use bookworm.Records.Series.{Series, Floats, is_whitespace, from_str, to_string, cmp_series}
use bookworm.Records.Series.RoundTrip.{from_str-to_string}
use bookworm.Records.Series.Order.{IsFloats}
use bookworm.Records.Book.{Book, append, edit_column, show_id}
use bookworm.Records.Book.Tags.{HasTags, tags_after, edit_column-HasTags}
use bookworm.Records.Book.Merge.{Merged, merge_all, merge_all-Merged}
use bookworm.Records.Compare.{cmp_columns}
use bookworm.Records.Compare.Order.{rules_order, cmp_columns-IsPreorder}

-- Numbers of one digit in place of `f32`.
abbrev digit : Floats ℕ
digit = record {
  parse = λ s. elim s [ [] ↦ none | c ∷ t ↦ some c ];
  show = λ n. n ∷ [];
  partial_cmp = λ i j. some (compare i j);
  is_nan = λ i. false;
}

digit-IsFloats : IsFloats digit
digit-IsFloats = record {
  number = compare;
  number-IsPreorder = compare-IsPreorder;
  partial_cmp_lem = λ i j. refl;
}

abbrev dune : Series ℕ
dune = record { name = codes "Dune Saga"; index = some b'2' }

from_str-to_string_example : from_str digit (to_string digit dune) ≡ dune
unfolding is_whitespace
from_str-to_string_example = from_str-to_string digit (codes "Dune Saga") b'2' refl (refl, tt)

abbrev book : ℕ → Text → Book ℕ ℕ
book n t = record {
  id = some n;
  title = some t;
  authors = some (codes "Homer" ∷ []);
  series = some dune;
  description = none;
  variants = [];
  free_tags = t ∷ [];
  named_tags = (codes "read", t) ∷ [];
}

abbrev iliad : Book ℕ ℕ
iliad = book 1 (codes "Iliad")

abbrev odyssey : Book ℕ ℕ
odyssey = book 2 (codes "Odyssey")

abbrev by_author : List (ColumnIdentifier × ColumnOrder)
by_author = (author, ascending) ∷ ((series, descending) ∷ ((title, descending) ∷ []))

cmp_columns-IsPreorder_example :
    ((a b : Book ℕ ℕ)
      → cmp_columns digit by_author a b ≡ some (rules_order digit digit-IsFloats by_author a b))
    × IsPreorder (rules_order {I = ℕ} digit digit-IsFloats by_author)
cmp_columns-IsPreorder_example = cmp_columns-IsPreorder digit digit-IsFloats by_author

edit_column-HasTags_example :
    HasTags (edit_column digit (exact_tag (codes "Iliad")) (append (codes "s")) iliad) (
      tags_after (exact_tag (codes "Iliad")) (append (codes "s")) (λ u. has_elem u iliad.free_tags))
edit_column-HasTags_example =
    edit_column-HasTags digit (exact_tag (codes "Iliad")) (append (codes "s")) iliad

merge_all-Merged_example :
    Merged iliad (odyssey ∷ (iliad ∷ [])) (merge_all iliad (odyssey ∷ (iliad ∷ [])))
unfolding lookup_key
merge_all-Merged_example =
    merge_all-Merged iliad (odyssey ∷ (iliad ∷ [])) ((refl, tt), ((refl, tt), tt))

id_shown : show_id 120 ≡ codes "120"
unfolding show_id
id_shown = refl

ordered : cmp_columns digit by_author odyssey iliad ≡ some lt
unfolding cmp_columns text_order cmp_series
ordered = refl
