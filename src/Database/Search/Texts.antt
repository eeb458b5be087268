-- ===== src/Database/Search/Texts.antt =====
-- The matchers of bookworm-database/src/search.rs test the texts of a column.
use bookworm.Base.{
  Bool, arith, true, false, ◌||◌, ◌≡◌, refl, sym, List, [], ◌∷◌, ◌++◌, Text, text_eq, text_eq_iff,
  has_elem, is_empty, get_or, if◌then◌else◌, text_key,
}
use bookworm.Records.Column.{ColumnIdentifier}
use bookworm.Records.Book.{Book, get_column}
use bookworm.Records.Series.{Floats}
use bookworm.Database.Search.{
  Matcher, regex_matcher, exact_substring_matcher, exact_string_matcher, default_matcher, is_tags,
  any_of, is_match,
}

abbrev pub column_of : {R : Type 0} → Matcher R → ColumnIdentifier
column_of (regex_matcher c r) = c
column_of (exact_substring_matcher c r) = c
column_of (exact_string_matcher c s) = c
column_of (default_matcher c s) = c

-- Whether a matcher takes a text.
abbrev pub takes : {R : Type 0} → (R → Text → Bool) → (Text → Text → Bool) → Matcher R → Text → Bool
takes find best_match (regex_matcher c r) = find r
takes find best_match (exact_substring_matcher c r) = find r
takes find best_match (exact_string_matcher c s) = text_eq s
takes find best_match (default_matcher c s) = best_match s

any_of-snoc :
    (f : Text → Bool) (ts : List Text) (t : Text) → any_of f (ts ++ t ∷ []) ≡ (any_of f ts || f t)
unfolding any_of
any_of-snoc f [] t = ground arith
any_of-snoc f (s ∷ ts) t = ground (arith, any_of-snoc f ts t)

has_elem-any_of : (s : Text) (ts : List Text) → has_elem s ts ≡ any_of (text_eq s) ts
unfolding has_elem any_of
has_elem-any_of s [] = refl
has_elem-any_of s (t ∷ ts) = ground (arith, text_eq_iff s t, text_eq_iff t s, has_elem-any_of s ts)

text_eq_empty : (s : Text) → is_empty s ≡ text_eq s []
unfolding text_eq
text_eq_empty [] = refl
text_eq_empty (c ∷ s) = refl

tested :
    (c : Bool) (test : Text → Bool) (ts : List Text) (t : Text)
    → (if c then any_of test ts || test [] else test t)
      ≡ any_of test (if c then ts ++ [] ∷ [] else t ∷ [])
unfolding any_of
tested true test ts t = sym (any_of-snoc test ts [])
tested false test ts t = ground arith

tested_tags :
    (c : Bool) (s : Text) (ts : List Text) (t : Text)
    → (if c then has_elem s ts || is_empty s else text_eq s t)
      ≡ any_of (text_eq s) (if c then ts ++ [] ∷ [] else t ∷ [])
tested_tags c s ts t = rw (has_elem-any_of s ts, text_eq_empty s) (tested c (text_eq s) ts t)

module _ {F I : Type 0} (floats : Floats F) where
  -- The texts of a column: the tags and the empty text, or its text, which is empty where it has none.
  abbrev pub texts : ColumnIdentifier → Book F I → List Text
  texts c b = if is_tags c then b.free_tags ++ [] ∷ [] else get_or (get_column floats c b) [] ∷ []

module _ {R F I : Type 0} (find : R → Text → Bool) (best_match : Text → Text → Bool)
    (floats : Floats F) where
  -- A matcher takes a book exactly if it takes one of the texts of its column.
  pub is_match-any_of :
      (m : Matcher R) (b : Book F I)
      → is_match find best_match floats m b
        ≡ any_of (takes find best_match m) (texts floats (column_of m) b)
  unfolding is_match
  is_match-any_of (regex_matcher c r) b =
      tested (is_tags c) (find r) b.free_tags (get_or (get_column floats c b) [])
  is_match-any_of (exact_substring_matcher c r) b =
      tested (is_tags c) (find r) b.free_tags (get_or (get_column floats c b) [])
  is_match-any_of (exact_string_matcher c s) b =
      tested_tags (is_tags c) s b.free_tags (get_or (get_column floats c b) [])
  is_match-any_of (default_matcher c s) b =
      tested (is_tags c) (best_match s) b.free_tags (get_or (get_column floats c b) [])
