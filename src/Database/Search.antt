-- ===== src/Database/Search.antt =====
-- `Search` and its matchers of bookworm-database/src/search.rs. A compiled regular expression is of type
-- `R`; `compile`, `find`, `escape` and `best_match` (whether there is one) are functions of the crates
-- `regex` and `sublime_fuzzy`.
pub mod Texts
use bookworm.Base.{
  ℕ, Bool, true, false, ◌||◌, Option, none, some, List, [], ◌∷◌, Text, codes, text_eq, has_elem,
  is_empty, get_or, if◌then◌else◌, text_key,
}
use bookworm.Records.Column.{ColumnIdentifier, tags}
use bookworm.Records.Book.{Book, get_column, option_map}
use bookworm.Records.Series.{Floats}

pub data SearchMode : Type 0 where
  regex exact_substring default exact_string : SearchMode

pub record Search : Type 0 where
  pub mode : SearchMode
  pub column : ColumnIdentifier
  pub search : Text

-- The structs that implement `Matcher`.
pub data Matcher (R : Type 0) : Type 0 where
  regex_matcher exact_substring_matcher : ColumnIdentifier → R → Matcher R
  exact_string_matcher default_matcher : ColumnIdentifier → Text → Matcher R

-- `column == ColumnIdentifier::Tags`
abbrev pub is_tags : ColumnIdentifier → Bool
is_tags tags = true
is_tags _ = false

-- `iter().any(..)`
unfoldable pub any_of : (Text → Bool) → List Text → Bool
any_of test [] = false
any_of test (t ∷ ts) = test t || any_of test ts

-- What `sql_query` gives to `join_cols`: a column, a condition and a variable; `none` is the panic of
-- `unimplemented!`.
unfoldable pub sql_query : {R : Type 0} → Matcher R → Option (ColumnIdentifier × Text × Text)
sql_query (regex_matcher column r) = none
sql_query (exact_substring_matcher column r) = none
sql_query (exact_string_matcher column s) = some (column, codes "= ?", s)
sql_query (default_matcher column s) = some (column, codes "LIKE '%' || ? || '%'", s)

-- Whether no `sql_query` of some matchers panics.
unfoldable pub all_sql : {R : Type 0} → List (Matcher R) → Bool
unfolding sql_query
all_sql [] = true
all_sql (m ∷ ms) = elim (sql_query m) [ none ↦ false | some q ↦ all_sql ms ]

module _ {R : Type 0} (compile : Text → Option R) (escape : Text → Text) where
  -- `into_matcher` and the functions `new` of the matchers.
  unfoldable pub into_matcher : Search → Option (Matcher R)
  into_matcher s = elim s.mode [
    | regex ↦ option_map (regex_matcher s.column) (compile s.search)
    | exact_substring ↦ option_map (exact_substring_matcher s.column) (compile (escape s.search))
    | exact_string ↦ some (exact_string_matcher s.column s.search)
    | default ↦ some (default_matcher s.column s.search)
  ]

module _ {R F I : Type 0} (find : R → Text → Bool) (best_match : Text → Text → Bool)
    (floats : Floats F) where
  -- A test of the text of a column, or of any tag or the empty text.
  abbrev test_column : ColumnIdentifier → (Text → Bool) → Book F I → Bool
  test_column column test b =
      if is_tags column
      then any_of test b.free_tags || test []
      else test (get_or (get_column floats column b) [])

  -- `is_match` of `RegexMatcher`, `ExactSubstringMatcher`, `ExactStringMatcher` and `DefaultMatcher`.
  abbrev regex_is_match : ColumnIdentifier → R → Book F I → Bool
  regex_is_match column r b = test_column column (find r) b

  abbrev substring_is_match : ColumnIdentifier → R → Book F I → Bool
  substring_is_match column r b = test_column column (find r) b

  abbrev string_is_match : ColumnIdentifier → Text → Book F I → Bool
  string_is_match column s b =
      if is_tags column
      then has_elem s b.free_tags || is_empty s
      else text_eq s (get_or (get_column floats column b) [])

  abbrev default_is_match : ColumnIdentifier → Text → Book F I → Bool
  default_is_match column s b = test_column column (best_match s) b

  unfoldable pub is_match : Matcher R → Book F I → Bool
  unfolding any_of get_column has_elem
  is_match (regex_matcher column r) b = regex_is_match column r b
  is_match (exact_substring_matcher column r) b = substring_is_match column r b
  is_match (exact_string_matcher column s) b = string_is_match column s b
  is_match (default_matcher column s) b = default_is_match column s b
