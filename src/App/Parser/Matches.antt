-- ===== src/App/Parser/Matches.antt =====
-- `Matches::from_args` of bookworm-app/src/parser.rs: the searches of `:d`, `:j` and `:f`.
pub mod Safe
pub mod Queries
use bookworm.Base.{List, [], ◌∷◌, ◌++◌, Text, codes, text_eq, if◌then◌else◌}
use bookworm.Records.Column.{from_text}
use bookworm.App.Command.{
  Result, ok, err, panic, ◌>>=◌, unknown_flag, insufficient_arguments, Search, SearchMode, regex,
  exact_substring, exact_string, default,
}
use bookworm.App.Parser.Args.{Group, remove_string_quotes, next_arg}

unfoldable pub make_search : SearchMode → Text → Text → Result Search
make_search mode col s = do
  bare ← remove_string_quotes s
  ok (record { mode = mode; column = from_text col; search = bare })

-- The loops over pairs of a column and a search.
unfoldable pub read_pairs : List Text → Result (List Search)
read_pairs [] = ok []
read_pairs (col ∷ []) = err insufficient_arguments
read_pairs (col ∷ (s ∷ rest)) = do m ← make_search default col s; ms ← read_pairs rest; ok (m ∷ ms)

unfoldable pub read_mode : Text → Result SearchMode
unfolding text_eq
read_mode flag =
    if text_eq flag (codes "-r")
    then ok regex
    else if text_eq flag (codes "-e")
    then ok exact_substring
    else if text_eq flag (codes "-x")
    then ok exact_string
    else err unknown_flag

unfoldable pub read_match_group : Group → Result (List Search)
read_match_group (flag, args) = do
  mode ← read_mode flag
  (col, more) ← next_arg args
  (s, rest) ← next_arg more
  m ← make_search mode col s
  ms ← read_pairs rest
  ok (m ∷ ms)

unfoldable pub read_match_groups : List Group → Result (List Search)
read_match_groups [] = ok []
read_match_groups (g ∷ gs) = do
  ms ← read_match_group g
  more ← read_match_groups gs
  ok (ms ++ more)

-- `if matches.is_empty()`
abbrev pub some_matches : List Search → Result (List Search)
some_matches [] = err insufficient_arguments
some_matches (m ∷ ms) = ok (m ∷ ms)

unfoldable pub read_matches : List Text → List Group → Result (List Search)
read_matches start gs = do
  ms ← read_pairs start
  more ← read_match_groups gs
  some_matches (ms ++ more)
