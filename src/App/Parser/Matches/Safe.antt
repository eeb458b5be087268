-- ===== src/App/Parser/Matches/Safe.antt =====
-- The readers of searches of bookworm-app/src/parser.rs panic on nothing but a single quote.
use bookworm.Base.{◌≢◌, List, [], ◌∷◌, ◌++◌, Text, All, arith}
use bookworm.App.Command.{ok, ◌>>=◌, IsSafe, IsSafe-bind, Search, SearchMode}
use bookworm.App.Parser.Args.{Group, remove_string_quotes, next_arg}
use bookworm.App.Parser.Matches.{
  make_search, read_pairs, read_mode, read_match_group, read_match_groups, read_matches,
  some_matches,
}

-- A text that is not one quote alone.
abbrev pub IsNoQuote : Text → Type 0
IsNoQuote s = (s ≢ 0x22 ∷ []) × (s ≢ 0x27 ∷ [])

remove_string_quotes-IsSafe : (s : Text) → IsNoQuote s → IsSafe (remove_string_quotes s)
unfolding remove_string_quotes
remove_string_quotes-IsSafe [] h = tt
remove_string_quotes-IsSafe (c ∷ []) h = ground arith
remove_string_quotes-IsSafe (c ∷ (d ∷ s)) h = ground arith

make_search-IsSafe :
    (mode : SearchMode) (col s : Text) → IsNoQuote s → IsSafe (make_search mode col s)
unfolding make_search
make_search-IsSafe mode col s h =
    IsSafe-bind (remove_string_quotes s) _ (remove_string_quotes-IsSafe s h) (λ a e. tt)

read_pairs-IsSafe : (args : List Text) → All IsNoQuote args → IsSafe (read_pairs args)
unfolding read_pairs
read_pairs-IsSafe [] h = tt
read_pairs-IsSafe (col ∷ []) h = tt
read_pairs-IsSafe (col ∷ (s ∷ rest)) h =
    IsSafe-bind (make_search SearchMode.default col s) _
      (make_search-IsSafe SearchMode.default col s h.1.0)
      (λ m e. IsSafe-bind (read_pairs rest) _ (read_pairs-IsSafe rest h.1.1) (λ ms e'. tt))

read_mode-IsSafe : (flag : Text) → IsSafe (read_mode flag)
unfolding read_mode
read_mode-IsSafe flag = ground arith

-- All arguments of a group.
abbrev pub AllArgs : (Text → Type 0) → List Group → Type 0
AllArgs P [] = Unit
AllArgs P ((flag, args) ∷ gs) = All P args × AllArgs P gs

read_match_group-IsSafe :
    (flag : Text) (args : List Text) → All IsNoQuote args → IsSafe (read_match_group (flag, args))
unfolding read_match_group
read_match_group-IsSafe flag args h =
    IsSafe-bind (read_mode flag) _ (read_mode-IsSafe flag) (λ mode e. on_args mode args h)
  where
    on_args :
        (mode : SearchMode) (args : List Text)
        → All IsNoQuote args
        → IsSafe (do
          (col, more) ← next_arg args
          (s, rest) ← next_arg more
          m ← make_search mode col s
          ms ← read_pairs rest
          ok (m ∷ ms))
    on_args mode [] h = tt
    on_args mode (col ∷ []) h = tt
    on_args mode (col ∷ (s ∷ rest)) h =
        IsSafe-bind (make_search mode col s) _ (make_search-IsSafe mode col s h.1.0)
          (λ m e. IsSafe-bind (read_pairs rest) _ (read_pairs-IsSafe rest h.1.1) (λ ms e'. tt))

read_match_groups-IsSafe : (gs : List Group) → AllArgs IsNoQuote gs → IsSafe (read_match_groups gs)
unfolding read_match_groups
read_match_groups-IsSafe [] h = tt
read_match_groups-IsSafe ((flag, args) ∷ gs) h =
    IsSafe-bind (read_match_group (flag, args)) _ (read_match_group-IsSafe flag args h.0) (λ ms e.
      IsSafe-bind (read_match_groups gs) _ (read_match_groups-IsSafe gs h.1) (λ more e'. tt))

some_matches-IsSafe : (ms : List Search) → IsSafe (some_matches ms)
some_matches-IsSafe [] = tt
some_matches-IsSafe (m ∷ ms) = tt

pub read_matches-IsSafe :
    (start : List Text) (gs : List Group)
    → All IsNoQuote start
    → AllArgs IsNoQuote gs
    → IsSafe (read_matches start gs)
unfolding read_matches
read_matches-IsSafe start gs h k =
    IsSafe-bind (read_pairs start) _ (read_pairs-IsSafe start h) (λ ms e.
      IsSafe-bind (read_match_groups gs) _ (read_match_groups-IsSafe gs k)
        (λ more e'. some_matches-IsSafe (ms ++ more)))
