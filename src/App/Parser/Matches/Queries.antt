-- ===== src/App/Parser/Matches/Queries.antt =====
-- Searches written as arguments and read back: `Matches::from_args` of bookworm-app/src/parser.rs.
use bookworm.Base.{◌≡◌, ◌≢◌, refl, true, List, [], ◌∷◌, ◌++◌, Text, codes, starts_with, All}
use bookworm.Records.Column.{from_text}
use bookworm.App.Command.{ok, Search, SearchMode, regex, exact_substring, exact_string, default}
use bookworm.App.Parser.Args.{Group, is_flag, read_args, remove_string_quotes}
use bookworm.App.Parser.Args.Split.{IsArg, IsGroup, flat, read_args-append_flat}
use bookworm.App.Parser.Matches.{
  make_search, read_pairs, read_mode, read_match_group, read_match_groups, read_matches,
  some_matches,
}

-- A column and a search, and such a pair behind a flag with the pairs that follow it.
abbrev pub Pair : Type 0
Pair = Text × Text

abbrev pub Flagged : Type 0
Flagged = SearchMode × Text × Text × List Pair

abbrev pub pair_args : List Pair → List Text
pair_args [] = []
pair_args ((col, s) ∷ ps) = col ∷ s ∷ pair_args ps

abbrev pub flag_of : SearchMode → Text
flag_of regex = codes "-r"
flag_of exact_substring = codes "-e"
flag_of exact_string = codes "-x"
flag_of default = []

abbrev pub flagged_group : Flagged → Group
flagged_group (mode, col, s, ps) = (flag_of mode, col ∷ s ∷ pair_args ps)

abbrev pub flagged_groups : List Flagged → List Group
flagged_groups [] = []
flagged_groups (f ∷ fs) = flagged_group f ∷ flagged_groups fs

abbrev pub search_of : SearchMode → Text → Text → Search
search_of mode col s = record { mode = mode; column = from_text col; search = s }

abbrev pub pair_searches : List Pair → List Search
pair_searches [] = []
pair_searches ((col, s) ∷ ps) = search_of default col s ∷ pair_searches ps

abbrev pub flagged_searches : List Flagged → List Search
flagged_searches [] = []
flagged_searches ((mode, col, s, ps) ∷ fs) =
    (search_of mode col s ∷ pair_searches ps) ++ flagged_searches fs

-- Neither text begins with a dash, and the search does not stand in quotes.
abbrev pub IsPair : Pair → Type 0
IsPair (col, s) = IsArg col × IsArg s × (remove_string_quotes s ≡ ok s)

abbrev pub IsFlagged : Flagged → Type 0
IsFlagged (mode, col, s, ps) = (mode ≢ default) × IsPair (col, s) × All IsPair ps

make_search_bare :
    (mode : SearchMode) (col s : Text)
    → remove_string_quotes s ≡ ok s
    → make_search mode col s ≡ ok (search_of mode col s)
unfolding make_search
make_search_bare mode col s h = rw h

read_pairs-pair_args :
    (ps : List Pair) → All IsPair ps → read_pairs (pair_args ps) ≡ ok (pair_searches ps)
unfolding read_pairs
read_pairs-pair_args [] h = refl
read_pairs-pair_args ((col, s) ∷ ps) h =
    rw (make_search_bare default col s h.0.2, read_pairs-pair_args ps h.1)

read_mode-flag_of : (mode : SearchMode) → mode ≢ default → read_mode (flag_of mode) ≡ ok mode
unfolding read_mode
read_mode-flag_of regex h = refl
read_mode-flag_of exact_substring h = refl
read_mode-flag_of exact_string h = refl
read_mode-flag_of default h = absurd (h refl)

read_match_group-flagged :
    (mode : SearchMode) (col s : Text) (ps : List Pair)
    → IsFlagged (mode, col, s, ps)
    → read_match_group (flagged_group (mode, col, s, ps))
      ≡ ok (search_of mode col s ∷ pair_searches ps)
unfolding read_match_group
read_match_group-flagged mode col s ps h =
    rw (read_mode-flag_of mode h.0, make_search_bare mode col s h.1.2, read_pairs-pair_args ps h.2)

read_match_groups-flagged :
    (fs : List Flagged)
    → All IsFlagged fs
    → read_match_groups (flagged_groups fs) ≡ ok (flagged_searches fs)
unfolding read_match_groups
read_match_groups-flagged [] h = refl
read_match_groups-flagged ((mode, col, s, ps) ∷ fs) h =
    rw (read_match_group-flagged mode col s ps h.0, read_match_groups-flagged fs h.1)

some_matches_eq : (ms : List Search) → ms ≢ [] → some_matches ms ≡ ok ms
some_matches_eq [] h = absurd (h refl)
some_matches_eq (m ∷ ms) h = refl

pair_args-IsArg : (ps : List Pair) → All IsPair ps → All IsArg (pair_args ps)
pair_args-IsArg [] h = tt
pair_args-IsArg ((col, s) ∷ ps) h = (h.0.0, (h.0.1, pair_args-IsArg ps h.1))

flag_of-is_flag : (mode : SearchMode) → mode ≢ default → is_flag (flag_of mode) ≡ true
unfolding starts_with
flag_of-is_flag regex h = refl
flag_of-is_flag exact_substring h = refl
flag_of-is_flag exact_string h = refl
flag_of-is_flag default h = absurd (h refl)

flagged_groups-IsGroup : (fs : List Flagged) → All IsFlagged fs → All IsGroup (flagged_groups fs)
flagged_groups-IsGroup [] h = tt
flagged_groups-IsGroup ((mode, col, s, ps) ∷ fs) h =
    let (m, p, more) = h.0 in
    ((flag_of-is_flag mode m, (p.0, (p.1, pair_args-IsArg ps more))), flagged_groups-IsGroup fs h.1)

-- The arguments of a query.
abbrev pub query_args : List Pair → List Flagged → List Text
query_args ps fs = pair_args ps ++ flat (flagged_groups fs)

-- Searches that are written as arguments, pairs without a flag first and then each flag with its
-- pairs, are read back, in order and with their modes, if there is one at least, no column and no
-- text begins with a dash, and no text stands in quotes.
pub read_matches-query_args :
    (ps : List Pair) (fs : List Flagged)
    → All IsPair ps
    → All IsFlagged fs
    → pair_searches ps ++ flagged_searches fs ≢ []
    → read_matches (read_args (query_args ps fs)).0 (read_args (query_args ps fs)).1
      ≡ ok (pair_searches ps ++ flagged_searches fs)
unfolding read_matches
read_matches-query_args ps fs h k some_left = rw (
  read_args-append_flat (pair_args ps) (flagged_groups fs) (pair_args-IsArg ps h)
      (flagged_groups-IsGroup fs k),
  read_pairs-pair_args ps h,
  read_match_groups-flagged fs k,
  some_matches_eq (pair_searches ps ++ flagged_searches fs) some_left,
)
