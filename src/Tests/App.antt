-- ===== src/Tests/App.antt =====
-- bookworm-app: the theorems at concrete inputs, and tests of the parser.
use bookworm.Base.{arith, ◌≡◌, refl, List, [], ◌∷◌, ◌++◌, map, Text, codes, All, starts_with}
use bookworm.App.Command.{ok, panic, ◌>>=◌, IsSafe, regex, file, dir}
use bookworm.App.Parser.Args.{Group, read_args, remove_string_quotes}
use bookworm.App.Parser.Args.Split.{IsArg, IsGroup, flat, read_args-flat}
use bookworm.App.Parser.Matches.{read_matches}
use bookworm.App.Parser.Matches.Queries.{
  Pair, Flagged, IsPair, IsFlagged, query_args, pair_searches, flagged_searches,
  read_matches-query_args,
}
use bookworm.App.Parser.Sources.{read_sources}
use bookworm.App.Parser.Sources.Pending.{
  leading_depth, pend_groups, all_sources, read_sources-pend_groups,
}
use bookworm.App.Parser.Commands.{parse_args}
use bookworm.App.Parser.Commands.Safe.{parse_args-IsSafe}
use bookworm.App.Parser.Commands.Deletion.{parse_args_quote}

-- `-d books -r 2 more.epub`, behind one path without a flag.
abbrev source_groups : List Group
source_groups =
    (codes "-d", codes "books" ∷ []) ∷ (codes "-r", codes "2" ∷ codes "more.epub" ∷ []) ∷ []

abbrev one_path : List Text
one_path = codes "a.epub" ∷ []

read_args-flat_example :
    ((read_args (codes "a" ∷ codes "-d" ∷ codes "b" ∷ [])).0
        ++ flat (read_args (codes "a" ∷ codes "-d" ∷ codes "b" ∷ [])).1
      ≡ codes "a" ∷ codes "-d" ∷ codes "b" ∷ [])
    × All IsArg (read_args (codes "a" ∷ codes "-d" ∷ codes "b" ∷ [])).0
    × All IsGroup (read_args (codes "a" ∷ codes "-d" ∷ codes "b" ∷ [])).1
read_args-flat_example = read_args-flat (codes "a" ∷ codes "-d" ∷ codes "b" ∷ [])

one_path-IsArg : All IsArg one_path
unfolding starts_with
one_path-IsArg = (refl, tt)

source_groups-IsGroup : All IsGroup source_groups
unfolding starts_with
source_groups-IsGroup = ((refl, (refl, tt)), ((refl, (refl, (refl, tt))), tt))

abbrev title_pair : List Pair
title_pair = (codes "title", codes "dune") ∷ []

abbrev author_pattern : List Flagged
author_pattern = (regex, codes "author", codes "h.*t", []) ∷ []

title_pair-IsPair : All IsPair title_pair
unfolding starts_with remove_string_quotes
title_pair-IsPair = ((refl, refl, refl), tt)

author_pattern-IsFlagged : All IsFlagged author_pattern
unfolding starts_with remove_string_quotes
author_pattern-IsFlagged = ((ground arith, (refl, refl, refl), tt), tt)

read_matches-query_args_example :
    read_matches
      (read_args (query_args title_pair author_pattern)).0
      (read_args (query_args title_pair author_pattern)).1
    ≡ ok (pair_searches title_pair ++ flagged_searches author_pattern)
read_matches-query_args_example =
    read_matches-query_args title_pair author_pattern title_pair-IsPair author_pattern-IsFlagged
      (ground arith)

read_sources-pend_groups_example : read_sources one_path source_groups ≡ (
    pend_groups
      (leading_depth source_groups)
      source_groups
      (record { settled = map file one_path; waiting = [] })
    >>= λ p. ok (all_sources (leading_depth source_groups) p))
read_sources-pend_groups_example = read_sources-pend_groups one_path source_groups

read_sources_recursive :
    read_sources one_path source_groups
    ≡ ok (file (codes "a.epub") ∷ dir (codes "books") 2 ∷ file (codes "more.epub") ∷ [])
unfolding read_sources
read_sources_recursive = refl

parse_args-IsSafe_example : IsSafe (parse_args (codes ":f" ∷ codes "title" ∷ codes "'dune'" ∷ []))
parse_args-IsSafe_example =
    parse_args-IsSafe (codes ":f" ∷ codes "title" ∷ codes "'dune'" ∷ []) (ground arith)

dune-IsArg : All IsArg (codes "dune" ∷ [])
unfolding starts_with
dune-IsArg = (refl, tt)

parse_args_quote_example : parse_args (codes ":f" ∷ codes "title" ∷ (0x22 ∷ []) ∷ []) ≡ panic
parse_args_quote_example = parse_args_quote (codes "title") (unfold starts_with in refl)
