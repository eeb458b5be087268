-- ===== src/App/Parser/Sources.antt =====
-- The sources of `:a` and `:update`: `AddBooks::from_args` and `UpdateBooks::from_args` of
-- bookworm-app/src/parser.rs, two copies of one reader. `PathBuf::from` keeps the text.
pub mod Pending
use bookworm.Base.{
  ℕ, Bool, Option, none, some, get_or, List, [], ◌∷◌, ◌++◌, map, Text, length, take, drop, codes,
  text_eq, ltb, leb, ◌==◌, if◌then◌else◌,
}
use bookworm.App.Command.{Result, ok, err, panic, ◌>>=◌, unknown_flag, Source, file, dir, glob}
use bookworm.App.Parser.Args.{Group, first?, parse_u8}

-- `u8::from_str(s).unwrap_or(255)`
abbrev pub depth_of : Text → ℕ
depth_of s = get_or (parse_u8 s) 255

-- The depth of all directories that no later `-r` names.
unfoldable pub global_recursion : List Group → ℕ
unfolding text_eq parse_u8
global_recursion [] = 1
global_recursion ((flag, args) ∷ gs) =
    if text_eq flag (codes "-r") then elim (first? args) [ none ↦ 255 | some s ↦ depth_of s ] else 1

-- `if let Source::Dir(_, depth) = source { *depth = … }`
abbrev pub with_depth : ℕ → Source → Source
with_depth n (dir path d) = dir path n
with_depth n (file path) = file path
with_depth n (glob pattern) = glob pattern

-- `args`, without the first if there is one.
abbrev pub rest_args : List Text → List Text
rest_args [] = []
rest_args (_ ∷ args) = args

-- The variables of the loop: `sources` and `prev_ind`.
abbrev pub Reading : Type 0
Reading = List Source × ℕ

abbrev pub extended : List Source → Result Reading
extended sources = ok (sources, length sources)

unfoldable pub read_recursion : List Text → Reading → Result Reading
unfolding parse_u8
read_recursion args (sources, prev_ind) =
    if leb (length sources) prev_ind
    then (if prev_ind == length sources then ok (sources, prev_ind) else panic)
    else extended (
        (take prev_ind sources
          ++ map (with_depth (elim (first? args) [ none ↦ 255 | some s ↦ depth_of s ]))
              (drop prev_ind sources))
        ++ map file (rest_args args))

unfoldable pub read_source_group : ℕ → Group → Reading → Result Reading
unfolding text_eq read_recursion
read_source_group depth (flag, args) (sources, prev_ind) =
    if text_eq flag (codes "-g")
    then extended (sources ++ map glob args)
    else if text_eq flag (codes "-d")
    then ok (sources ++ map (λ path. dir path depth) args, length sources)
    else if text_eq flag (codes "-r")
    then read_recursion args (sources, prev_ind)
    else if text_eq flag (codes "-p")
    then extended (sources ++ map file args)
    else err unknown_flag

unfoldable pub read_source_groups : ℕ → List Group → Reading → Result Reading
unfolding read_source_group
read_source_groups depth [] r = ok r
read_source_groups depth (g ∷ gs) r = read_source_group depth g r >>= read_source_groups depth gs

unfoldable pub read_sources : List Text → List Group → Result (List Source)
unfolding read_source_groups global_recursion
read_sources start gs = do
  (sources, _) ← read_source_groups (global_recursion gs) gs (map file start, length start)
  ok sources

unfoldable pub read_update_sources : List Text → List Group → Result (List Source)
unfolding read_source_groups global_recursion
read_update_sources start gs = do
  (sources, _) ← read_source_groups (global_recursion gs) gs (map file start, length start)
  ok sources
