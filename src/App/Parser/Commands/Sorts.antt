-- ===== src/App/Parser/Commands/Sorts.antt =====
-- Sorts written as a command line and read back: `:s` of bookworm-app/src/parser.rs.
use bookworm.Base.{◌≡◌, ◌≢◌, refl, List, [], ◌∷◌, ◌++◌, map, Text, codes, starts_with, text_eq, All}
use bookworm.Records.Column.{from_text, descending}
use bookworm.App.Command.{ok, sort_columns}
use bookworm.App.Parser.Args.{Group, read_args}
use bookworm.App.Parser.Args.Split.{IsArg, IsGroup, flat, read_args-append_flat}
use bookworm.App.Parser.Edits.{Sort, ascending_by, some_sorts, read_sort_groups, read_sorts}
use bookworm.App.Parser.Commands.{root_sort_columns, read_root, into_command, parse_args}

-- A column to sort by in descending order, and the ascending ones behind it.
abbrev pub Descent : Type 0
Descent = Text × List Text

abbrev pub descent_groups : List Descent → List Group
descent_groups [] = []
descent_groups ((col, more) ∷ ds) = (codes "-d", col ∷ more) ∷ descent_groups ds

abbrev pub descent_sorts : List Descent → List Sort
descent_sorts [] = []
descent_sorts ((col, more) ∷ ds) =
    (from_text col, descending) ∷ map ascending_by more ++ descent_sorts ds

abbrev pub HasArgs : Descent → Type 0
HasArgs (col, more) = IsArg col × All IsArg more

descent_groups-IsGroup : (ds : List Descent) → All HasArgs ds → All IsGroup (descent_groups ds)
unfolding starts_with
descent_groups-IsGroup [] h = tt
descent_groups-IsGroup ((col, more) ∷ ds) h = ((refl, h.0), descent_groups-IsGroup ds h.1)

read_sort_groups-descent_groups :
    (ds : List Descent) → read_sort_groups (descent_groups ds) ≡ ok (descent_sorts ds)
unfolding read_sort_groups text_eq
read_sort_groups-descent_groups [] = refl
read_sort_groups-descent_groups ((col, more) ∷ ds) = rw (read_sort_groups-descent_groups ds)

some_sorts_left : (ss : List Sort) → ss ≢ [] → some_sorts ss ≡ ok ss
some_sorts_left [] h = elim (h refl) [ ]
some_sorts_left (s ∷ ss) h = refl

read_descents :
    (start : List Text) (ds : List Descent) (p : List Text × List Group)
    → p ≡ (start, descent_groups ds)
    → map ascending_by start ++ descent_sorts ds ≢ []
    → into_command root_sort_columns p.0 p.1
      ≡ ok (sort_columns (map ascending_by start ++ descent_sorts ds))
unfolding into_command read_sorts
read_descents start ds p e h = rw (
  e,
  read_sort_groups-descent_groups ds,
  some_sorts_left (map ascending_by start ++ descent_sorts ds) h,
)

-- Sorts that are written behind `:s`, each descending column behind a `-d` that stands before it, are
-- read back in order, if there is one at least and no column begins with a dash.
pub parse_args_sorts :
    (start : List Text) (ds : List Descent)
    → All IsArg start
    → All HasArgs ds
    → map ascending_by start ++ descent_sorts ds ≢ []
    → parse_args (codes ":s" ∷ start ++ flat (descent_groups ds))
      ≡ ok (sort_columns (map ascending_by start ++ descent_sorts ds))
unfolding parse_args read_root
parse_args_sorts start ds h k some_left =
    read_descents start ds (read_args (start ++ flat (descent_groups ds)))
      (read_args-append_flat start (descent_groups ds) h (descent_groups-IsGroup ds k)) some_left
