-- ===== src/App/Parser/Commands/Columns.antt =====
-- Changes of columns written as a command line and read back: `:c` of bookworm-app/src/parser.rs.
use bookworm.Base.{◌≡◌, refl, List, [], ◌∷◌, ◌++◌, map, Text, codes, starts_with, All}
use bookworm.App.Command.{ok, ModifyColumn, remove_column, add_column, modify_columns}
use bookworm.App.Parser.Args.{Group, read_args}
use bookworm.App.Parser.Args.Split.{IsArg, IsGroup, flat, read_args-append_flat}
use bookworm.App.Parser.Edits.{read_column_groups, read_columns}
use bookworm.App.Parser.Commands.{root_modify_columns, read_root, into_command, parse_args}

-- A column to remove, and the columns to add behind it.
abbrev pub Change : Type 0
Change = Text × List Text

abbrev pub change_groups : List Change → List Group
change_groups [] = []
change_groups ((name, added) ∷ cs) = (b'-' ∷ name, added) ∷ change_groups cs

abbrev pub changes_of : List Change → List ModifyColumn
changes_of [] = []
changes_of ((name, added) ∷ cs) = remove_column name ∷ map add_column added ++ changes_of cs

abbrev pub AddsArgs : Change → Type 0
AddsArgs (name, added) = All IsArg added

change_groups-IsGroup : (cs : List Change) → All AddsArgs cs → All IsGroup (change_groups cs)
unfolding starts_with
change_groups-IsGroup [] h = tt
change_groups-IsGroup ((name, added) ∷ cs) h = ((refl, h.0), change_groups-IsGroup cs h.1)

read_column_groups-change_groups :
    (cs : List Change) → read_column_groups (change_groups cs) ≡ ok (changes_of cs)
unfolding read_column_groups starts_with
read_column_groups-change_groups [] = refl
read_column_groups-change_groups ((name, added) ∷ cs) = rw (read_column_groups-change_groups cs)

read_changes :
    (start : List Text) (cs : List Change) (p : List Text × List Group)
    → p ≡ (start, change_groups cs)
    → into_command root_modify_columns p.0 p.1
      ≡ ok (modify_columns (map add_column start ++ changes_of cs))
unfolding into_command read_columns
read_changes start cs p e = rw (e, read_column_groups-change_groups cs)

-- Columns to add and to remove that are written behind `:c`, each column to remove with a dash,
-- are read back in order, if no column to add begins with a dash.
pub parse_args_columns :
    (start : List Text) (cs : List Change)
    → All IsArg start
    → All AddsArgs cs
    → parse_args (codes ":c" ∷ start ++ flat (change_groups cs))
      ≡ ok (modify_columns (map add_column start ++ changes_of cs))
unfolding parse_args read_root
parse_args_columns start cs h k =
    read_changes start cs (read_args (start ++ flat (change_groups cs)))
      (read_args-append_flat start (change_groups cs) h (change_groups-IsGroup cs k))
