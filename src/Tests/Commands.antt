-- ===== src/Tests/Commands.antt =====
-- The round trips of the commands of bookworm-app at concrete inputs.
use bookworm.Base.{◌≡◌, refl, List, [], ◌∷◌, ◌++◌, map, Text, codes, starts_with, All, arith}
use bookworm.App.Command.{ok, add_column, modify_columns, sort_columns}
use bookworm.App.Parser.Args.Split.{IsArg, flat}
use bookworm.App.Parser.Edits.{ascending_by}
use bookworm.App.Parser.Commands.{parse_args}
use bookworm.App.Parser.Commands.Columns.{
  Change, change_groups, changes_of, AddsArgs, parse_args_columns,
}
use bookworm.App.Parser.Commands.Sorts.{descent_groups, descent_sorts, HasArgs, parse_args_sorts}

abbrev one_column : List Text
one_column = codes "title" ∷ []

one_column-IsArg : All IsArg one_column
unfolding starts_with
one_column-IsArg = (refl, tt)

abbrev one_change : List Change
one_change = (codes "author", codes "series" ∷ []) ∷ []

one_change-AddsArgs : All AddsArgs one_change
unfolding starts_with
one_change-AddsArgs = ((refl, tt), tt)

parse_args_columns_example :
    parse_args (codes ":c" ∷ one_column ++ flat (change_groups one_change))
    ≡ ok (modify_columns (map add_column one_column ++ changes_of one_change))
parse_args_columns_example =
    parse_args_columns one_column one_change one_column-IsArg one_change-AddsArgs

one_change-HasArgs : All HasArgs one_change
unfolding starts_with
one_change-HasArgs = ((refl, (refl, tt)), tt)

parse_args_sorts_example :
    parse_args (codes ":s" ∷ one_column ++ flat (descent_groups one_change))
    ≡ ok (sort_columns (map ascending_by one_column ++ descent_sorts one_change))
parse_args_sorts_example =
    parse_args_sorts one_column one_change one_column-IsArg one_change-HasArgs (ground arith)
