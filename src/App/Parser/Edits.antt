-- ===== src/App/Parser/Edits.antt =====
-- The edits of `:e`, the sorts of `:s` and the columns of `:c`: `EditBook::from_args`,
-- `SortColumns::from_args` and `ModifyColumns::from_args` of bookworm-app/src/parser.rs.
use bookworm.Base.{
  ◌%◌, none, some, List, [], ◌∷◌, ◌++◌, map, Text, length, codes, text_eq, ◌==◌, if◌then◌else◌,
}
use bookworm.Records.Column.{
  ColumnIdentifier, tags, exact_tag, from_text, ColumnOrder, ascending, descending,
}
use bookworm.Input.Edit.{Edit, delete, replace, append}
use bookworm.App.Command.{
  Result, ok, err, panic, ◌>>=◌, unknown_flag, insufficient_arguments, unexpected_arguments,
  BookIndex, selected, by_id, ModifyColumn, remove_column, add_column,
}
use bookworm.App.Parser.Args.{Group, is_flag, next_arg, parse_book_id}

abbrev pub ColumnEdit : Type 0
ColumnEdit = ColumnIdentifier × Edit

-- The loops over pairs of a column and its new value.
unfoldable pub read_replacements : List Text → Result (List ColumnEdit)
unfolding from_text
read_replacements [] = ok []
read_replacements (col ∷ []) = err insufficient_arguments
read_replacements (col ∷ (value ∷ rest)) = do
  more ← read_replacements rest
  ok ((from_text col, replace value) ∷ more)

-- The first edit behind `-d`, and the arguments that it leaves. Behind the column of tags an
-- argument names the tag.
unfoldable pub read_deletion : ColumnIdentifier → List Text → ColumnEdit × List Text
read_deletion tags [] = ((tags, delete), [])
read_deletion tags (tag ∷ args) = ((exact_tag tag, delete), args)
read_deletion column args = ((column, delete), args)

-- The first edit behind `-a` and `-r`. On tags both following arguments are taken.
unfoldable pub read_valued :
    (Text → Edit) → ColumnIdentifier → List Text → Result (ColumnEdit × List Text)
read_valued edit tags [] = err insufficient_arguments
read_valued edit tags (value ∷ []) = ok ((tags, edit value), [])
read_valued edit tags (tag ∷ (value ∷ args)) = ok ((exact_tag tag, edit value), args)
read_valued edit column args = do (value, rest) ← next_arg args; ok ((column, edit value), rest)

-- The `match` on the flag.
unfoldable pub read_first_edit : Group → Result (ColumnEdit × List Text)
unfolding text_eq from_text read_deletion read_valued
read_first_edit (flag, args) =
    if text_eq flag (codes "-d")
    then (next_arg args >>= λ (col, rest). ok (read_deletion (from_text col) rest))
    else if text_eq flag (codes "-a")
    then (next_arg args >>= λ (col, rest). read_valued append (from_text col) rest)
    else if text_eq flag (codes "-r")
    then (next_arg args >>= λ (col, rest). read_valued replace (from_text col) rest)
    else err unknown_flag

unfoldable pub read_edit_groups : List Group → Result (List ColumnEdit)
unfolding read_first_edit read_replacements
read_edit_groups [] = ok []
read_edit_groups (g ∷ gs) = do
  (edit, rest) ← read_first_edit g
  pairs ← read_replacements rest
  more ← read_edit_groups gs
  ok (edit ∷ pairs ++ more)

-- The identifier that stands before an even number of arguments.
unfoldable pub read_edit_index : List Text → Result (BookIndex × List Text)
unfolding parse_book_id
read_edit_index args =
    if length args % 2 == 1
    then (next_arg args >>= λ (first, rest). elim (parse_book_id first) [
      | none ↦ err unexpected_arguments
      | some n ↦ ok (by_id n, rest)
    ])
    else ok (selected, args)

abbrev pub some_edits : BookIndex → List ColumnEdit → Result (BookIndex × List ColumnEdit)
some_edits index [] = err insufficient_arguments
some_edits index (e ∷ es) = ok (index, e ∷ es)

unfoldable pub read_edits : List Text → List Group → Result (BookIndex × List ColumnEdit)
unfolding read_edit_index read_replacements read_edit_groups
read_edits start gs = do
  (index, args) ← read_edit_index start
  pairs ← read_replacements args
  more ← read_edit_groups gs
  some_edits index (pairs ++ more)

abbrev pub Sort : Type 0
Sort = ColumnIdentifier × ColumnOrder

abbrev pub ascending_by : Text → Sort
ascending_by s = (from_text s, ascending)

unfoldable pub read_sort_groups : List Group → Result (List Sort)
unfolding text_eq from_text
read_sort_groups [] = ok []
read_sort_groups ((flag, args) ∷ gs) =
    let later = read_sort_groups gs in
    if text_eq flag (codes "-d")
    then (next_arg args >>= λ (col, rest).
        later >>= λ more. ok ((from_text col, descending) ∷ map ascending_by rest ++ more))
    else err unknown_flag

abbrev pub some_sorts : List Sort → Result (List Sort)
some_sorts [] = err insufficient_arguments
some_sorts (s ∷ ss) = ok (s ∷ ss)

unfoldable pub read_sorts : List Text → List Group → Result (List Sort)
unfolding read_sort_groups
read_sorts start gs = do sorts ← read_sort_groups gs; some_sorts (map ascending_by start ++ sorts)

-- `strip_prefix('-').expect(…)`
abbrev pub strip_dash : Text → Result Text
strip_dash [] = panic
strip_dash (c ∷ s) = if is_flag (c ∷ s) then ok s else panic

unfoldable pub read_column_groups : List Group → Result (List ModifyColumn)
read_column_groups [] = ok []
read_column_groups ((flag, args) ∷ gs) = do
  name ← strip_dash flag
  more ← read_column_groups gs
  ok (remove_column name ∷ map add_column args ++ more)

unfoldable pub read_columns : List Text → List Group → Result (List ModifyColumn)
unfolding read_column_groups
read_columns start gs = do changes ← read_column_groups gs; ok (map add_column start ++ changes)
