-- ===== src/App/Parser/Commands/Safe.antt =====
-- Where the readers of bookworm-app/src/parser.rs cannot panic.
use bookworm.Base.{
  ◌≡◌, sym, subst, true, List, [], ◌∷◌, ◌++◌, map, Text, codes, text_eq, if◌then◌else◌, All, arith,
  starts_with,
}
use bookworm.Input.Edit.{Edit, replace, append}
use bookworm.App.Command.{
  Result, ok, err, ◌>>=◌, IsSafe, IsSafe-bind, Command, delete_matching, filter_matches, jump_to,
  add_books, update_books, modify_columns, sort_columns, unknown_flag, BookIndex,
}
use bookworm.Records.Column.{ColumnIdentifier, from_text}
use bookworm.App.Parser.Args.{Group, is_flag, read_args}
use bookworm.App.Parser.Args.Split.{IsGroup, flat, read_args-flat}
use bookworm.App.Parser.Matches.{read_matches}
use bookworm.App.Parser.Matches.Safe.{IsNoQuote, AllArgs, read_matches-IsSafe}
use bookworm.App.Parser.Sources.Pending.{read_sources-IsSafe, read_update_sources_eq}
use bookworm.App.Parser.Sources.{read_sources}
use bookworm.App.Parser.Edits.{
  read_edits, read_edit_index, read_replacements, read_edit_groups, read_first_edit, read_valued,
  some_edits, read_sorts, read_sort_groups, some_sorts, ColumnEdit, Sort, ascending_by,
  read_columns, read_column_groups, strip_dash,
}
use bookworm.App.Parser.Commands.{
  CommandRoot, root_delete, root_edit, root_add_books, root_modify_columns, root_sort_columns,
  root_open_book, root_merge_books, root_quit, root_write, root_write_quit, root_find_matches,
  root_jump_to, root_help, root_update, into_command, parse_args, read_root, read_delete,
  read_merge, Opening, open_flag, open_groups, opening, read_open,
}

-- A result that is passed on under a constructor.
passed_on {ℓ} :
    {A : Type ℓ} (m : Result A) (f : A → Command) → IsSafe m → IsSafe (m >>= λ a. ok (f a))
passed_on m f h = IsSafe-bind m _ h (λ a e. tt)

read_delete-IsSafe :
    (start : List Text) (gs : List Group)
    → All IsNoQuote start
    → AllArgs IsNoQuote gs
    → IsSafe (read_delete start gs)
unfolding read_delete
read_delete-IsSafe [] [] h k =
    passed_on (read_matches [] []) delete_matching (read_matches-IsSafe [] [] tt tt)
read_delete-IsSafe (w ∷ ws) [] h k = tt
read_delete-IsSafe start ((flag, args) ∷ gs) h k = ground (
  arith,
  passed_on (read_matches start ((flag, args) ∷ gs)) delete_matching
      (read_matches-IsSafe start ((flag, args) ∷ gs) h k),
)

read_merge-IsSafe : (start : List Text) (gs : List Group) → IsSafe (read_merge start gs)
unfolding read_merge
read_merge-IsSafe start gs = ground arith

open_groups-IsSafe : (gs : List Group) (o : Opening) → IsSafe (open_groups gs o)
unfolding open_groups
open_groups-IsSafe [] o = tt
open_groups-IsSafe ((flag, args) ∷ gs) o =
    IsSafe-bind (if text_eq flag (codes "-f") then open_flag args o else err unknown_flag)
      (open_groups gs) (ground arith) (λ o' e. open_groups-IsSafe gs o')

read_open-IsSafe : (start : List Text) (gs : List Group) → IsSafe (read_open start gs)
unfolding read_open
read_open-IsSafe start gs =
    passed_on (open_groups gs (opening start)) _ (open_groups-IsSafe gs (opening start))

strip_dash-IsSafe : (flag : Text) → is_flag flag ≡ true → IsSafe (strip_dash flag)
unfolding starts_with
strip_dash-IsSafe [] h = cc
strip_dash-IsSafe (c ∷ s) h = rw h tt

read_column_groups-IsSafe : (gs : List Group) → All IsGroup gs → IsSafe (read_column_groups gs)
unfolding read_column_groups
read_column_groups-IsSafe [] h = tt
read_column_groups-IsSafe ((flag, args) ∷ gs) h =
    IsSafe-bind (strip_dash flag) _ (strip_dash-IsSafe flag h.0.0) (λ name e.
      IsSafe-bind (read_column_groups gs) _ (read_column_groups-IsSafe gs h.1) (λ more e'. tt))

read_columns-IsSafe :
    (start : List Text) (gs : List Group) → All IsGroup gs → IsSafe (read_columns start gs)
unfolding read_columns
read_columns-IsSafe start gs h =
    IsSafe-bind (read_column_groups gs) _ (read_column_groups-IsSafe gs h) (λ changes e. tt)

read_replacements-IsSafe : (args : List Text) → IsSafe (read_replacements args)
unfolding read_replacements
read_replacements-IsSafe [] = tt
read_replacements-IsSafe (col ∷ []) = tt
read_replacements-IsSafe (col ∷ (value ∷ rest)) =
    IsSafe-bind (read_replacements rest) _ (read_replacements-IsSafe rest) (λ more e. tt)

read_valued-IsSafe :
    (edit : Text → Edit) (column : ColumnIdentifier) (args : List Text)
    → IsSafe (read_valued edit column args)
unfolding read_valued
read_valued-IsSafe edit column args = ground arith

read_first_edit-IsSafe : (g : Group) → IsSafe (read_first_edit g)
unfolding read_first_edit
read_first_edit-IsSafe (flag, []) = ground arith
read_first_edit-IsSafe (flag, col ∷ args) = ground (
  arith,
  read_valued-IsSafe append (from_text col) args,
  read_valued-IsSafe replace (from_text col) args,
)

read_edit_groups-IsSafe : (gs : List Group) → IsSafe (read_edit_groups gs)
unfolding read_edit_groups
read_edit_groups-IsSafe [] = tt
read_edit_groups-IsSafe (g ∷ gs) =
    IsSafe-bind (read_first_edit g) _ (read_first_edit-IsSafe g) (λ (edit, rest) e.
      IsSafe-bind (read_replacements rest) _ (read_replacements-IsSafe rest) (λ pairs e'.
        IsSafe-bind (read_edit_groups gs) _ (read_edit_groups-IsSafe gs) (λ more e''. tt)))

read_edit_index-IsSafe : (args : List Text) → IsSafe (read_edit_index args)
unfolding read_edit_index
read_edit_index-IsSafe args = ground arith

some_edits-IsSafe : (index : BookIndex) (es : List ColumnEdit) → IsSafe (some_edits index es)
some_edits-IsSafe index [] = tt
some_edits-IsSafe index (e ∷ es) = tt

read_edits-IsSafe : (start : List Text) (gs : List Group) → IsSafe (read_edits start gs)
unfolding read_edits
read_edits-IsSafe start gs =
    IsSafe-bind (read_edit_index start) _ (read_edit_index-IsSafe start) (λ (index, args) e.
      IsSafe-bind (read_replacements args) _ (read_replacements-IsSafe args) (λ pairs e'.
        IsSafe-bind (read_edit_groups gs) _ (read_edit_groups-IsSafe gs)
          (λ more e''. some_edits-IsSafe index (pairs ++ more))))

read_sort_groups-IsSafe : (gs : List Group) → IsSafe (read_sort_groups gs)
unfolding read_sort_groups
read_sort_groups-IsSafe [] = tt
read_sort_groups-IsSafe ((flag, args) ∷ gs) = ground (arith, read_sort_groups-IsSafe gs)

some_sorts-IsSafe : (ss : List Sort) → IsSafe (some_sorts ss)
some_sorts-IsSafe [] = tt
some_sorts-IsSafe (s ∷ ss) = tt

read_sorts-IsSafe : (start : List Text) (gs : List Group) → IsSafe (read_sorts start gs)
unfolding read_sorts
read_sorts-IsSafe start gs =
    IsSafe-bind (read_sort_groups gs) _ (read_sort_groups-IsSafe gs)
      (λ sorts e. some_sorts-IsSafe (map ascending_by start ++ sorts))

module _ (start : List Text) (gs : List Group) (h : All IsNoQuote start) (k : AllArgs IsNoQuote gs)
    (g : All IsGroup gs) where
  into_command-IsSafe : (root : CommandRoot) → IsSafe (into_command root start gs)
  unfolding into_command
  into_command-IsSafe root_delete = read_delete-IsSafe start gs h k
  into_command-IsSafe root_edit =
      IsSafe-bind (read_edits start gs) _ (read_edits-IsSafe start gs) (λ (index, edits) e. tt)
  into_command-IsSafe root_add_books =
      passed_on (read_sources start gs) add_books (read_sources-IsSafe start gs)
  into_command-IsSafe root_modify_columns =
      passed_on (read_columns start gs) modify_columns (read_columns-IsSafe start gs g)
  into_command-IsSafe root_sort_columns =
      passed_on (read_sorts start gs) sort_columns (read_sorts-IsSafe start gs)
  into_command-IsSafe root_open_book = read_open-IsSafe start gs
  into_command-IsSafe root_merge_books = read_merge-IsSafe start gs
  into_command-IsSafe root_find_matches =
      passed_on (read_matches start gs) filter_matches (read_matches-IsSafe start gs h k)
  into_command-IsSafe root_jump_to =
      passed_on (read_matches start gs) jump_to (read_matches-IsSafe start gs h k)
  into_command-IsSafe root_update =
      rw (read_update_sources_eq start gs)
        (passed_on (read_sources start gs) update_books (read_sources-IsSafe start gs))
  into_command-IsSafe root_quit = tt
  into_command-IsSafe root_write = tt
  into_command-IsSafe root_write_quit = tt
  into_command-IsSafe root_help = tt

All-append : (P : Text → Type 0) (xs ys : List Text) → All P (xs ++ ys) → All P xs × All P ys
All-append P [] ys h = (tt, h)
All-append P (x ∷ xs) ys h = let (a, b) = All-append P xs ys h.1 in ((h.0, a), b)

flat-AllArgs : (P : Text → Type 0) (gs : List Group) → All P (flat gs) → AllArgs P gs
flat-AllArgs P [] h = tt
flat-AllArgs P ((flag, args) ∷ gs) h =
    let (a, b) = All-append P args (flat gs) h.1 in (a, flat-AllArgs P gs b)

read_root-IsSafe : (s : Text) → IsSafe (read_root s)
unfolding read_root
read_root-IsSafe s = ground arith

-- No command line makes the parser panic, if no argument is a quote alone: neither the `expect` on
-- removed columns nor the `debug_assert!` on sources can fail, and every other line is read or
-- refused with an error.
pub parse_args-IsSafe : (args : List Text) → All IsNoQuote args → IsSafe (parse_args args)
unfolding parse_args
parse_args-IsSafe [] h = tt
parse_args-IsSafe (c ∷ args) h = IsSafe-bind (read_root c) _ (read_root-IsSafe c) (λ root e.
    let (whole, plain, grouped) = read_args-flat args in
    let (a, b) =
      All-append IsNoQuote (read_args args).0 (flat (read_args args).1)
        (subst (All IsNoQuote) (sym whole) h.1) in
    into_command-IsSafe (read_args args).0 (read_args args).1 a
      (flat-AllArgs IsNoQuote (read_args args).1 b) grouped root)
