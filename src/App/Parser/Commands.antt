-- ===== src/App/Parser/Commands.antt =====
-- The commands of bookworm-app/src/parser.rs: `parse_args`, `CommandRoot`, and the readers of `:d`,
-- `:m`, `:o` and `:h`.
pub mod Safe
pub mod Deletion
pub mod Columns
pub mod Sorts
use bookworm.Base.{
  ℕ, Bool, true, false, ◌&&◌, ◌||◌, not, Option, none, some, get_or, List, [], ◌∷◌, ◌++◌, Text,
  length, is_empty, codes, text_eq, ltb, if◌then◌else◌,
}
use bookworm.App.Command.{
  Result, ok, err, panic, ◌>>=◌, CommandError, unknown_command, insufficient_arguments,
  unknown_flag, unexpected_arguments, conflicting_arguments, BookIndex, selected, by_id, Target,
  default_app, file_manager, Command, delete_selected, delete_all, try_merge_all_books, quit, write,
  write_and_quit, general_help, delete_matching, filter_matches, jump_to, edit_book, add_books,
  update_books, modify_columns, sort_columns, open_book_in, help,
}
use bookworm.App.Parser.Args.{Group, read_args, first?, next_arg, parse_book_id, parse_usize}
use bookworm.App.Parser.Matches.{read_matches}
use bookworm.App.Parser.Sources.{read_sources, read_update_sources}
use bookworm.App.Parser.Edits.{read_edits, read_sorts, read_columns}

pub data CommandRoot : Type 0 where
  root_delete root_edit root_add_books root_modify_columns root_sort_columns : CommandRoot
  root_open_book root_merge_books root_quit root_write root_write_quit : CommandRoot
  root_find_matches root_jump_to root_help root_update : CommandRoot

-- `CommandRoot::from_str`
unfoldable pub read_root : Text → Result CommandRoot
unfolding text_eq
read_root s =
    if text_eq s (codes ":d")
    then ok root_delete
    else if text_eq s (codes ":e")
    then ok root_edit
    else if text_eq s (codes ":a")
    then ok root_add_books
    else if text_eq s (codes ":c")
    then ok root_modify_columns
    else if text_eq s (codes ":s")
    then ok root_sort_columns
    else if text_eq s (codes ":o")
    then ok root_open_book
    else if text_eq s (codes ":m")
    then ok root_merge_books
    else if text_eq s (codes ":q")
    then ok root_quit
    else if text_eq s (codes ":w")
    then ok root_write
    else if text_eq s (codes ":wq")
    then ok root_write_quit
    else if text_eq s (codes ":f")
    then ok root_find_matches
    else if text_eq s (codes ":j")
    then ok root_jump_to
    else if text_eq s (codes ":h")
    then ok root_help
    else if text_eq s (codes ":update")
    then ok root_update
    else err unknown_command

-- `Delete::from_args`: the `match` on the arguments, then the searches.
abbrev pub searched_deletion : List Text → List Group → Result Command
searched_deletion start gs = do ms ← read_matches start gs; ok (delete_matching ms)

unfoldable pub read_delete : List Text → List Group → Result Command
unfolding text_eq
read_delete start [] = if is_empty start then searched_deletion start [] else ok delete_selected
read_delete start ((flag, args) ∷ gs) =
    if is_empty start && text_eq flag (codes "-a")
    then (if not (is_empty args) || not (is_empty gs)
        then err unexpected_arguments
        else ok delete_all)
    else searched_deletion start ((flag, args) ∷ gs)

-- The groups as a `HashMap`, of which a later group with the same flag replaces an earlier one:
-- what `remove` of a flag finds, and whether anything is left.
unfoldable pub find_flag : Text → List Group → Option (List Text)
find_flag k [] = none
find_flag k ((flag, args) ∷ gs) = elim (find_flag k gs) [
  | some later ↦ some later
  | none ↦ if text_eq flag k then some args else none
]

unfoldable pub only_flag : Text → List Group → Bool
only_flag k [] = true
only_flag k ((flag, args) ∷ gs) = text_eq flag k && only_flag k gs

unfoldable pub read_merge : List Text → List Group → Result Command
unfolding find_flag only_flag text_eq
read_merge start gs =
    if is_empty start
    then elim (find_flag (codes "-a") gs) [
      | none ↦ err conflicting_arguments
      | some args ↦
          if not (is_empty args) || not (only_flag (codes "-a") gs)
          then err unexpected_arguments
          else ok try_merge_all_books
    ]
    else err conflicting_arguments

abbrev pub index_or_selected : Text → BookIndex
index_or_selected s = elim (parse_book_id s) [ none ↦ selected | some n ↦ by_id n ]

abbrev pub variant_of : Text → ℕ
variant_of s = get_or (parse_usize s) 0

-- The variables of the loop of `OpenBook::from_args`.
pub record Opening : Type 0 where
  pub target : Target
  pub book_index : BookIndex
  pub variant_index : ℕ

-- The arguments behind `-f`.
unfoldable pub open_flag : List Text → Opening → Result Opening
unfolding parse_book_id parse_usize
open_flag [] o = ok (record o { target = file_manager })
open_flag (ind_book ∷ args) o = elim o.book_index [
  | by_id _ ↦ err conflicting_arguments
  | selected ↦ elim (parse_book_id ind_book) [
    | none ↦ ok (record o { target = file_manager })
    | some n ↦ ok (record {
      target = file_manager;
      book_index = by_id n;
      variant_index = elim (first? args) [ none ↦ 0 | some v ↦ variant_of v ];
    })
  ]
]

unfoldable pub open_groups : List Group → Opening → Result Opening
unfolding text_eq open_flag
open_groups [] o = ok o
open_groups ((flag, args) ∷ gs) o =
    (if text_eq flag (codes "-f") then open_flag args o else err unknown_flag) >>= open_groups gs

abbrev pub opening : List Text → Opening
opening [] = record { target = default_app; book_index = selected; variant_index = 0 }
opening (l ∷ []) = record {
  target = default_app;
  book_index = index_or_selected l;
  variant_index = 0;
}
opening (l ∷ (i ∷ _)) = record {
  target = default_app;
  book_index = index_or_selected l;
  variant_index = variant_of i;
}

unfoldable pub read_open : List Text → List Group → Result Command
unfolding open_groups parse_book_id parse_usize
read_open start gs = do
  o ← open_groups gs (opening start)
  ok (open_book_in o.book_index o.variant_index o.target)

unfoldable pub read_help : List Text → Command
read_help [] = general_help
read_help (term ∷ _) = help term

-- `into_command`
unfoldable pub into_command : CommandRoot → List Text → List Group → Result Command
into_command root_delete start gs = read_delete start gs
into_command root_edit start gs = do
  (index, edits) ← read_edits start gs
  ok (edit_book index edits)
into_command root_add_books start gs = do sources ← read_sources start gs; ok (add_books sources)
into_command root_modify_columns start gs = do
  columns ← read_columns start gs
  ok (modify_columns columns)
into_command root_sort_columns start gs = do sorts ← read_sorts start gs; ok (sort_columns sorts)
into_command root_open_book start gs = read_open start gs
into_command root_merge_books start gs = read_merge start gs
into_command root_quit start gs = ok quit
into_command root_write start gs = ok write
into_command root_write_quit start gs = ok write_and_quit
into_command root_find_matches start gs = do ms ← read_matches start gs; ok (filter_matches ms)
into_command root_jump_to start gs = do ms ← read_matches start gs; ok (jump_to ms)
into_command root_help start gs = ok (read_help start)
into_command root_update start gs = do
  sources ← read_update_sources start gs
  ok (update_books sources)

unfoldable pub parse_args : List Text → Result Command
parse_args [] = err insufficient_arguments
parse_args (c ∷ args) = do
  root ← read_root c
  let (start, gs) = read_args args
  into_command root start gs
