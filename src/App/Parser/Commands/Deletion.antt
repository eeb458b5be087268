-- ===== src/App/Parser/Commands/Deletion.antt =====
-- Two lines that bookworm-app/src/parser.rs reads otherwise than it means to: `:d` with words, and
-- a search for a quote.
use bookworm.Base.{◌≡◌, refl, List, [], ◌∷◌, Text, codes, starts_with, All}
use mathlib.Core.List.{append-nil}
use bookworm.App.Command.{ok, err, panic, insufficient_arguments, delete_selected}
use bookworm.App.Parser.Args.{Group, read_args, remove_string_quotes}
use bookworm.App.Parser.Matches.{read_matches, read_pairs, read_match_groups, make_search}
use bookworm.App.Parser.Args.Split.{IsArg, read_args-append_flat}
use bookworm.App.Parser.Commands.{
  root_delete, root_find_matches, read_root, read_delete, into_command, parse_args,
}

read_args_plain : (ws : List Text) → All IsArg ws → read_args ws ≡ (ws, [])
read_args_plain ws h = rw append-nil at (read_args-append_flat ws [] h tt)

read_words :
    (w : Text) (ws : List Text) (p : List Text × List Group)
    → p ≡ (w ∷ ws, [])
    → into_command root_delete p.0 p.1 ≡ ok delete_selected
unfolding into_command read_delete
read_words w ws p e = rw e

parse_args_words :
    (w : Text) (ws : List Text)
    → All IsArg (w ∷ ws)
    → parse_args (codes ":d" ∷ w ∷ ws) ≡ ok delete_selected
unfolding parse_args read_root
parse_args_words w ws h = read_words w ws (read_args (w ∷ ws)) (read_args_plain (w ∷ ws) h)

-- `:d` with words behind it, none of them a flag, reads the deletion of the selected books,
-- whatever the words are, and `:d` alone is refused for want of arguments.
parse_args_delete :
    (w : Text) (ws : List Text)
    → All IsArg (w ∷ ws)
    → (parse_args (codes ":d" ∷ w ∷ ws) ≡ ok delete_selected)
      × (parse_args (codes ":d" ∷ []) ≡ err insufficient_arguments)
unfolding parse_args read_root into_command read_delete read_args read_matches read_pairs
    read_match_groups
parse_args_delete w ws h = (parse_args_words w ws h, refl)

read_quote :
    (col : Text) (p : List Text × List Group)
    → p ≡ (col ∷ (0x22 ∷ []) ∷ [], [])
    → into_command root_find_matches p.0 p.1 ≡ panic
unfolding into_command read_matches read_pairs make_search remove_string_quotes
read_quote col p e = rw e

-- A search for a double quote alone panics, whatever the column: the quote is taken for both ends
-- of a quoted text.
pub parse_args_quote :
    (col : Text) → IsArg col → parse_args (codes ":f" ∷ col ∷ (0x22 ∷ []) ∷ []) ≡ panic
unfolding parse_args read_root
parse_args_quote col h =
    read_quote col (read_args (col ∷ (0x22 ∷ []) ∷ []))
      (read_args_plain (col ∷ (0x22 ∷ []) ∷ []) (h, (unfold starts_with in refl, tt)))
