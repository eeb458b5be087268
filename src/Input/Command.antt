-- ===== src/Input/Command.antt =====
-- `CommandString` of bookworm-input/src/user_input.rs: the command line with its completions. What
-- `glob` finds, the order of paths and `is_dir` are parameters, as in `Autocomplete`. `none` is a
-- panic, as in `Cursor`.
pub mod Sound
use bookworm.Base.{
  ℕ, Bool, true, false, ◌&&◌, not, Option, none, some, is_some, get_or, List, [], ◌∷◌, ◌++◌, Text,
  length, is_empty, starts_with, ◌==◌, if◌then◌else◌, ◌>>=◌,
}
use bookworm.Input.Cursor.{CursoredText, unselected, clear, TextEvent, backspace, del, step}
use bookworm.Input.Cursor.Chunks.{CharChunks, selected_chunks, unselected_chunks, char_chunks}
use bookworm.Input.Autocomplete.{AutoCompleter, new_completer, next_word_by, next_word}
use bookworm.Input.Words.{Value, words, vals_to_string}

pub record CommandString : Type 0 where
  pub cursored_text : CursoredText
  pub auto_fill : Option AutoCompleter
  pub autofilled : Option Text
  pub open_end : Bool
  pub keep_last : Bool

abbrev pub new : CommandString
new = record {
  cursored_text = unselected 0 [];
  auto_fill = none;
  autofilled = none;
  open_end = true;
  keep_last = false;
}

-- All words of a text. The fuel of `words` never runs out.
unfoldable pub values : Text → List Value
unfolding words
values s = get_or (words s) []

-- `Vec::pop` and `last`, and `contains(' ')`
abbrev pub pop {ℓ} : {A : Type ℓ} → List A → List A
pop [] = []
pop (x ∷ []) = []
pop (x ∷ (y ∷ xs)) = x ∷ pop (y ∷ xs)

abbrev pub last? {ℓ} : {A : Type ℓ} → List A → Option A
last? [] = none
last? (x ∷ []) = some x
last? (x ∷ (y ∷ xs)) = last? (y ∷ xs)

abbrev pub has_char : ℕ → Text → Bool
has_char c [] = false
has_char c (d ∷ s) = if d == c then true else has_char c s

abbrev pub ends_with : ℕ → Text → Bool
ends_with c s = elim (last? s) [ none ↦ false | some d ↦ d == c ]

unfoldable pub autofilled_values : CommandString → List Value
unfolding values
autofilled_values c =
    let vs = values c.cursored_text.text in
    elim c.autofilled [
      | none ↦ vs
      | some s ↦ (if c.keep_last then vs else pop vs) ++ (has_char 0x20 s, s) ∷ []
    ]

unfoldable pub write_back : CommandString → CommandString
unfolding autofilled_values vals_to_string
write_back c =
    let s = vals_to_string (autofilled_values c) in
    if is_some c.autofilled
    then record c { cursored_text = unselected (length s) s; autofilled = none }
    else c

-- `push`, where the event is the character, and `backspace` and `del`, which open the end.
unfoldable pub type_char : ℕ → CommandString → Option CommandString
unfolding write_back step
type_char ch c =
    let w = write_back c in
    step (TextEvent.push ch) w.cursored_text >>= λ t.
    some (record w { cursored_text = t; auto_fill = none })

unfoldable pub remove_char : TextEvent → CommandString → Option CommandString
unfolding write_back step
remove_char e c =
    let w = write_back c in
    step e w.cursored_text >>= λ t.
    some (record w { cursored_text = t; auto_fill = none; open_end = true })

-- The arrow keys, `select_all` and `deselect`.
unfoldable pub move_cursor : TextEvent → CommandString → Option CommandString
unfolding step
move_cursor e c = step e c.cursored_text >>= λ t. some (record c { cursored_text = t })

unfoldable pub clear_all : CommandString → CommandString
unfolding clear
clear_all c = record c {
  cursored_text = clear c.cursored_text;
  auto_fill = none;
  autofilled = none;
}

-- `is_empty`
unfoldable pub is_blank : CommandString → Bool
is_blank c = is_empty c.cursored_text.text && not (is_some c.autofilled)

-- `to_string` of `Display`
unfoldable pub to_string : CommandString → Text
unfolding autofilled_values vals_to_string
to_string c =
    let s = vals_to_string (autofilled_values c) in
    if is_some c.autofilled
    then (if c.open_end && ends_with 0x22 s then pop s else s)
    else c.cursored_text.text

-- `char_chunks`: a completion that is not written back is shown where nothing is selected.
unfoldable pub command_chunks : CommandString → Option CharChunks
unfolding char_chunks autofilled_values vals_to_string
command_chunks c =
    if is_some c.cursored_text.selection
    then char_chunks c.cursored_text
    else if is_some c.autofilled
    then some (unselected_chunks (vals_to_string (autofilled_values c)) [])
    else char_chunks c.cursored_text

-- The word to complete, and whether the last word is kept before it.
unfoldable pub completed_word : Text → Bool → Text × Bool
unfolding values starts_with
completed_word s keep_last = elim (last? (values s)) [
  | some (escaped, word) ↦
      if not escaped && starts_with b'-' word && ends_with 0x20 s then ([], true) else (word, false)
  | none ↦ ([], keep_last)
]

-- The public methods that change the line; an event names its method.
pub data Call : Type 0 where
  type : ℕ → Call
  remove move : TextEvent → Call
  clear_line refresh : Call
  complete : Bool → Call

module _ (glob : Text → Option (List (Option Text))) (sort : List Text → List Text)
    (is_dir : Text → Bool) where
  -- `refresh_autofill`, with `false` for the error of a pattern that `glob` refuses.
  unfoldable pub refresh_autofill : CommandString → CommandString × Bool
  unfolding completed_word new_completer
  refresh_autofill c =
      let (word, keep) = completed_word c.cursored_text.text c.keep_last in
      if is_some c.auto_fill then (c, true) else elim (new_completer glob sort word) [
        | none ↦ (record c { keep_last = keep }, false)
        | some a ↦ (record c { auto_fill = some a; keep_last = keep }, true)
      ]

  -- The method `auto_fill`.
  unfoldable pub fill : Bool → CommandString → CommandString
  unfolding next_word_by next_word
  fill dir c = if is_some c.cursored_text.selection then c else elim c.auto_fill [
    | none ↦ record c { open_end = false }
    | some a ↦
        let (a', path) = (if dir then next_word_by is_dir a else next_word a) in
        record c {
          auto_fill = some a';
          open_end = false;
          autofilled = elim path [ none ↦ c.autofilled | some p ↦ some p ];
        }
  ]

  unfoldable pub call : Call → CommandString → Option CommandString
  unfolding type_char remove_char move_cursor clear_all refresh_autofill fill
  call (type ch) c = type_char ch c
  call (remove e) c = remove_char e c
  call (move e) c = move_cursor e c
  call clear_line c = some (clear_all c)
  call refresh c = some (refresh_autofill c).0
  call (complete dir) c = some (fill dir c)
