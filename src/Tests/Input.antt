-- ===== src/Tests/Input.antt =====
-- bookworm-input: the theorems at concrete inputs, and tests of the definitions.
use bookworm.Base.{
  ℕ, ◌≡◌, refl, true, false, Option, none, some, List, [], ◌∷◌, ◌++◌, codes, ◌>>=◌, arith, nat_eq,
  ltb, byte_len,
}
use bookworm.Input.Cursor.{
  CursoredText, right, unselected, step, key_up, key_left, key_shift_right, push, do_push, clear,
}
use bookworm.Input.Cursor.Span.{to_span, span_step}
use bookworm.Input.Cursor.Refines.{Ends, step-span_step}
use bookworm.Input.Cursor.Chunks.{Cuts, char_chunks, char_chunks-Cuts}
use bookworm.Input.Recorder.{InputRecorder, apply_to, add}
use bookworm.Input.Recorder.Replay.{
  Returns, Returns-apply_to, apply_to_panics, key_shift_right-apply_to,
}
use bookworm.Input.Recorder.Replayed.{Tracks}
use bookworm.Input.Recorder.Tracking.{Records, call-Tracks}
use bookworm.Input.Autocomplete.{RingFilter, next_item_by}
use bookworm.Input.Autocomplete.Ring.{queue, advance, next_item_by-advance}
use bookworm.Input.Words.{Value, words, vals_to_string}
use bookworm.Input.Words.Fuel.{words_total}
use bookworm.Input.Words.RoundTrip.{words-vals_to_string}
use bookworm.Input.Words.Spaces.{words_doubled_space}
use bookworm.Input.Command.{CommandString, new, type, call as run_call}
use bookworm.Input.Command.Sound.{IsSound, Keeps, call-IsSound}

-- "kit" with "it" selected and the cursor behind it.
abbrev selected_text : CursoredText
selected_text = record { cursor = 3; selection = some (2, right); text = codes "kit" }

step-span_step_example :
    Ends (step (push 0x21) selected_text) (span_step (push 0x21) (to_span selected_text))
step-span_step_example =
    step-span_step (push 0x21) selected_text (omega arith, omega arith, omega arith)

char_chunks-Cuts_example : Cuts (char_chunks selected_text) (to_span selected_text)
char_chunks-Cuts_example = char_chunks-Cuts selected_text (omega arith, omega arith, omega arith)

Returns-apply_to_example : Returns (apply_to (key_left ∷ push 0x21 ∷ []) (codes "ab"))
Returns-apply_to_example = Returns-apply_to (key_left ∷ push 0x21 ∷ []) (codes "ab") (ground arith)

apply_to_panics_example : apply_to (key_left ∷ push 0x21 ∷ []) (0xe9 ∷ 0xe9 ∷ []) ≡ none
apply_to_panics_example = apply_to_panics (0xe9 ∷ 0xe9 ∷ []) 0x21 (unfold byte_len in omega arith)

key_shift_right-apply_to_example :
    ((step key_up (unselected 2 (codes "ab")) >>= step key_shift_right)
      ≡ some (record { cursor = 1; selection = some (1, right); text = codes "ab" }))
    × (apply_to (key_up ∷ key_shift_right ∷ []) (codes "ab") ≡ some (unselected 0 (codes "ab")))
key_shift_right-apply_to_example =
    key_shift_right-apply_to b'a' (codes "b") (unselected 2 (codes "ab")) refl

-- A recorder of one text, in which an `x` was typed over "ab".
abbrev typed : InputRecorder ℕ
typed = record {
  started_edit = true;
  events = push 0x78 ∷ [];
  cursored = (7, unselected 1 (codes "x")) ∷ [];
}

typed-Tracks : Tracks ((7, codes "ab") ∷ []) typed
unfolding apply_to step do_push clear byte_len
typed-Tracks = (refl, (refl, refl, tt))

call-Tracks_example : Records (add 8 (codes "cd")) ((7, codes "ab") ∷ []) typed
call-Tracks_example =
    call-Tracks (add 8 (codes "cd")) ((7, codes "ab") ∷ []) typed (ground arith) (ground arith)
      typed-Tracks tt

abbrev ring : RingFilter ℕ
ring = record { items = 4 ∷ 9 ∷ 6 ∷ []; index = 2 }

next_item_by-advance_example :
    ◌≡◌ {A = List ℕ × Option ℕ}
      (queue (next_item_by (λ x. ltb 5 x) ring).0, (next_item_by (λ x. ltb 5 x) ring).1)
      (advance (λ x. ltb 5 x) (queue ring))
    × ((next_item_by (λ x. ltb 5 x) ring).0.items ≡ ring.items)
next_item_by-advance_example = next_item_by-advance (λ x. ltb 5 x) ring

next_item_wraps : (next_item_by (λ x. ltb x 5) ring).1 ≡ some 4
unfolding next_item_by
next_item_wraps = refl

words_total_example : (vs : List Value) × (words (codes ":o 'a b") ≡ some vs)
words_total_example = words_total (codes ":o 'a b")

words_quoted :
    words (codes ":f title \"a b\"")
    ≡ some ((false, codes ":f") ∷ (false, codes "title") ∷ (true, codes "a b") ∷ [])
unfolding words
words_quoted = refl

abbrev two_words : List Value
two_words = (false, codes "-d") ∷ (true, codes "a b") ∷ []

words-vals_to_string_example : words (vals_to_string two_words) ≡ some two_words
words-vals_to_string_example = words-vals_to_string two_words (ground arith)

words_doubled_space_example :
    words (codes "a" ++ 0x20 ∷ (0x20 ∷ (codes "b" ++ 0x20 ∷ (0x63 ∷ vals_to_string two_words))))
    ≡ some ((false, codes "a") ∷ (false, codes "b") ∷ two_words)
words_doubled_space_example =
    words_doubled_space (codes "a") (codes "b") 0x63 two_words (ground arith) (ground arith)
      (ground arith)

-- A line with a completion that is not written back.
abbrev completed : CommandString
completed = record new {
  cursored_text = unselected 3 (codes ":a b");
  autofilled = some (codes "b c");
  open_end = false;
}

completed-IsSound : IsSound completed
completed-IsSound = record { valid = omega arith; closed = refl }

call-IsSound_example : Keeps (run_call (λ s. none) (λ ps. ps) (λ p. true) (type 0x78) completed)
call-IsSound_example =
    call-IsSound (λ s. none) (λ ps. ps) (λ p. true) (type 0x78) completed completed-IsSound
