-- ===== src/Input/Cursor/Span.antt =====
-- The promise of `CursoredText` (bookworm-input/src/user_input.rs): a text with two positions, the
-- anchor and the cursor, with the text between them selected.
use bookworm.Base.{
  ℕ, ◌+◌, ◌-◌, min, max, [], ◌∷◌, ◌++◌, Text, length, take, drop, none, some, ◌==◌, if◌then◌else◌,
}
use bookworm.Input.Cursor.{
  left, right, Selected, CursoredText, TextEvent, select_all, deselect, key_up, key_shift_up,
  key_down, key_shift_down, key_left, key_shift_left, key_right, key_shift_right, del, backspace,
  push,
}

pub record Span : Type 0 where
  pub anchor : ℕ
  pub cursor : ℕ
  pub text : Text

abbrev pub span : ℕ → ℕ → Text → Span
span a c s = record { anchor = a; cursor = c; text = s }

-- The end of the selection that does not move.
abbrev pub anchor_of : ℕ → Selected → ℕ
anchor_of c none = c
anchor_of c (some (x, left)) = c + x
anchor_of c (some (x, right)) = c - x

unfoldable pub to_span : CursoredText → Span
to_span t = span (anchor_of t.cursor t.selection) t.cursor t.text

-- The text between two positions is replaced.
abbrev pub splice : ℕ → ℕ → Text → Text → Text
splice a b mid s = take a s ++ (mid ++ drop b s)

-- The text from `a` to `b` is replaced, and the cursor put behind what replaces it.
abbrev pub replace : ℕ → ℕ → Text → Span → Span
replace a b mid p = span (a + length mid) (a + length mid) (splice a b mid p.text)

abbrev pub low : Span → ℕ
low p = min p.anchor p.cursor

abbrev pub high : Span → ℕ
high p = max p.anchor p.cursor

-- Each key in terms of the two positions: with shift the cursor moves alone; an arrow goes to the
-- near end of a selection, or one step; editing replaces what is selected.
unfoldable pub span_step : TextEvent → Span → Span
span_step select_all p = span 0 (length p.text) p.text
span_step deselect p = span (length p.text) (length p.text) p.text
span_step key_up p = span 0 0 p.text
span_step key_shift_up p = record p { cursor = 0 }
span_step key_down p = span (length p.text) (length p.text) p.text
span_step key_shift_down p = record p { cursor = length p.text }
span_step key_left p =
    let c = if p.anchor == p.cursor then p.cursor - 1 else low p in span c c p.text
span_step key_shift_left p = record p { cursor = p.cursor - 1 }
span_step key_right p =
    let c = if p.anchor == p.cursor then min (p.cursor + 1) (length p.text) else high p in
    span c c p.text
span_step key_shift_right p = record p { cursor = min (p.cursor + 1) (length p.text) }
span_step del p =
    if p.anchor == p.cursor
    then replace p.cursor (p.cursor + 1) [] p
    else replace (low p) (high p) [] p
span_step backspace p =
    if p.anchor == p.cursor
    then replace (p.cursor - 1) p.cursor [] p
    else replace (low p) (high p) [] p
span_step (push c) p = replace (low p) (high p) (c ∷ []) p
