-- ===== src/Input/Cursor.antt =====
-- `CursoredText` of bookworm-input/src/user_input.rs. The result `none` is a panic of the Rust
-- code: an index out of range of `drain`, `insert` or `remove`, or a subtraction below zero (the
-- panic of a build with overflow checks).
pub mod Span
pub mod Refines
pub mod Chunks
use bookworm.Base.{
  ℕ, suc, ◌+◌, ◌-◌, ◌≤◌, ◌<◌, min, Bool, ◌&&◌, Option, none, some, ◌∷◌, ◌++◌, [], Text, length,
  take, drop, ltb, leb, ◌==◌, if◌then◌else◌, ◌>>=◌,
}

pub data Direction : Type 0 where
  left right : Direction

-- The number of selected characters, never zero in the source, and the side of the selection on
-- which the cursor stands.
abbrev pub Selected : Type 0
Selected = Option (ℕ × Direction)

pub record CursoredText : Type 0 where
  pub cursor : ℕ
  pub selection : Selected
  pub text : Text

pub data TextEvent : Type 0 where
  select_all deselect : TextEvent
  key_up key_shift_up key_down key_shift_down : TextEvent
  key_left key_shift_left key_right key_shift_right : TextEvent
  del backspace : TextEvent
  push : ℕ → TextEvent

-- `NonZeroUsize::try_from(n).ok().map(|x| (x, d))`
abbrev pub sized : ℕ → Direction → Selected
sized n d = if n == 0 then none else some (n, d)

-- `a - b` on `usize`
abbrev pub checked_sub : ℕ → ℕ → Option ℕ
checked_sub a b = if ltb a b then none else some (a - b)

-- `Vec::drain`, `Vec::insert` and `Vec::remove`, with their panics.
abbrev pub drain : Text → ℕ → ℕ → Option Text
drain s a b = if leb a b && leb b (length s) then some (take a s ++ drop b s) else none

abbrev pub insert : Text → ℕ → ℕ → Option Text
insert s i c = if leb i (length s) then some (take i s ++ c ∷ drop i s) else none

abbrev pub remove : Text → ℕ → Option Text
remove s i = if ltb i (length s) then some (take i s ++ drop (i + 1) s) else none

-- The text with a cursor and nothing selected.
abbrev pub unselected : ℕ → Text → CursoredText
unselected c s = record { cursor = c; selection = none; text = s }

pub do_select_all : CursoredText → CursoredText
do_select_all t = record t { cursor = length t.text; selection = sized (length t.text) right }

pub do_deselect : CursoredText → CursoredText
do_deselect t = unselected (length t.text) t.text

pub do_key_up : CursoredText → CursoredText
do_key_up t = unselected 0 t.text

pub do_key_shift_up : CursoredText → Option CursoredText
do_key_shift_up t = if t.cursor == 0 then some t else elim t.selection [
  | some (x, left) ↦ some (record t { cursor = 0; selection = sized (t.cursor + x) left })
  | some (x, right) ↦
      checked_sub t.cursor x >>= λ mid. some (record t { cursor = 0; selection = sized mid left })
  | none ↦ some (record t { cursor = 0; selection = sized t.cursor left })
]

pub do_key_down : CursoredText → CursoredText
do_key_down t = unselected (length t.text) t.text

pub do_key_shift_down : CursoredText → Option CursoredText
do_key_shift_down t =
    let len = length t.text in
    if t.cursor == len then some t else elim t.selection [
      | some (x, left) ↦
          some (record t { cursor = len; selection = sized (len - (t.cursor + x)) right })
      | some (x, right) ↦ checked_sub t.cursor x >>= λ mid.
          some (record t { cursor = len; selection = sized (len - mid) right })
      | none ↦ some (record t { cursor = len; selection = sized (len - t.cursor) right })
    ]

pub do_key_left : CursoredText → Option CursoredText
do_key_left t = elim t.selection [
  | some (x, left) ↦ some (unselected t.cursor t.text)
  | some (x, right) ↦ checked_sub t.cursor x >>= λ c. some (unselected c t.text)
  | none ↦ some (unselected (t.cursor - 1) t.text)
]

pub do_key_shift_left : CursoredText → CursoredText
do_key_shift_left t = if t.cursor == 0 then t else elim t.selection [
  | some (x, left) ↦ record t { cursor = t.cursor - 1; selection = some (1 + x, left) }
  | some (x, right) ↦ record t { cursor = t.cursor - 1; selection = sized (x - 1) right }
  | none ↦ record t { cursor = t.cursor - 1; selection = some (1, left) }
]

pub do_key_right : CursoredText → CursoredText
do_key_right t = elim t.selection [
  | some (x, left) ↦ unselected (t.cursor + x) t.text
  | some (x, right) ↦ unselected t.cursor t.text
  | none ↦ unselected (min (t.cursor + 1) (length t.text)) t.text
]

pub do_key_shift_right : CursoredText → CursoredText
do_key_shift_right t = if t.cursor == length t.text then t else elim t.selection [
  | some (x, left) ↦ record t { cursor = t.cursor + 1; selection = sized (x - 1) left }
  | some (x, right) ↦ record t { cursor = t.cursor + 1; selection = some (1 + x, right) }
  | none ↦ record t { cursor = t.cursor + 1; selection = some (1, right) }
]

-- The removal of the selection, which `del` and `backspace` share.
abbrev drain_left : CursoredText → ℕ → Option CursoredText
drain_left t x = drain t.text t.cursor (t.cursor + x) >>= λ s. some (unselected t.cursor s)

abbrev drain_right : CursoredText → ℕ → Option CursoredText
drain_right t x = drain t.text (t.cursor - x) t.cursor >>= λ s. some (unselected (t.cursor - x) s)

pub do_del : CursoredText → Option CursoredText
do_del t = elim t.selection [
  | some (x, left) ↦ drain_left t x
  | some (x, right) ↦ drain_right t x
  | none ↦
      if t.cursor == length t.text
      then some (unselected t.cursor t.text)
      else remove t.text t.cursor >>= λ s. some (unselected t.cursor s)
]

pub do_backspace : CursoredText → Option CursoredText
do_backspace t = elim t.selection [
  | some (x, left) ↦ drain_left t x
  | some (x, right) ↦ drain_right t x
  | none ↦
      if t.cursor == 0
      then some (unselected t.cursor t.text)
      else remove t.text (t.cursor - 1) >>= λ s. some (unselected (t.cursor - 1) s)
]

unfoldable pub do_push : ℕ → CursoredText → Option CursoredText
do_push c t = elim t.selection [
  | some (x, left) ↦ drain t.text t.cursor (t.cursor + x) >>= λ s.
      insert s t.cursor c >>= λ s'. some (unselected (t.cursor + 1) s')
  | some (x, right) ↦ checked_sub t.cursor x >>= λ mid.
      drain t.text mid t.cursor >>= λ s. insert s mid c >>= λ s'. some (unselected (mid + 1) s')
  | none ↦ insert t.text t.cursor c >>= λ s. some (unselected (t.cursor + 1) s)
]

unfoldable pub clear : CursoredText → CursoredText
clear t = unselected 0 []

-- The method that an event names.
unfoldable pub step : TextEvent → CursoredText → Option CursoredText
unfolding do_select_all do_deselect do_key_up do_key_shift_up do_key_down do_key_shift_down
    do_key_left do_key_shift_left do_key_right do_key_shift_right do_del do_backspace do_push
step select_all t = some (do_select_all t)
step deselect t = some (do_deselect t)
step key_up t = some (do_key_up t)
step key_shift_up t = do_key_shift_up t
step key_down t = some (do_key_down t)
step key_shift_down t = do_key_shift_down t
step key_left t = do_key_left t
step key_shift_left t = some (do_key_shift_left t)
step key_right t = some (do_key_right t)
step key_shift_right t = some (do_key_shift_right t)
step del t = do_del t
step backspace t = do_backspace t
step (push c) t = do_push c t

-- What every reachable state keeps: the cursor and the other end of the selection stand within
-- the text, and a selection is not empty.
abbrev pub SelectionFits : ℕ → Selected → ℕ → Type 0
SelectionFits c none len = c ≤ len
SelectionFits c (some (x, left)) len = (0 < x) × (c + x ≤ len)
SelectionFits c (some (x, right)) len = (0 < x) × (x ≤ c) × (c ≤ len)

abbrev pub IsValid : CursoredText → Type 0
IsValid t = SelectionFits t.cursor t.selection (length t.text)
