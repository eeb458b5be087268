-- ===== src/Input/Recorder/Replay.antt =====
-- Replaying recorded events, `EventBuffer::apply_to` of bookworm-input/src/user_input.rs.
use bookworm.Base.{
  ℕ, ◌+◌, ◌≤◌, ◌≡◌, refl, sym, ap, ◌∙◌, bind-bind, Bool, true, false, not, Option, none, some, List,
  [], ◌∷◌, ◌++◌, map, Text, length, byte_len, byte_len_ascii, IsAscii, is_empty, drop_past, ◌>>=◌,
  arith,
}
use mathlib.Core.Path.{fun_ext}
use bookworm.Input.Cursor.{
  CursoredText, unselected, clear, step, IsValid, TextEvent, select_all, deselect, key_up,
  key_shift_up, key_down, key_shift_down, key_left, key_shift_left, key_right, key_shift_right, del,
  backspace, push, right,
}
use bookworm.Input.Cursor.Refines.{step-span_step, Ends}
use bookworm.Input.Cursor.Span.{span_step, to_span}
use bookworm.Input.Recorder.{replay_event, replay, apply_to, push_all}

-- An operation returns a valid state.
abbrev pub Returns : Option CursoredText → Type 0
Returns none = ⊥
Returns (some t) = IsValid t

pub Returns-step : (e : TextEvent) (t : CursoredText) → IsValid t → Returns (step e t)
Returns-step e t h = of_ends (step e t) (step-span_step e t h)
  where
    of_ends : (o : Option CursoredText) → Ends o (span_step e (to_span t)) → Returns o
    of_ends none p = p
    of_ends (some t') p = p.0

clear-IsValid : (t : CursoredText) → IsValid (clear t)
unfolding clear
clear-IsValid t = omega arith

Returns-replay_event :
    (started : Bool) (e : TextEvent) (t : CursoredText)
    → IsValid t
    → Returns (replay_event started e t)
unfolding replay_event
Returns-replay_event started key_shift_right t h = Returns-step key_shift_left t h
Returns-replay_event true del t h = Returns-step del t h
Returns-replay_event false del t h = clear-IsValid t
Returns-replay_event true backspace t h = Returns-step backspace t h
Returns-replay_event false backspace t h = clear-IsValid t
Returns-replay_event true (push c) t h = Returns-step (push c) t h
Returns-replay_event false (push c) t h = Returns-step (push c) (clear t) (clear-IsValid t)
Returns-replay_event started select_all t h = Returns-step select_all t h
Returns-replay_event started deselect t h = Returns-step deselect t h
Returns-replay_event started key_up t h = Returns-step key_up t h
Returns-replay_event started key_shift_up t h = Returns-step key_shift_up t h
Returns-replay_event started key_down t h = Returns-step key_down t h
Returns-replay_event started key_shift_down t h = Returns-step key_shift_down t h
Returns-replay_event started key_left t h = Returns-step key_left t h
Returns-replay_event started key_shift_left t h = Returns-step key_shift_left t h
Returns-replay_event started key_right t h = Returns-step key_right t h

Returns-bind :
    (o : Option CursoredText) (f : CursoredText → Option CursoredText)
    → Returns o
    → ((t : CursoredText) → IsValid t → Returns (f t))
    → Returns (o >>= f)
Returns-bind none f h k = h
Returns-bind (some t) f h k = k t h

pub Returns-replay :
    (started : Bool) (es : List TextEvent) (t : CursoredText)
    → IsValid t
    → Returns (replay started es t)
unfolding replay
Returns-replay started [] t h = h
Returns-replay started (e ∷ es) t h =
    Returns-bind (replay_event started e t) (replay true es) (Returns-replay_event started e t h)
      (Returns-replay true es)

-- On an ASCII text no sequence of events panics, and the result is a valid state.
pub Returns-apply_to : (es : List TextEvent) (s : Text) → IsAscii s → Returns (apply_to es s)
unfolding apply_to
Returns-apply_to es s h =
    Returns-replay false es (unselected (byte_len s) s) (omega (arith, byte_len_ascii s h))

-- Where a text has two bytes more than characters, as one with two accented letters has, the
-- left key and a character after it panic: the cursor starts behind the end of the text.
pub apply_to_panics :
    (s : Text) (c : ℕ) → length s + 2 ≤ byte_len s → apply_to (key_left ∷ push c ∷ []) s ≡ none
unfolding apply_to step
apply_to_panics s c h = ground arith

-- The right key with shift is replayed as the left one: after `key_up` it selects the first
-- character when it is pressed, and nothing when it is replayed.
pub key_shift_right-apply_to :
    (c : ℕ) (s : Text) (t : CursoredText)
    → t.text ≡ c ∷ s
    → ((step key_up t >>= step key_shift_right)
        ≡ some (record { cursor = 1; selection = some (1, right); text = c ∷ s }))
      × (apply_to (key_up ∷ key_shift_right ∷ []) (c ∷ s) ≡ some (unselected 0 (c ∷ s)))
unfolding step apply_to
key_shift_right-apply_to c s t e = (ground arith, ground arith)

replay-append_started :
    (es fs : List TextEvent) (t : CursoredText)
    → replay true (es ++ fs) t ≡ (replay true es t >>= replay true fs)
unfolding replay
replay-append_started [] fs t = refl
replay-append_started (e ∷ es) fs t =
    ap (λ k. replay_event true e t >>= k) (fun_ext (replay-append_started es fs))
    ∙ sym (bind-bind (replay_event true e t) (replay true es) (replay true fs))

-- Replaying in two parts: the flag is set as soon as one event was replayed.
pub replay-append :
    (es fs : List TextEvent) (t : CursoredText)
    → replay false (es ++ fs) t ≡ (replay false es t >>= replay (not (is_empty es)) fs)
unfolding replay
replay-append [] fs t = refl
replay-append (e ∷ es) fs t =
    ap (λ k. replay_event false e t >>= k) (fun_ext (replay-append_started es fs))
    ∙ sym (bind-bind (replay_event false e t) (replay true es) (replay true fs))

pub replay-push : (s : Text) (t : CursoredText) → replay true (map push s) t ≡ push_all s t
unfolding replay push_all
replay-push [] t = refl
replay-push (c ∷ s) t = ap (λ k. step (push c) t >>= k) (fun_ext (replay-push s))

-- The two events that `clear` records.
pub replay-clear :
    (started : Bool) (t : CursoredText)
    → replay started (select_all ∷ backspace ∷ []) t ≡ some (clear t)
unfolding replay step clear
replay-clear started t = ground (arith, drop_past (length t.text) t.text)
