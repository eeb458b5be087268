-- ===== src/Input/Recorder/Tracking.antt =====
-- `InputRecorder` of bookworm-input/src/user_input.rs against `EventBuffer::apply_to`: the texts
-- on screen are what replaying the recorded events gives.
use bookworm.Base.{
  insert_key, ℕ, ◌≡◌, refl, sym, ◌∙◌, true, Option, some, List, [], ◌∷◌, ◌++◌, map, Text, IsAscii,
  if◌then◌else◌, ◌>>=◌, Eq, Bool-cases, inl, inr,
}
use mathlib.Core.List.{append-nil}
use bookworm.Input.Cursor.{
  CursoredText, clear, step, TextEvent, select_all, deselect, key_up, key_shift_up, key_down,
  key_shift_down, key_left, key_shift_left, key_right, key_shift_right, del, backspace, push,
}
use bookworm.Input.Recorder.{
  replay_event, replay, apply_to, push_all, InputRecorder, for_each, Call, key, extend, erase, add,
  call,
}
use bookworm.Input.Recorder.Replay.{Returns-apply_to, replay-clear}
use bookworm.Input.Recorder.Replayed.{
  returned, is_empty-append_cons, if_apply, replay_key, replay_extend, Replayed, AllAscii, Tracks,
  IsReplayable, AddsAscii, recorded, cleared_first,
}

module _ {K : Type 0} ⦃e : Eq K⦄ where
  -- The texts that were added, each with its key.
  abbrev pub originals : Call K → List (K × Text) → List (K × Text)
  originals (add k s) os = insert_key k s os
  originals c os = os

  Replayed-insert_key :
      (es : List TextEvent) (k : K) (s : Text) (t : CursoredText) (os : List (K × Text))
      (cs : List (K × CursoredText))
      → apply_to es s ≡ some t
      → Replayed es os cs
      → Replayed es (insert_key k s os) (insert_key k t cs)
  unfolding insert_key
  Replayed-insert_key es k s t [] [] a h = (refl, a, tt)
  Replayed-insert_key es k s t [] (c ∷ cs) a h = elim h [ ]
  Replayed-insert_key es k s t (o ∷ os) [] a h = elim h [ ]
  Replayed-insert_key es k s t ((i, s') ∷ os) ((j, t') ∷ cs) a h = elim (Bool-cases (e.beq i k)) [
    | inl same ↦ rw (← h.0, same) (refl, a, h.2)
    | inr other ↦ rw (← h.0, other) (refl, h.1, Replayed-insert_key es k s t os cs a h.2)
  ]

  -- The outcome of a call: it returns a recorder that replays what it did.
  abbrev pub Records : Call K → List (K × Text) → InputRecorder K → Type 0
  Records c os r = (r' : InputRecorder K) × (call c r ≡ some r') × Tracks (originals c os) r'

  module _ (os : List (K × Text)) (r : InputRecorder K) (a : AllAscii os) (h : Tracks os r) where
    abbrev finish : List TextEvent → List (K × CursoredText) → Option (InputRecorder K)
    finish new cs = some (record { started_edit = true; events = r.events ++ new; cursored = cs })

    pushed : (c : ℕ) → Records (key (push c)) os r
    unfolding call replay_event
    pushed c = rw (cleared_first r.started_edit (step (push c)) r.cursored (finish (push c ∷ []))) (
        recorded (λ t. step (push c) (if r.started_edit then t else clear t)) (push c ∷ []) os r
          (is_empty-append_cons r.events [] (push c)) a h
          (λ t. sym (replay_key r.started_edit (push c) t)))

    extended : (c : ℕ) (s : Text) → Records (extend (c ∷ s)) os r
    unfolding call
    extended c s =
        rw (cleared_first r.started_edit (push_all (c ∷ s)) r.cursored (finish (map push (c ∷ s))))
          (recorded (λ t. push_all (c ∷ s) (if r.started_edit then t else clear t))
            (map push (c ∷ s)) os r (is_empty-append_cons r.events (map push s) (push c)) a h
            (replay_extend r.started_edit c s))

    extended_nothing : r.started_edit ≡ true → Records (extend []) os r
    unfolding call push_all replay
    extended_nothing started =
        rw (cleared_first r.started_edit (push_all []) r.cursored (finish [])) (
          recorded (λ t. push_all [] (if r.started_edit then t else clear t)) [] os r
            (rw append-nil (sym h.0 ∙ started)) a h (λ t. rw started))

    deleted : Records (key del) os r
    unfolding call replay_event
    deleted =
        recorded (if r.started_edit then step del else λ t. some (clear t)) (del ∷ []) os r
          (is_empty-append_cons r.events [] del) a h
          (λ t.
            if_apply r.started_edit (step del) (λ t'. some (clear t')) t
            ∙ sym (replay_key r.started_edit del t))

    backspaced : Records (key backspace) os r
    unfolding call replay_event
    backspaced =
        recorded (if r.started_edit then step backspace else λ t. some (clear t)) (backspace ∷ [])
          os r (is_empty-append_cons r.events [] backspace) a h
          (λ t.
            if_apply r.started_edit (step backspace) (λ t'. some (clear t')) t
            ∙ sym (replay_key r.started_edit backspace t))

    keyed :
        (e : TextEvent)
        → ((t : CursoredText) → step e t ≡ replay_event r.started_edit e t)
        → (r' : InputRecorder K) × ((for_each (step e) r.cursored >>= finish (e ∷ [])) ≡ some r')
          × Tracks os r'
    keyed e same =
        recorded (step e) (e ∷ []) os r (is_empty-append_cons r.events [] e) a h
          (λ t. same t ∙ sym (replay_key r.started_edit e t))

    erased : Records erase os r
    unfolding call
    erased =
        recorded (λ t. some (clear t)) (select_all ∷ backspace ∷ []) os r
          (is_empty-append_cons r.events (backspace ∷ []) select_all) a h
          (λ t. sym (replay-clear r.started_edit t))

    added : (k : K) (s : Text) → IsAscii s → Records (add k s) os r
    unfolding call
    added k s ascii =
        let (t, d) = returned _ (Returns-apply_to r.events s ascii) in
        (
          record r { cursored = insert_key k t r.cursored },
          rw d,
          (h.0, Replayed-insert_key r.events k s t os r.cursored d h.1),
        )

  -- Every method that is replayed as it ran succeeds on ASCII texts, and after it each text on
  -- screen is again what replaying all recorded events makes of the text that was added.
  pub call-Tracks :
      (c : Call K) (os : List (K × Text)) (r : InputRecorder K)
      → AllAscii os
      → AddsAscii c
      → Tracks os r
      → IsReplayable c r
      → Records c os r
  unfolding call replay_event
  call-Tracks (key key_shift_right) os r a _ h ok = elim ok [ ]
  call-Tracks (key (push c)) os r a _ h _ = pushed os r a h c
  call-Tracks (key del) os r a _ h _ = deleted os r a h
  call-Tracks (key backspace) os r a _ h _ = backspaced os r a h
  call-Tracks (key select_all) os r a _ h _ = keyed os r a h select_all (λ t. refl)
  call-Tracks (key deselect) os r a _ h _ = keyed os r a h deselect (λ t. refl)
  call-Tracks (key key_up) os r a _ h _ = keyed os r a h key_up (λ t. refl)
  call-Tracks (key key_shift_up) os r a _ h _ = keyed os r a h key_shift_up (λ t. refl)
  call-Tracks (key key_down) os r a _ h _ = keyed os r a h key_down (λ t. refl)
  call-Tracks (key key_shift_down) os r a _ h _ = keyed os r a h key_shift_down (λ t. refl)
  call-Tracks (key key_left) os r a _ h _ = keyed os r a h key_left (λ t. refl)
  call-Tracks (key key_shift_left) os r a _ h _ = keyed os r a h key_shift_left (λ t. refl)
  call-Tracks (key key_right) os r a _ h _ = keyed os r a h key_right (λ t. refl)
  call-Tracks (extend []) os r a _ h started = extended_nothing os r a h started
  call-Tracks (extend (c ∷ s)) os r a _ h _ = extended os r a h c s
  call-Tracks erase os r a _ h _ = erased os r a h
  call-Tracks (add k s) os r a ascii h _ = added os r a h k s ascii
