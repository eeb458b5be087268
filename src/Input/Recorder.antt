-- ===== src/Input/Recorder.antt =====
-- `EventBuffer` and `InputRecorder` of bookworm-input/src/user_input.rs: events are applied to the
-- texts on screen as they happen, and kept to be replayed on others. `none` is a panic, as in
-- `Cursor`. The `HashMap` of texts is an association list, in an order that nothing reads.
pub mod Replay
pub mod Replayed
pub mod Tracking
use bookworm.Base.{
  ℕ, Bool, true, false, not, Option, none, some, List, [], ◌∷◌, ◌++◌, map, Text, byte_len, is_empty,
  if◌then◌else◌, ◌>>=◌, Eq, insert_key,
}
use bookworm.Input.Cursor.{
  CursoredText, unselected, clear, step, TextEvent, select_all, deselect, key_up, key_shift_up,
  key_down, key_shift_down, key_left, key_shift_left, key_right, key_shift_right, del, backspace,
  push,
}

-- One round of the loop of `apply_to`, with the flag `started_edit`. The source runs
-- `key_shift_left` for the event of the right key with shift.
unfoldable pub replay_event : Bool → TextEvent → CursoredText → Option CursoredText
replay_event started key_shift_right t = step key_shift_left t
replay_event started del t = if started then step del t else some (clear t)
replay_event started backspace t = if started then step backspace t else some (clear t)
replay_event started (push c) t = step (push c) (if started then t else clear t)
replay_event started e t = step e t

unfoldable pub replay : Bool → List TextEvent → CursoredText → Option CursoredText
unfolding replay_event
replay started [] t = some t
replay started (e ∷ es) t = replay_event started e t >>= replay true es

-- `EventBuffer::apply_to`. The cursor starts at the number of bytes of the text.
unfoldable pub apply_to : List TextEvent → Text → Option CursoredText
unfolding replay
apply_to events s = replay false events (unselected (byte_len s) s)

pub record InputRecorder (K : Type 0) : Type 0 where
  pub started_edit : Bool
  pub events : List TextEvent
  pub cursored : List (K × CursoredText)

-- The characters of a text, pushed one after another.
unfoldable pub push_all : Text → CursoredText → Option CursoredText
push_all [] t = some t
push_all (c ∷ s) t = step (push c) t >>= push_all s

module _ {K : Type 0} where
  -- `for_each`, over the values of the map
  unfoldable pub for_each :
      (CursoredText → Option CursoredText)
      → List (K × CursoredText)
      → Option (List (K × CursoredText))
  for_each f [] = some []
  for_each f ((k, t) ∷ cs) = f t >>= λ t'. for_each f cs >>= λ cs'. some ((k, t') ∷ cs')

  -- The methods that record one event and apply it as it is: the arrow keys, `select_all` and
  -- `deselect`.
  pub record_key : TextEvent → InputRecorder K → Option (InputRecorder K)
  record_key e r = for_each (step e) r.cursored >>= λ cs.
      some (record { started_edit = true; events = r.events ++ e ∷ []; cursored = cs })

  -- `del` and `backspace`
  pub record_removal : TextEvent → InputRecorder K → Option (InputRecorder K)
  record_removal e r =
      for_each (if r.started_edit then step e else λ t. some (clear t)) r.cursored >>= λ cs.
      some (record { started_edit = true; events = r.events ++ e ∷ []; cursored = cs })

  -- `if !self.started_edit { self.for_each(|cursor| cursor.clear()) }`
  abbrev pub clear_unstarted : InputRecorder K → Option (List (K × CursoredText))
  clear_unstarted r =
      if r.started_edit then some r.cursored else for_each (λ t. some (clear t)) r.cursored

  pub record_push : ℕ → InputRecorder K → Option (InputRecorder K)
  record_push c r = clear_unstarted r >>= λ cleared. for_each (step (push c)) cleared >>= λ cs.
      some (record { started_edit = true; events = r.events ++ push c ∷ []; cursored = cs })

  pub record_extend : Text → InputRecorder K → Option (InputRecorder K)
  record_extend s r = clear_unstarted r >>= λ cleared. for_each (push_all s) cleared >>= λ cs.
      some (record { started_edit = true; events = r.events ++ map push s; cursored = cs })

  pub record_clear : InputRecorder K → Option (InputRecorder K)
  record_clear r = for_each (λ t. some (clear t)) r.cursored >>= λ cs. some (record {
    started_edit = true;
    events = r.events ++ select_all ∷ backspace ∷ [];
    cursored = cs;
  })

module _ {K : Type 0} ⦃e : Eq K⦄ where
  pub add_cursor : K → Text → InputRecorder K → Option (InputRecorder K)
  add_cursor k s r =
      apply_to r.events s >>= λ t. some (record r { cursored = insert_key k t r.cursored })

-- The public methods.
pub data Call (K : Type 0) : Type 0 where
  key : TextEvent → Call K
  extend : Text → Call K
  erase : Call K
  add : K → Text → Call K

-- The method for a call; the event names its method.
unfoldable pub call : {K : Type 0} ⦃e : Eq K⦄ → Call K → InputRecorder K → Option (InputRecorder K)
unfolding record_key record_removal record_push record_extend record_clear add_cursor
call (key del) r = record_removal del r
call (key backspace) r = record_removal backspace r
call (key (push c)) r = record_push c r
call (key e) r = record_key e r
call (extend s) r = record_extend s r
call erase r = record_clear r
call (add k s) r = add_cursor k s r
