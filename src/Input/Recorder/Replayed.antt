-- ===== src/Input/Recorder/Replayed.antt =====
-- What the methods of `InputRecorder` (bookworm-input/src/user_input.rs) do to one text, and to
-- all texts on screen, as a replay of the events that they record.
use bookworm.Base.{
  ℕ, ◌≡◌, refl, sym, ap, ◌∙◌, Bool, true, false, not, Option, none, some, List, [], ◌∷◌, ◌++◌, map,
  Text, IsAscii, is_empty, if◌then◌else◌, ◌>>=◌,
}
use mathlib.Core.Path.{fun_ext}
use bookworm.Input.Cursor.{CursoredText, clear, step, TextEvent, key_shift_right, push}
use bookworm.Input.Recorder.{
  replay_event, replay, apply_to, push_all, InputRecorder, for_each, Call, key, extend, add,
}
use bookworm.Input.Recorder.Replay.{Returns, Returns-apply_to, replay-append, replay-push}

pub returned : (o : Option CursoredText) → Returns o → (t : CursoredText) × (o ≡ some t)
returned none h = elim h [ ]
returned (some t) h = (t, refl)

apply_to-append :
    (es new : List TextEvent) (s : Text) (t : CursoredText)
    → apply_to es s ≡ some t
    → apply_to (es ++ new) s ≡ replay (not (is_empty es)) new t
unfolding apply_to
apply_to-append es new s t h = replay-append es new _ ∙ rw h

bind-some : (o : Option CursoredText) → (o >>= some) ≡ o
bind-some none = refl
bind-some (some t) = refl

pub is_empty-append_cons :
    (es fs : List TextEvent) (e : TextEvent) → not (is_empty (es ++ e ∷ fs)) ≡ true
is_empty-append_cons [] fs e = refl
is_empty-append_cons (_ ∷ es) fs e = refl

pub if_apply :
    (b : Bool) (f g : CursoredText → Option CursoredText) (t : CursoredText)
    → (if b then f else g) t ≡ (if b then f t else g t)
if_apply true f g t = refl
if_apply false f g t = refl

-- What each method does to a text is what its events replay.
pub replay_key :
    (started : Bool) (e : TextEvent) (t : CursoredText)
    → replay started (e ∷ []) t ≡ replay_event started e t
unfolding replay
replay_key started e t = bind-some (replay_event started e t)

pub replay_extend :
    (started : Bool) (c : ℕ) (s : Text) (t : CursoredText)
    → push_all (c ∷ s) (if started then t else clear t) ≡ replay started (map push (c ∷ s)) t
unfolding push_all replay
replay_extend started c s t =
    ap (λ k. step (push c) (if started then t else clear t) >>= k) (sym (fun_ext (replay-push s)))

module _ {K : Type 0} where
  -- Each text on screen is what the events make of the text that was added under its key.
  abbrev pub Replayed : List TextEvent → List (K × Text) → List (K × CursoredText) → Type 0
  Replayed es [] [] = Unit
  Replayed es [] (c ∷ cs) = ⊥
  Replayed es (o ∷ os) [] = ⊥
  Replayed es ((k, s) ∷ os) ((j, t) ∷ cs) = (k ≡ j) × (apply_to es s ≡ some t) × Replayed es os cs

  abbrev pub AllAscii : List (K × Text) → Type 0
  AllAscii [] = Unit
  AllAscii ((k, s) ∷ os) = IsAscii s × AllAscii os

  -- The recorder of texts that were added as `os`.
  abbrev pub Tracks : List (K × Text) → InputRecorder K → Type 0
  Tracks os r = (r.started_edit ≡ not (is_empty r.events)) × Replayed r.events os r.cursored

  -- The calls that are replayed as they ran: not the right key with shift, and not a paste of
  -- nothing before any other edit.
  abbrev pub IsReplayable : Call K → InputRecorder K → Type 0
  IsReplayable (key key_shift_right) r = ⊥
  IsReplayable (extend []) r = r.started_edit ≡ true
  IsReplayable c r = Unit

  abbrev pub AddsAscii : Call K → Type 0
  AddsAscii (add k s) = IsAscii s
  AddsAscii c = Unit

  map_values : (CursoredText → CursoredText) → List (K × CursoredText) → List (K × CursoredText)
  map_values h [] = []
  map_values h ((k, t) ∷ cs) = (k, h t) ∷ map_values h cs

  for_each_pure :
      (h : CursoredText → CursoredText) (cs : List (K × CursoredText))
      → for_each (λ t. some (h t)) cs ≡ some (map_values h cs)
  unfolding for_each map_values
  for_each_pure h [] = refl
  for_each_pure h ((k, t) ∷ cs) = rw (for_each_pure h cs)

  for_each-map_values :
      (h : CursoredText → CursoredText) (g : CursoredText → Option CursoredText)
      (cs : List (K × CursoredText))
      → for_each g (map_values h cs) ≡ for_each (λ t. g (h t)) cs
  unfolding for_each map_values
  for_each-map_values h g [] = refl
  for_each-map_values h g ((k, t) ∷ cs) = rw (for_each-map_values h g cs)

  Replayed-append :
      (es new : List TextEvent) (os : List (K × Text)) (cs : List (K × CursoredText))
      → AllAscii os
      → Replayed es os cs
      → (cs' : List (K × CursoredText)) × (for_each (replay (not (is_empty es)) new) cs ≡ some cs')
        × Replayed (es ++ new) os cs'
  unfolding for_each
  Replayed-append es new [] [] a h = ([], refl, tt)
  Replayed-append es new [] (c ∷ cs) a h = elim h [ ]
  Replayed-append es new (o ∷ os) [] a h = elim h [ ]
  Replayed-append es new ((k, s) ∷ os) ((j, t) ∷ cs) a h =
      let (t', e) = returned _ (Returns-apply_to (es ++ new) s a.0) in
      let (cs', d, h') = Replayed-append es new os cs a.1 h.2 in
      let r : replay (not (is_empty es)) new t ≡ some t' =
        sym (apply_to-append es new s t h.1) ∙ e in
      ((j, t') ∷ cs', rw (r, d), (h.0, e, h'))

  -- A method that records the events `new` and does `f` to each text.
  pub recorded :
      (f : CursoredText → Option CursoredText) (new : List TextEvent) (os : List (K × Text))
      (r : InputRecorder K)
      → not (is_empty (r.events ++ new)) ≡ true
      → AllAscii os
      → Tracks os r
      → ((t : CursoredText) → f t ≡ replay r.started_edit new t)
      → (r' : InputRecorder K) × ((for_each f r.cursored >>= λ cs.
            some (record { started_edit = true; events = r.events ++ new; cursored = cs }))
          ≡ some r')
        × Tracks os r'
  recorded f new os r n a h e =
      let (cs', d, h') = Replayed-append r.events new os r.cursored a h.1 in
      let g : f ≡ replay (not (is_empty r.events)) new = fun_ext e ∙ ap (λ b. replay b new) h.0 in
      (
        record { started_edit = true; events = r.events ++ new; cursored = cs' },
        rw (g, d),
        (sym n, h'),
      )

  pub cleared_first :
      (b : Bool) (g : CursoredText → Option CursoredText) (cs : List (K × CursoredText))
      {B : Type 0} (k : List (K × CursoredText) → Option B)
      → ((if b then some cs else for_each (λ t. some (clear t)) cs) >>= λ cleared.
          for_each g cleared >>= k)
        ≡ (for_each (λ t. g (if b then t else clear t)) cs >>= k)
  cleared_first true g cs k = refl
  cleared_first false g cs k = rw (for_each_pure clear cs, for_each-map_values clear g cs)
