-- ===== src/Input/Cursor/Refines.antt =====
-- The methods of `CursoredText` (bookworm-input/src/user_input.rs) do what the keys promise.
use bookworm.Base.{
  ℕ, zero, suc, ◌+◌, ◌-◌, ◌≤◌, ◌≡◌, refl, ap, [], ◌∷◌, ◌++◌, Text, length, length-append,
  length-take, length-drop, take, drop, take-take_append, drop-take_append, take_all, drop_past,
  Option, none, some, ltb, false, arith, ◌>>=◌,
}
use mathlib.Core.List.{append-nil}
use bookworm.Input.Cursor.{
  left, right, Selected, CursoredText, TextEvent, select_all, deselect, key_up, key_shift_up,
  key_down, key_shift_down, key_left, key_shift_left, key_right, key_shift_right, del, backspace,
  push, step, drain, insert, unselected, IsValid, SelectionFits,
}
use bookworm.Input.Cursor.Span.{Span, span, to_span, splice, span_step, anchor_of}

-- An operation returns, in a state that is valid and stands for `p`.
abbrev pub Ends : Option CursoredText → Span → Type 0
Ends none p = ⊥
Ends (some t) p = IsValid t × (to_span t ≡ p)

abbrev pub Does : TextEvent → CursoredText → Type 0
Does e t = Ends (step e t) (span_step e (to_span t))

length-splice :
    (a b : ℕ) (mid s : Text)
    → a ≤ b
    → b ≤ length s
    → length (splice a b mid s) ≡ a + length mid + (length s - b)
length-splice a b mid s h k = omega (
  arith,
  length-append {0} (take a s) (mid ++ drop b s),
  length-append {0} mid (drop b s),
  length-take {0} a s,
  length-drop {0} b s,
)

-- The methods that edit, on a range that lies in the text.
Ends-drain :
    (a b : ℕ) (s : Text) (p : Span)
    → a ≤ b
    → b ≤ length s
    → span a a (splice a b [] s) ≡ p
    → Ends (drain s a b >>= λ s'. some (unselected a s')) p
unfolding to_span
Ends-drain a b s p h k e = ground (arith, length-splice a b [] s)

ends_del :
    (c : ℕ) (sel : Selected) (s : Text)
    → SelectionFits c sel (length s)
    → Does del (record { cursor = c; selection = sel; text = s })
unfolding step span_step to_span
ends_del c none s h =
    ground (arith, length-splice c (c + 1) [] s, take_all s, append-nil s, drop_past (c + 1) s)
ends_del c (some (x, left)) s h = Ends-drain c (c + x) s _ (omega arith) h.1 (ground arith)
ends_del c (some (x, right)) s h = Ends-drain (c - x) c s _ (omega arith) h.2 (ground arith)

ends_backspace :
    (c : ℕ) (sel : Selected) (s : Text)
    → SelectionFits c sel (length s)
    → Does backspace (record { cursor = c; selection = sel; text = s })
unfolding step span_step to_span
ends_backspace zero none s h = ground arith
ends_backspace (suc c) none s h = ground (arith, length-splice c (suc c) [] s)
ends_backspace c (some (x, left)) s h = Ends-drain c (c + x) s _ (omega arith) h.1 (ground arith)
ends_backspace c (some (x, right)) s h = Ends-drain (c - x) c s _ (omega arith) h.2 (ground arith)

Ends-insert :
    (a b ch : ℕ) (s : Text) (p : Span)
    → a ≤ b
    → b ≤ length s
    → span (a + 1) (a + 1) (splice a b (ch ∷ []) s) ≡ p
    → Ends (drain s a b >>= λ s'. insert s' a ch >>= λ s''. some (unselected (a + 1) s'')) p
unfolding to_span
Ends-insert a b ch s p h k e = ground (
  arith,
  length-splice a b (ch ∷ []) s,
  length-splice a b [] s,
  take-take_append a s (drop b s),
  drop-take_append a s (drop b s),
)

ends_push :
    (ch c : ℕ) (sel : Selected) (s : Text)
    → SelectionFits c sel (length s)
    → Does (push ch) (record { cursor = c; selection = sel; text = s })
unfolding step span_step to_span
ends_push ch c none s h = ground (arith, length-splice c c (ch ∷ []) s)
ends_push ch c (some (x, left)) s h = Ends-insert c (c + x) ch s _ (omega arith) h.1 (ground arith)
ends_push ch c (some (x, right)) s h =
    rw (ltb-sub) (Ends-insert (c - x) c ch s _ (omega arith) h.2 (ground arith))
  where
    ltb-sub : ltb c x ≡ false
    ltb-sub = ground arith

module _ (t : CursoredText) (h : IsValid t) where
  step-select_all : Does select_all t
  unfolding step span_step to_span
  step-select_all = ground arith

  step-deselect : Does deselect t
  unfolding step span_step to_span
  step-deselect = ground arith

  step-key_up : Does key_up t
  unfolding step span_step to_span
  step-key_up = ground arith

  step-key_shift_up : Does key_shift_up t
  unfolding step span_step to_span
  step-key_shift_up = ground arith

  step-key_down : Does key_down t
  unfolding step span_step to_span
  step-key_down = ground arith

  step-key_shift_down : Does key_shift_down t
  unfolding step span_step to_span
  step-key_shift_down = ground arith

  step-key_left : Does key_left t
  unfolding step span_step to_span
  step-key_left = ground arith

  step-key_shift_left : Does key_shift_left t
  unfolding step span_step to_span
  step-key_shift_left = ground arith

  step-key_right : Does key_right t
  unfolding step span_step to_span
  step-key_right = ground arith

  step-key_shift_right : Does key_shift_right t
  unfolding step span_step to_span
  step-key_shift_right = ground arith

  step-del : Does del t
  unfolding step span_step to_span
  step-del = ends_del t.cursor t.selection t.text h

  step-backspace : Does backspace t
  unfolding step span_step to_span
  step-backspace = ends_backspace t.cursor t.selection t.text h

  step-push : (c : ℕ) → Does (push c) t
  unfolding step span_step to_span
  step-push c = ends_push c t.cursor t.selection t.text h

-- In every state that the methods keep valid, every event succeeds (nothing panics), keeps the
-- state valid, and does to text, anchor and cursor what the key promises.
pub step-span_step :
    (e : TextEvent) (t : CursoredText) → IsValid t → Ends (step e t) (span_step e (to_span t))
step-span_step select_all t h = step-select_all t h
step-span_step deselect t h = step-deselect t h
step-span_step key_up t h = step-key_up t h
step-span_step key_shift_up t h = step-key_shift_up t h
step-span_step key_down t h = step-key_down t h
step-span_step key_shift_down t h = step-key_shift_down t h
step-span_step key_left t h = step-key_left t h
step-span_step key_shift_left t h = step-key_shift_left t h
step-span_step key_right t h = step-key_right t h
step-span_step key_shift_right t h = step-key_shift_right t h
step-span_step del t h = step-del t h
step-span_step backspace t h = step-backspace t h
step-span_step (push c) t h = step-push t h c

same_span :
    (c : ℕ) (sel sel' : Selected) (n : ℕ)
    → SelectionFits c sel n
    → SelectionFits c sel' n
    → anchor_of c sel ≡ anchor_of c sel'
    → sel ≡ sel'
same_span c none none n h k e = refl
same_span c none (some (y, d)) n h k e = ground arith
same_span c (some (x, d)) none n h k e = ground arith
same_span c (some (x, d)) (some (y, d')) n h k e = ground arith

-- The two positions and the text determine a valid state: nothing else is kept.
to_span-injective : (t u : CursoredText) → IsValid t → IsValid u → to_span t ≡ to_span u → t ≡ u
unfolding to_span
to_span-injective t u h k e =
    let c : t.cursor ≡ u.cursor = ap (λ p. p.cursor) e in
    let s : t.text ≡ u.text = ap (λ p. p.text) e in
    let a : anchor_of t.cursor t.selection ≡ anchor_of u.cursor u.selection =
      ap (λ p. p.anchor) e in
    let same : t.selection ≡ u.selection =
      same_span t.cursor t.selection u.selection (length t.text) h (rw (c, s) k) (rw (← c) at a) in
    cc
