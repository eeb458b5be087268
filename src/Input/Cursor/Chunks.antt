-- ===== src/Input/Cursor/Chunks.antt =====
-- `render`, `char_chunks` and `selected` of `CursoredText`, bookworm-input/src/user_input.rs: how
-- the text is cut up for display. `none` is the panic of `split_at`.
use bookworm.Base.{
  ℕ, ◌-◌, ◌<◌, ◌≡◌, ◌++◌, Text, length, length-take, length-drop, take-append-drop, take, drop,
  Option, none, some, leb, if◌then◌else◌, ◌>>=◌, arith,
}
use bookworm.Input.Cursor.{
  Direction, left, right, Selected, CursoredText, IsValid, SelectionFits, checked_sub,
}
use bookworm.Input.Cursor.Span.{Span, to_span, low, high}

-- `[T]::split_at`
abbrev pub split_at : Text → ℕ → Option (Text × Text)
split_at s n = if leb n (length s) then some (take n s, drop n s) else none

pub data CharChunks : Type 0 where
  selected_chunks : Text → Text → Text → Direction → CharChunks
  unselected_chunks : Text → Text → CharChunks

abbrev pub split_selection : Text → ℕ → ℕ → Direction → Option CharChunks
split_selection s at x d =
    split_at s at >>= λ (a, b). split_at b x >>= λ (b', c). some (selected_chunks a b' c d)

unfoldable pub char_chunks : CursoredText → Option CharChunks
char_chunks t = elim t.selection [
  | some (x, left) ↦ split_selection t.text t.cursor x left
  | some (x, right) ↦ checked_sub t.cursor x >>= λ mid. split_selection t.text mid x right
  | none ↦ split_at t.text t.cursor >>= λ (a, b). some (unselected_chunks a b)
]

-- `selected`: the inner `Option` is the result.
unfoldable pub selected : CursoredText → Option (Option Text)
unfolding char_chunks
selected t = char_chunks t >>= λ c. elim c [
  | selected_chunks a b c d ↦ some (some b)
  | unselected_chunks a b ↦ some none
]

-- All of the text, in order.
abbrev pub joined : CharChunks → Text
joined (selected_chunks a b c d) = a ++ (b ++ c)
joined (unselected_chunks a b) = a ++ b

-- The pieces are cut at the two positions.
abbrev pub IsCutAt : CharChunks → Span → Type 0
IsCutAt (selected_chunks a b c d) p =
    (length a ≡ low p)
    × (length b ≡ high p - low p)
    × (0 < length b)
    × (joined (selected_chunks a b c d) ≡ p.text)
IsCutAt (unselected_chunks a b) p =
    (low p ≡ high p) × (length a ≡ low p) × (joined (unselected_chunks a b) ≡ p.text)

abbrev pub Cuts : Option CharChunks → Span → Type 0
Cuts none p = ⊥
Cuts (some c) p = IsCutAt c p

cuts :
    (c : ℕ) (sel : Selected) (s : Text)
    → SelectionFits c sel (length s)
    → let t : CursoredText = record { cursor = c; selection = sel; text = s } in
      Cuts (char_chunks t) (to_span t)
unfolding char_chunks to_span
cuts c none s h = ground (arith, take-append-drop c s, length-take c s)
cuts c (some (x, left)) s h = ground (
  arith,
  take-append-drop c s,
  take-append-drop x (drop c s),
  length-take c s,
  length-take x (drop c s),
  length-drop c s,
)
cuts c (some (x, right)) s h = ground (
  arith,
  take-append-drop (c - x) s,
  take-append-drop x (drop (c - x) s),
  length-take (c - x) s,
  length-take x (drop (c - x) s),
  length-drop (c - x) s,
)

-- A valid state is displayed without a panic: the pieces make up the whole text, and the selected
-- piece lies between the two positions.
pub char_chunks-Cuts : (t : CursoredText) → IsValid t → Cuts (char_chunks t) (to_span t)
char_chunks-Cuts t h = cuts t.cursor t.selection t.text h
