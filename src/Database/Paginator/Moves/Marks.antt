-- ===== src/Database/Paginator/Moves/Marks.antt =====
-- A selection of `Paginator` (bookworm-database/src/paginator.rs) as two positions in the sorted list of
-- books: an anchor, and a head that moves.
use bookworm.Base.{
  ℕ, zero, suc, ◌+◌, ◌-◌, ◌≤◌, ◌<◌, min, ◌≡◌, refl, ap, ◌∙◌, ◌⊎◌, inl, inr, Option, none, some,
  List, length, take, drop, get_elem?, get_elem?-lt, get_elem?-split, last?, last?-take-drop,
  last?-take-reverse, drop_past, ltb, arith, Bool-cases,
}
use mathlib.Core.List.{reverse}
use bookworm.Records.Column.{ascending, descending}
use bookworm.Database.Query.{Rules, Query, page_query}
use bookworm.Database.Selection.{Selection, all, range, empty, up, down}
use bookworm.Database.Paginator.{Paginator}
use bookworm.Database.Paginator.Loading.{Answers, asked}
use bookworm.Database.Paginator.Holding.{ShowsAt}

pub data Mark : Type 0 where
  nothing everything : Mark
  marked : ℕ → ℕ → Mark

module _ {B M : Type 0} (ask : Query B M → Option (List B)) (rules : Rules) (matches : List M)
    (sorted : List B) where
  -- A range that was extended downwards has its anchor first, one that was extended upwards last.
  abbrev pub Marks : Selection B M → Mark → Type 0
  Marks empty nothing = Unit {0}
  Marks (all ms) everything = ms ≡ matches
  Marks (range start end r down ms) (marked anchor head) =
      (get_elem? sorted anchor ≡ some start)
      × (get_elem? sorted head ≡ some end)
      × (anchor ≤ head)
      × (r ≡ rules)
      × (ms ≡ matches)
  Marks (range start end r up ms) (marked anchor head) =
      (get_elem? sorted head ≡ some start)
      × (get_elem? sorted anchor ≡ some end)
      × (head ≤ anchor)
      × (r ≡ rules)
      × (ms ≡ matches)
  Marks s m = ⊥

  -- The head is on screen.
  abbrev pub Visible : Mark → ℕ → ℕ → Type 0
  Visible (marked anchor head) offset size = (offset ≤ head) × (head < offset + size)
  Visible nothing offset size = Unit {0}
  Visible everything offset size = Unit {0}

  -- The window shows a piece of the list; the selection is between two books of it, everything or
  -- nothing; and the head is on screen.
  pub record View (size : ℕ) (m : Mark) (p : Paginator B M) : Type 0 where
    pub offset : ℕ
    pub shown : ShowsAt ask rules matches sorted p offset
    pub sized : p.window_size ≡ size
    pub selects : Marks p.selected m
    pub visible : Visible m offset size

  pub ShowsAt_selected :
      (p : Paginator B M) (offset : ℕ) (s : Selection B M)
      → ShowsAt ask rules matches sorted p offset
      → ShowsAt ask rules matches sorted (record p { selected = s }) offset
  ShowsAt_selected p offset s h = record {
    pre = h.pre;
    post = h.post;
    held = record {
      whole = h.held.whole;
      anchored = h.held.anchored;
      same_rules = h.held.same_rules;
      same_matches = h.held.same_matches;
    };
    place = h.place;
    full = h.full;
  }

  -- What is found from an index: the book at another, or nothing, where that is the same.
  abbrev pub Finds : Option B → ℕ → ℕ → Type 0
  Finds o from to =
      ((o ≡ none) × (to ≡ from)) ⊎ ((b : B) × (o ≡ some b) × (get_elem? sorted to ≡ some b))

  pub below-Finds :
      (len i : ℕ)
      → i < length sorted
      → Finds (last? (take len (drop (suc i) sorted))) i (min (i + len) (length sorted - 1))
  below-Finds zero i h = inl (refl, omega arith)
  below-Finds (suc n) i h = elim (Bool-cases (ltb (suc i) (length sorted))) [
    | inl more ↦
        let (b, e) = get_elem?-lt sorted (min (i + suc n) (length sorted - 1)) (ground arith) in
        inr (
          b,
          last?-take-drop (suc n) (suc i) sorted (omega arith) (ground arith)
              ∙ ap (get_elem? sorted) (
                  let same : min (suc i + suc n) (length sorted) - 1
                      ≡ min (i + suc n) (length sorted - 1) =
                    ground arith in
                  same)
              ∙ e,
          e,
        )
    | inr end ↦
        inl (ap last? (ap (take (suc n)) (drop_past (suc i) sorted (ground arith))), ground arith)
  ]

  pub above-Finds :
      (len i : ℕ)
      → i < length sorted
      → Finds (last? (take len (reverse (take i sorted)))) i (i - len)
  above-Finds zero i h = inl (refl, omega arith)
  above-Finds (suc n) zero h = inl (refl, omega arith)
  above-Finds (suc n) (suc i) h =
      let (b, e) = get_elem?-lt sorted (suc i - suc n) (omega arith) in
      inr (
        b,
        last?-take-reverse (suc n) (suc i) sorted (omega arith) (omega arith) (omega arith) ∙ e,
        e,
      )

  module _ (a : Answers ask rules matches sorted) (r : Rules) (ms : List M) (e : r ≡ rules)
      (e' : ms ≡ matches) (i : ℕ) (b : B) (at : get_elem? sorted i ≡ some b) where
    pub answer_below :
        (n : ℕ)
        → ask (record { builder = page_query r descending n; book = some b; match_rules = ms })
          ≡ some (take n (drop (suc i) sorted))
    answer_below n =
        asked ask rules matches sorted descending n (some b) (some b) r ms e e' refl
        ∙ a.behind n (take i sorted) b (drop (suc i) sorted) (get_elem?-split sorted i b at).0

    pub answer_above :
        (n : ℕ)
        → ask (record { builder = page_query r ascending n; book = some b; match_rules = ms })
          ≡ some (take n (reverse (take i sorted)))
    answer_above n =
        asked ask rules matches sorted ascending n (some b) (some b) r ms e e' refl
        ∙ a.before n (take i sorted) b (drop (suc i) sorted) (get_elem?-split sorted i b at).0
