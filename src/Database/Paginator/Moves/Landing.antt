-- ===== src/Database/Paginator/Moves/Landing.antt =====
-- The book that `home` and `end` of `Paginator` (bookworm-database/src/paginator.rs) select anew, if one was
-- selected or all were.
use bookworm.Base.{
  ℕ, zero, suc, ◌+◌, ◌≤◌, ◌<◌, ◌≡◌, ◌≢◌, refl, sym, ◌∙◌, inl, inr, true, false, Option, none, some,
  List, [], ◌∷◌, length, get_elem?, lt-length, get_elem?-lt, arith, Bool-cases, take, first?,
  if◌then◌else◌, ◌==◌, ==_iff,
}
use bookworm.Database.Query.{Rules, Query}
use bookworm.Database.Selection.{Books, Selection, all, partial, range, empty, up, down, is_single}
use bookworm.Database.Paginator.{Paginator, Run}
use bookworm.Database.Paginator.Holding.{ShowsAt}
use bookworm.Database.Paginator.Jumps.{reselect}
use bookworm.Database.Paginator.Jumps.Serving.{Serves}
use bookworm.Database.Paginator.Moves.Marks.{
  Mark, nothing, everything, marked, Marks, View, ShowsAt_selected,
}
use bookworm.Database.Paginator.Moves.Stepping.{Viewed, is_single_lem, Marks_inside}

-- One book is selected.
abbrev pub one : ℕ → Mark
one i = marked i i

-- The selection after a jump to an index of a list of so many books.
abbrev pub landed : ℕ → ℕ → Mark → Mark
landed size i nothing = nothing
landed size i everything = if size == 0 then everything else one i
landed size i (marked anchor head) = one i

-- More than one book may be selected, but not by two ends.
abbrev pub AtMostOne : Mark → Type 0
AtMostOne (marked anchor head) = anchor ≡ head
AtMostOne nothing = Unit {0}
AtMostOne everything = Unit {0}

pub first?-take {ℓ} :
    {A : Type ℓ} (n : ℕ) (xs : List A) → 0 < n → first? (take n xs) ≡ get_elem? xs 0
first?-take zero xs h = absurd (omega arith)
first?-take (suc n) [] h = refl
first?-take (suc n) (x ∷ xs) h = refl

module _ {B M : Type 0} (k : Books B M) (ask : Query B M → Option (List B))
    (get_book : ℕ → Option B) (rules : Rules) (matches : List M) (sorted : List B)
    (a : Serves k ask get_book rules matches sorted) where
  abbrev V : ℕ → Mark → Run B M → Type 0
  V = Viewed k ask get_book rules matches sorted a

  module _ (p : Paginator B M) (offset i : ℕ) (s : ShowsAt ask rules matches sorted p offset)
      (above : offset ≤ i) (below : i < offset + p.window_size) where
    stays :
        (m : Mark) (old : Selection B M)
        → Marks ask rules matches sorted old m
        → ((anchor head : ℕ) → m ≢ marked anchor head)
        → View ask rules matches sorted p.window_size m (record p { selected = old })
    stays nothing old h n = record {
      offset = offset;
      shown = ShowsAt_selected ask rules matches sorted p offset old s;
      sized = refl;
      selects = h;
      visible = tt;
    }
    stays everything old h n = record {
      offset = offset;
      shown = ShowsAt_selected ask rules matches sorted p offset old s;
      sized = refl;
      selects = h;
      visible = tt;
    }
    stays (marked anchor head) old h n = absurd (n anchor head refl)

    picked :
        (b : B)
        → get_elem? sorted i ≡ some b
        → View ask rules matches sorted p.window_size
            (one i)
            (record p { selected = range b b p.sorting_rules down p.matching_rules })
    picked b at = record {
      offset = offset;
      shown = ShowsAt_selected ask rules matches sorted p offset _ s;
      sized = refl;
      selects = (at, at, omega arith, s.held.same_rules, s.held.same_matches);
      visible = (above, below);
    }

    nothing_there :
        none ≡ get_elem? sorted i
        → (0 < length sorted → i < length sorted)
        → (length sorted == 0) ≡ true
    nothing_there e h = elim (Bool-cases (length sorted == 0)) [
      | inl same ↦ same
      | inr other ↦
          let (b, there) = get_elem?-lt sorted i (h (ground arith)) in
          let both : none ≡ some b = e ∙ there in absurd (cc)
    ]

    something_there : (b : B) → get_elem? sorted i ≡ some b → (length sorted == 0) ≡ false
    something_there b at = let lt = lt-length sorted i b at in ground arith

    marked_reselected :
        (target : Option B) (old : Selection B M) (anchor head : ℕ)
        → target ≡ get_elem? sorted i
        → (0 < length sorted → i < length sorted)
        → Marks ask rules matches sorted old (marked anchor head)
        → anchor ≡ head
        → V p.window_size (one i) (reselect k target (record p { selected = old }))
    unfolding reselect
    marked_reselected none old anchor head e h m o =
        let inside = Marks_inside k ask get_book rules matches sorted a old anchor head m in
        let none_there = nothing_there e h in absurd (ground (arith, inside.0))
    marked_reselected (some b) old anchor head e h m o =
        let single : is_single k old ≡ true =
          is_single_lem k ask get_book rules matches sorted a old anchor head m
          ∙ (==_iff anchor head).1 o in
        rw single (picked b (sym e))

    pub reselected :
        (target : Option B) (old : Selection B M) (m : Mark)
        → target ≡ get_elem? sorted i
        → (0 < length sorted → i < length sorted)
        → Marks ask rules matches sorted old m
        → AtMostOne m
        → V p.window_size
            (landed (length sorted) i m)
            (reselect k target (record p { selected = old }))
    unfolding reselect is_single
    reselected target old (marked anchor head) e h m o =
        marked_reselected target old anchor head e h m o
    reselected none empty nothing e h m o = stays nothing empty m (λ x y. cc)
    reselected (some b) empty nothing e h m o = stays nothing empty m (λ x y. cc)
    reselected none (all ms) everything e h m o =
        rw (nothing_there e h) (stays everything (all ms) m (λ x y. cc))
    reselected (some b) (all ms) everything e h m o =
        rw (something_there b (sym e)) (picked b (sym e))
    reselected target (all ms) nothing e h m o = absurd m
    reselected target (partial books r) nothing e h m o = absurd m
    reselected target (range x y r up ms) nothing e h m o = absurd m
    reselected target (range x y r down ms) nothing e h m o = absurd m
    reselected target empty everything e h m o = absurd m
    reselected target (partial books r) everything e h m o = absurd m
    reselected target (range x y r up ms) everything e h m o = absurd m
    reselected target (range x y r down ms) everything e h m o = absurd m
