-- ===== src/Database/Paginator/Moves/Following.antt =====
-- The window of `Paginator` (bookworm-database/src/paginator.rs) follows a book that is selected anew.
use bookworm.Base.{
  ℕ, ◌+◌, ◌-◌, ◌≤◌, ◌<◌, min, ◌≡◌, refl, ap, inl, inr, Option, some, List, length, get_elem?, arith,
  Bool-cases,
}
use bookworm.Database.Query.{Rules, Query}
use bookworm.Database.Selection.{Books, Selection}
use bookworm.Database.Paginator.{Paginator, Run, ◌>>=◌, window, scroll_down, scroll_up}
use bookworm.Database.Paginator.Fields.{Kept-down, Kept-up}
use bookworm.Database.Paginator.Loading.{Ends, Ends-bind, Ends_map, Ends-kept}
use bookworm.Database.Paginator.Holding.{ShowsAt}
use bookworm.Database.Paginator.Down.{scroll_down-ShowsAt}
use bookworm.Database.Paginator.Up.{scroll_up-ShowsAt}
use bookworm.Database.Paginator.Jumps.{keep, select, shows}
use bookworm.Database.Paginator.Jumps.Serving.{Serves, Sees}
use bookworm.Database.Paginator.Jumps.Showing.{shows-Sees}
use bookworm.Database.Paginator.Moves.{follow}
use bookworm.Database.Paginator.Moves.Marks.{marked, Marks, View, ShowsAt_selected}

module _ {B M : Type 0} (k : Books B M) (ask : Query B M → Option (List B))
    (get_book : ℕ → Option B) (rules : Rules) (matches : List M) (sorted : List B)
    (a : Serves k ask get_book rules matches sorted) (p : Paginator B M) (offset head : ℕ)
    (s : ShowsAt ask rules matches sorted p offset) (above : offset ≤ head)
    (below : head < offset + p.window_size) where
  abbrev Seen : ℕ → Paginator B M → Type 0
  Seen = Sees k ask get_book rules matches sorted p.window_size p.selected

  abbrev fields : Paginator B M → ℕ × Selection B M
  fields q = (q.window_size, q.selected)

  -- If the head was on screen, the book that is so many lines from it is on screen after scrolling by
  -- as many lines.
  scroll_down-Sees :
      (len : ℕ)
      → head < length sorted
      → Ends ask rules matches sorted
          (scroll_down ask len p)
          (Seen (min (head + len) (length sorted - 1)))
  scroll_down-Sees len h =
      Ends_map ask rules matches sorted (scroll_down ask len p) _ _
        (Ends-kept ask rules matches sorted fields (scroll_down ask len p)
          (λ q.
            ShowsAt ask rules matches sorted q (min (offset + len) (length sorted - p.window_size)))
          (p.window_size, p.selected)
          (scroll_down-ShowsAt ask rules matches sorted a.pages len p offset s.pre s.post s.held
            s.place)
          (Kept-down ask fields (λ q l t. refl) len p))
        (λ q h'. record {
          offset = min (offset + len) (length sorted - p.window_size);
          shown = h'.0;
          sized = ap (λ f. f.0) h'.1;
          kept = ap (λ f. f.1) h'.1;
          above = omega arith;
          below = omega arith;
        })

  scroll_up-Sees :
      (len : ℕ) → Ends ask rules matches sorted (scroll_up ask len p) (Seen (head - len))
  scroll_up-Sees len =
      Ends_map ask rules matches sorted (scroll_up ask len p) _ _
        (Ends-kept ask rules matches sorted fields (scroll_up ask len p)
          (λ q. ShowsAt ask rules matches sorted q (offset - len)) (p.window_size, p.selected)
          (scroll_up-ShowsAt ask rules matches sorted a.pages len p offset (omega arith) s)
          (Kept-up ask fields (λ q l t. refl) len p))
        (λ q h'. record {
          offset = offset - len;
          shown = h'.0;
          sized = ap (λ f. f.0) h'.1;
          kept = ap (λ f. f.1) h'.1;
          above = omega arith;
          below = omega arith;
        })

  pub follow_down-Sees :
      (len : ℕ) (b : B)
      → head < length sorted
      → get_elem? sorted (min (head + len) (length sorted - 1)) ≡ some b
      → Ends ask rules matches sorted
          (follow k ask (scroll_down ask len) b p)
          (Seen (min (head + len) (length sorted - 1)))
  unfolding follow
  follow_down-Sees len b h at = elim (Bool-cases (shows k (k.id b) (window p))) [
    | inl seen ↦ rw seen (
        shows-Sees k ask get_book rules matches sorted a p offset
          (min (head + len) (length sorted - 1)) b s at seen)
    | inr hidden ↦ rw hidden (scroll_down-Sees len h)
  ]

  pub follow_up-Sees :
      (len : ℕ) (b : B)
      → get_elem? sorted (head - len) ≡ some b
      → Ends ask rules matches sorted (follow k ask (scroll_up ask len) b p) (Seen (head - len))
  unfolding follow
  follow_up-Sees len b at = elim (Bool-cases (shows k (k.id b) (window p))) [
    | inl seen ↦
        rw seen (shows-Sees k ask get_book rules matches sorted a p offset (head - len) b s at seen)
    | inr hidden ↦ rw hidden (scroll_up-Sees len)
  ]

  -- The selection is set once the book is on screen.
  pub keep-View :
      (anchor to : ℕ) (new : Selection B M) (r : Run B M)
      → Ends ask rules matches sorted r (Seen to)
      → Marks ask rules matches sorted new (marked anchor to)
      → Ends ask rules matches sorted
          (r >>= keep new)
          (View ask rules matches sorted p.window_size (marked anchor to))
  keep-View anchor to new r h m =
      Ends-bind ask rules matches sorted r (keep new) (Seen to) _ h (λ q v. record {
        offset = v.offset;
        shown = ShowsAt_selected ask rules matches sorted q v.offset new v.shown;
        sized = v.sized;
        selects = m;
        visible = (v.above, v.below);
      })

  pub select-View :
      (to : ℕ) (b : B) (r : Run B M)
      → Ends ask rules matches sorted r (Seen to)
      → get_elem? sorted to ≡ some b
      → Ends ask rules matches sorted
          (r >>= select b)
          (View ask rules matches sorted p.window_size (marked to to))
  select-View to b r h at = Ends-bind ask rules matches sorted r (select b) (Seen to) _ h (λ q v.
      record {
        offset = v.offset;
        shown = ShowsAt_selected ask rules matches sorted q v.offset _ v.shown;
        sized = v.sized;
        selects = (at, at, omega arith, v.shown.held.same_rules, v.shown.held.same_matches);
        visible = (v.above, v.below);
      })
