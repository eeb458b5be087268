-- ===== src/Database/Paginator/Jumps/Showing.antt =====
-- A book that the jumps of `Paginator` (bookworm-database/src/paginator.rs) make visible is in the window.
use bookworm.Base.{
  ℕ, suc, ◌+◌, ◌<◌, ◌≡◌, refl, sym, ap, ◌∙◌, inl, inr, true, Option, some, List, [], ◌∷◌, take,
  drop, get_elem?, lt-length, get_elem?-take, get_elem?-drop, length-take, ◌==◌, ==_iff, arith,
  Bool-cases,
}
use bookworm.Database.Query.{Rules, Query}
use bookworm.Database.Selection.{Books, Selection}
use bookworm.Database.Paginator.{Paginator, window}
use bookworm.Database.Paginator.Loading.{Ends}
use bookworm.Database.Paginator.Holding.{ShowsAt, window-ShowsAt}
use bookworm.Database.Paginator.Jumps.{make_book_visible, shows}
use bookworm.Database.Paginator.Jumps.Serving.{Serves, Sees}
use bookworm.Database.Paginator.Jumps.Places.{open_page-Sees}

module _ {B M : Type 0} (k : Books B M) (ask : Query B M → Option (List B))
    (get_book : ℕ → Option B) (rules : Rules) (matches : List M) (sorted : List B) where
  abbrev S : ℕ → Selection B M → ℕ → Paginator B M → Type 0
  S = Sees k ask get_book rules matches sorted

  -- A book of the list whose identifier the window has stands in the window.
  shows-elim :
      (n : ℕ) (bs : List B)
      → shows k n bs ≡ true
      → (j : ℕ) × (c : B) × (get_elem? bs j ≡ some c) × (k.id c ≡ n)
  unfolding shows
  shows-elim n [] h = absurd (cc)
  shows-elim n (b ∷ bs) h = elim (Bool-cases (k.id b == n)) [
    | inl same ↦ (0, b, refl, (==_iff (k.id b) n).0 same)
    | inr other ↦ let (j, c, e, i) = shows-elim n bs (rw other at h) in (suc j, c, e, i)
  ]

  pub shows-Sees :
      Serves k ask get_book rules matches sorted
      → (p : Paginator B M) (offset t : ℕ) (b : B) → ShowsAt ask rules matches sorted p offset
      → get_elem? sorted t ≡ some b
      → shows k (k.id b) (window p) ≡ true
      → S p.window_size p.selected t p
  shows-Sees a p offset t b s at h =
      let (j, c, e, i) = shows-elim (k.id b) (window p) h in
      let found =
        sym (ap (λ l. get_elem? l j) (window-ShowsAt ask rules matches sorted p offset s)) ∙ e in
      let inside : j < p.window_size = omega (
        arith,
        lt-length (take p.window_size (drop offset sorted)) j c found,
        length-take p.window_size (drop offset sorted),
      ) in
      let there : get_elem? sorted (offset + j) ≡ some c =
        sym (get_elem?-drop offset sorted j)
        ∙ sym (get_elem?-take p.window_size (drop offset sorted) j inside)
        ∙ found in
      let place = a.distinct (offset + j) t c b there at i in
      record {
        offset = offset;
        shown = s;
        sized = refl;
        kept = refl;
        above = omega arith;
        below = omega arith;
      }

  -- Where a book of the list is to be made visible, it is, and the window is full or shows all.
  pub make_book_visible-Sees :
      Serves k ask get_book rules matches sorted
      → (p : Paginator B M) (t : ℕ) (b : B) → p.sorting_rules ≡ rules
      → p.matching_rules ≡ matches
      → 0 < p.window_size
      → get_elem? sorted t ≡ some b
      → (shows k (k.id b) (window p) ≡ true → S p.window_size p.selected t p)
      → Ends ask rules matches sorted
          (make_book_visible k ask get_book (some b) p)
          (S p.window_size p.selected t)
  unfolding make_book_visible
  make_book_visible-Sees a p t b r m lines at seen =
      elim (Bool-cases (shows k (k.id b) (window p))) [
        | inl h ↦ rw h (seen h)
        | inr h ↦
            rw (h, a.same_book t b at)
              (open_page-Sees k ask get_book rules matches sorted a p t r m lines
                (inl (lt-length sorted t b at)) (some b) (a.from_book p.window_size t b at))
      ]
