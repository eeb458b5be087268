-- ===== src/Database/Paginator/Refresh/Kept.antt =====
-- `sort_by` and `refresh` of `Paginator` (bookworm-database/src/paginator.rs) keep a book of the window on
-- screen.
use bookworm.Base.{
  All, ◌⊎◌, ◌∷◌, zero, suc, false, inl, inr, true, ℕ, ◌+◌, ◌-◌, ◌<◌, ◌≡◌, refl, sym, ap, ◌∙◌, inl,
  inr, Bool, true, false, Option, none, some, List, [], get_elem?, lt-length, first?, get_or, subst,
  drop, take, map, leb, zero, suc, if◌then◌else◌, min, drop_nil,
}
use bookworm.Database.Query.{Rules, Query, add_id}
use bookworm.Database.Selection.{Books, Selection, contains, all, partial, range, empty}
use bookworm.Database.Paginator.{Paginator, failed, window}
use bookworm.Database.Paginator.Loading.{Ends, Ends-bind}
use bookworm.Database.Paginator.Jumps.{keep, make_book_visible, sort_by, shows}
use bookworm.Database.Paginator.Jumps.Serving.{Serves, Sees}
use bookworm.Database.Paginator.Jumps.Places.{open_page-Sees}
use bookworm.Database.Paginator.Refresh.{find_selected, or_else, reload, refresh}
use bookworm.Database.Paginator.Moves.Marks.{ShowsAt_selected}

take_nil {ℓ} : {A : Type ℓ} (n : ℕ) → take {A = A} n [] ≡ []
take_nil zero = refl
take_nil (suc n) = refl

either {ℓ} : {A : Type ℓ} {l : List A} (c : Bool) → l ≡ [] → (if c then l else []) ≡ []
either true h = h
either false h = refl

module _ {B M : Type 0} (k : Books B M) (ask : Query B M → Option (List B))
    (get_book : ℕ → Option B) (rules : Rules) (matches : List M) (sorted : List B)
    (a : Serves k ask get_book rules matches sorted) where
  abbrev S : ℕ → Selection B M → ℕ → Paginator B M → Type 0
  S = Sees k ask get_book rules matches sorted

  selected :
      (p : Paginator B M) (size t : ℕ) (s s' : Selection B M)
      → S size s t p
      → S size s' t (record p { selected = s' })
  selected p size t s s' h = record {
    offset = h.offset;
    shown = ShowsAt_selected ask rules matches sorted p h.offset s' h.shown;
    sized = h.sized;
    kept = refl;
    above = h.above;
    below = h.below;
  }

  -- The first selected book of a window, or its first book where none is selected.
  abbrev pub IsTarget : Selection B M → List B → Option B → Type 0
  IsTarget s bs o =
      ((j : ℕ) × (b : B) × (get_elem? bs j ≡ some b)
        × (contains k s b ≡ true)
        × All (λ c. contains k s c ≡ false) (take j bs)
        × (o ≡ some b))
      ⊎ (All (λ c. contains k s c ≡ false) bs × (o ≡ first? bs))

  find_selected_at :
      (s : Selection B M) (bs : List B) (j : ℕ) (b : B)
      → get_elem? bs j ≡ some b
      → contains k s b ≡ true
      → All (λ c. contains k s c ≡ false) (take j bs)
      → find_selected k s bs ≡ some b
  unfolding find_selected
  find_selected_at s [] j b at h before = cc
  find_selected_at s (c ∷ bs) zero b at h before =
      let e : c ≡ b = cc in rw (ap (contains k s) e ∙ h) (ap some e)
  find_selected_at s (c ∷ bs) (suc j) b at h before =
      rw before.0 (find_selected_at s bs j b at h before.1)

  find_selected-none :
      (s : Selection B M) (bs : List B)
      → All (λ c. contains k s c ≡ false) bs
      → find_selected k s bs ≡ none
  unfolding find_selected
  find_selected-none s [] h = refl
  find_selected-none s (c ∷ bs) h = rw h.0 (find_selected-none s bs h.1)

  target_lem :
      (s : Selection B M) (bs : List B) (o : Option B)
      → IsTarget s bs o
      → or_else k (find_selected k s bs) (first? bs) ≡ o
  target_lem s bs o h = elim h [
    | inl (j, b, at, chosen, before, e) ↦
        ap (λ x. or_else k x (first? bs)) (find_selected_at s bs j b at chosen before) ∙ sym e
    | inr (unselected, e) ↦
        ap (λ x. or_else k x (first? bs)) (find_selected-none s bs unselected) ∙ sym e
  ]

  -- Where a book comes to stand in the list, as the database now has it: at the start, if there is none.
  abbrev pub StandsAt : Option B → ℕ → Type 0
  StandsAt none t = t ≡ 0
  StandsAt (some b) t = get_elem? sorted t ≡ some (get_or (get_book (k.id b)) b)

  -- The selection after `refresh`, and what that reads.
  module _ (get_books : List ℕ → Option (List (ℕ × B))) where
    abbrev pub reloaded : Selection B M → Selection B M
    reloaded (all ms) = all ms
    reloaded (partial books r) = partial (get_or (get_books (map (λ e. e.0) books)) books) r
    reloaded (range start end r dir ms) =
        range (get_or (get_book (k.id start)) start) (get_or (get_book (k.id end)) end) r dir ms
    reloaded empty = empty

    abbrev pub Reads : Selection B M → Type 0
    Reads (partial books r) = (now : List (ℕ × B)) × (get_books (map (λ e. e.0) books) ≡ some now)
    Reads (all ms) = Unit {0}
    Reads (range start end r dir ms) = Unit {0}
    Reads empty = Unit {0}

    reload-Sees :
        (s : Selection B M) (q : Paginator B M) (size t : ℕ)
        → Reads s
        → S size s t q
        → Ends ask rules matches sorted
            (reload k ask get_book get_books s q)
            (S size (reloaded s) t)
    unfolding reload
    reload-Sees (all ms) q size t reads h = h
    reload-Sees empty q size t reads h = h
    reload-Sees (partial books r) q size t (now, e) h =
        subst
          (λ o.
            Ends ask rules matches sorted
              (elim o [ none ↦ (q, failed) | some now ↦ keep (partial now r) q ])
              (S size (partial (get_or o books) r) t))
          (sym e) (selected q size t (partial books r) (partial now r) h)
    reload-Sees (range start end r dir ms) q size t reads h = selected q size t _ _ h

  module _ (p : Paginator B M) (same_rules : p.sorting_rules ≡ rules)
      (same_matches : p.matching_rules ≡ matches) (lines : 0 < p.window_size) where
    abbrev cleared : Paginator B M
    cleared = record p { books = [] }

    window-cleared : window cleared ≡ []
    unfolding window
    window-cleared = either (leb p.window_top (min (p.window_top + p.window_size) 0)) (
        ap (take (min (p.window_top + p.window_size) 0 - p.window_top)) (drop_nil p.window_top)
        ∙ take_nil (min (p.window_top + p.window_size) 0 - p.window_top))

    reopened-Sees :
        (o : Option B) (t : ℕ)
        → StandsAt o t
        → Ends ask rules matches sorted
            (make_book_visible k ask get_book o cleared)
            (S p.window_size p.selected t)
    unfolding make_book_visible shows
    reopened-Sees none t at =
        open_page-Sees k ask get_book rules matches sorted a cleared t same_rules same_matches lines
          (inr at) none
          (a.from_top p.window_size ∙ ap (λ i. some (take p.window_size (drop i sorted))) (sym at))
    reopened-Sees (some b) t at =
        let c = get_or (get_book (k.id b)) b in
        let hidden : shows k (k.id b) (window cleared) ≡ false =
          ap (shows k (k.id b)) window-cleared in
        rw hidden (
          open_page-Sees k ask get_book rules matches sorted a cleared t same_rules same_matches
            lines (inl (lt-length sorted t c at)) (some c) (a.from_book p.window_size t c at))

    -- `refresh` succeeds if the books of a partial selection can be read and the database serves the
    -- pages of a sorted list: the book that is the first selected one of the window, or the first one
    -- where none is selected, is in the window where the list now has it, if the list has it; the
    -- window is full or shows all, its size is what it was, and the books of the selection are those
    -- that the database now has, or what they were where it does not have them.
    pub refresh-Sees :
        (get_books : List ℕ → Option (List (ℕ × B))) (o : Option B) (t : ℕ)
        → Reads get_books p.selected
        → IsTarget p.selected (window p) o
        → StandsAt o t
        → Ends ask rules matches sorted
            (refresh k ask get_book get_books p)
            (S p.window_size (reloaded get_books p.selected) t)
    unfolding refresh
    refresh-Sees get_books o t reads target at =
        Ends-bind ask rules matches sorted
          (make_book_visible k ask get_book
            (or_else k (find_selected k p.selected (window p)) (first? (window p))) cleared)
          _ (S p.window_size p.selected t) _
          (reopened-Sees _ t
            (subst (λ x. StandsAt x t) (sym (target_lem p.selected (window p) o target)) at))
          (λ q h.
            subst
              (λ s.
                Ends ask rules matches sorted (reload k ask get_book get_books s q)
                  (S p.window_size (reloaded get_books p.selected) t))
              (sym h.kept) (reload-Sees get_books p.selected q p.window_size t reads h))

  -- `sort_by` succeeds: the window shows a piece of the list in the new order, full or all of it, in
  -- which the book that was the first of the window is, and keeps its size and the selection.
  pub sort_by-Sees :
      (p : Paginator B M) (new_rules : Rules) (t : ℕ)
      → add_id new_rules ≡ rules
      → p.matching_rules ≡ matches
      → 0 < p.window_size
      → StandsAt (first? (window p)) t
      → Ends ask rules matches sorted
          (sort_by k ask get_book new_rules p)
          (S p.window_size p.selected t)
  unfolding sort_by
  sort_by-Sees p new_rules t e m lines at =
      reopened-Sees (record p { sorting_rules = add_id new_rules }) e m lines (first? (window p)) t
        at
