-- ===== src/Database/Paginator/Moves/Stepping.antt =====
-- The keys of `Paginator` (bookworm-database/src/paginator.rs) that move one selected book, and collapse a
-- selection of several to one.
use bookworm.Base.{
  ℕ, suc, ◌+◌, ◌-◌, ◌≤◌, ◌<◌, min, ◌≡◌, sym, ap, ◌∙◌, inl, inr, Option, none, some, List, length,
  get_elem?, lt-length, arith, Bool-cases, subst, take, drop, last?, ◌==◌, ==_iff, get_or,
}
use mathlib.Core.List.{reverse}
use bookworm.Database.Query.{Rules, QueryBuilder, Query}
use bookworm.Database.Selection.{Books, Selection, all, partial, range, empty, up, down, is_single}
use bookworm.Database.Paginator.{Paginator, failed, Run, ◌>>=◌, scroll_down, scroll_up}
use bookworm.Database.Paginator.Loading.{Ends}
use bookworm.Database.Paginator.Holding.{ShowsAt}
use bookworm.Database.Paginator.Jumps.{select, make_book_visible, select_and_make_visible, end}
use bookworm.Database.Paginator.Jumps.Serving.{Serves}
use bookworm.Database.Paginator.Jumps.Showing.{shows-Sees, make_book_visible-Sees}
use bookworm.Database.Paginator.Moves.{follow, read_last, step_up, step_down}
use bookworm.Database.Paginator.Moves.Marks.{
  Mark, marked, Marks, View, Finds, below-Finds, above-Finds, answer_below, answer_above,
}
use bookworm.Database.Paginator.Moves.Following.{follow_down-Sees, follow_up-Sees, select-View}

module _ {B M : Type 0} (k : Books B M) (ask : Query B M → Option (List B))
    (get_book : ℕ → Option B) (rules : Rules) (matches : List M) (sorted : List B)
    (a : Serves k ask get_book rules matches sorted) where
  abbrev pub Viewed : ℕ → Mark → Run B M → Type 0
  Viewed size m r = Ends ask rules matches sorted r (View ask rules matches sorted size m)

  same_id :
      (i j : ℕ) (b c : B)
      → get_elem? sorted i ≡ some b
      → get_elem? sorted j ≡ some c
      → (k.id b == k.id c) ≡ (i == j)
  same_id i j b c at at' = elim (Bool-cases (i == j)) [
    | inl same ↦
        let e : some b ≡ some c = sym at ∙ ap (get_elem? sorted) ((==_iff i j).0 same) ∙ at' in
        let e' : b ≡ c = cc in rw same ((==_iff (k.id b) (k.id c)).1 (ap k.id e'))
    | inr other ↦ elim (Bool-cases (k.id b == k.id c)) [
      | inl same ↦
          let e = a.distinct i j b c at at' ((==_iff (k.id b) (k.id c)).0 same) in
          absurd (ground arith)
      | inr apart ↦ apart ∙ sym other
    ]
  ]

  reached :
      {b : B} (o : Option B) (from to : ℕ)
      → get_elem? sorted from ≡ some b
      → Finds ask rules matches sorted o from to
      → get_elem? sorted to ≡ some (get_or o b)
  reached o from to at (inl (e, same)) = rw (e, same) at
  reached o from to at (inr (c, e, there)) = rw e there

  -- A selection is single where its anchor is its head.
  pub is_single_lem :
      (s : Selection B M) (anchor head : ℕ)
      → Marks ask rules matches sorted s (marked anchor head)
      → is_single k s ≡ (anchor == head)
  unfolding is_single
  is_single_lem (all ms) anchor head m = absurd m
  is_single_lem (partial books r) anchor head m = absurd m
  is_single_lem empty anchor head m = absurd m
  is_single_lem (range start end r down ms) anchor head m = same_id anchor head start end m.0 m.1
  is_single_lem (range start end r up ms) anchor head m =
      same_id head anchor start end m.0 m.1 ∙ ground arith

  -- The two ends of a selection are in the list.
  pub Marks_inside :
      (s : Selection B M) (anchor head : ℕ)
      → Marks ask rules matches sorted s (marked anchor head)
      → (anchor < length sorted) × (head < length sorted)
  Marks_inside (all ms) anchor head m = absurd m
  Marks_inside (partial books r) anchor head m = absurd m
  Marks_inside empty anchor head m = absurd m
  Marks_inside (range start end r down ms) anchor head m =
      (lt-length sorted anchor start m.0, lt-length sorted head end m.1)
  Marks_inside (range start end r up ms) anchor head m =
      (lt-length sorted anchor end m.1, lt-length sorted head start m.0)

  module _ (p : Paginator B M) (offset head len : ℕ) (b : B)
      (s : ShowsAt ask rules matches sorted p offset) (above : offset ≤ head)
      (below : head < offset + p.window_size) where
    abbrev lower : ℕ
    lower = min (head + len) (length sorted - 1)

    answered :
        (builder : QueryBuilder) (book : Option B) (ms : List M) (f : Option B → Run B M)
        (books : List B) (m : Mark)
        → ask (record { builder = builder; book = book; match_rules = ms }) ≡ some books
        → Viewed p.window_size m (f (last? books))
        → Viewed p.window_size m (read_last k ask builder book ms p f)
    answered builder book ms f books m e v =
        subst (λ o. Viewed p.window_size m (elim o [ none ↦ (p, failed) | some l ↦ f (last? l) ]))
          (sym e) v

    pub step_down-View :
        get_elem? sorted head ≡ some b
        → Viewed p.window_size (marked lower lower) (step_down k ask len b p)
    unfolding step_down
    step_down-View at =
        let lt = lt-length sorted head b at in
        answered _ _ _
          (λ found.
            follow k ask (scroll_down ask len) (get_or found b) p >>= select (get_or found b))
          (take len (drop (suc head) sorted)) (marked lower lower)
          (answer_below ask rules matches sorted a.pages p.sorting_rules p.matching_rules
            s.held.same_rules s.held.same_matches head b at len)
          (let c = get_or (last? (take len (drop (suc head) sorted))) b in
            let there =
              reached (last? (take len (drop (suc head) sorted))) head lower at
                (below-Finds ask rules matches sorted len head lt) in
            select-View k ask get_book rules matches sorted a p offset head s above below lower c
              (follow k ask (scroll_down ask len) c p)
              (follow_down-Sees k ask get_book rules matches sorted a p offset head s above below
                len c lt there)
              there)

    pub step_up-View :
        get_elem? sorted head ≡ some b
        → Viewed p.window_size (marked (head - len) (head - len)) (step_up k ask len b p)
    unfolding step_up
    step_up-View at =
        let lt = lt-length sorted head b at in
        answered _ _ _
          (λ found. follow k ask (scroll_up ask len) (get_or found b) p >>= select (get_or found b))
          (take len (reverse (take head sorted))) (marked (head - len) (head - len))
          (answer_above ask rules matches sorted a.pages p.sorting_rules p.matching_rules
            s.held.same_rules s.held.same_matches head b at len)
          (let c = get_or (last? (take len (reverse (take head sorted)))) b in
            let there =
              reached (last? (take len (reverse (take head sorted)))) head (head - len) at
                (above-Finds ask rules matches sorted len head lt) in
            select-View k ask get_book rules matches sorted a p offset head s above below
              (head - len) c (follow k ask (scroll_up ask len) c p)
              (follow_up-Sees k ask get_book rules matches sorted a p offset head s above below len
                c there)
              there)

    -- Another book than the head is selected, and made visible.
    pub collapse-View :
        (to : ℕ)
        → 0 < p.window_size
        → get_elem? sorted to ≡ some b
        → Viewed p.window_size (marked to to) (select_and_make_visible k ask get_book b p)
    unfolding select_and_make_visible
    collapse-View to lines at =
        select-View k ask get_book rules matches sorted a p offset head s above below to b
          (make_book_visible k ask get_book (some b) p)
          (make_book_visible-Sees k ask get_book rules matches sorted a p to b s.held.same_rules
            s.held.same_matches lines at
            (shows-Sees k ask get_book rules matches sorted a p offset to b s at))
          at
