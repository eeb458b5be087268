-- ===== src/Database/Paginator/Moves/Extending.antt =====
-- `select_up` and `select_down` of `Paginator` (bookworm-database/src/paginator.rs) move the head of the
-- selection and leave its anchor.
use bookworm.Base.{
  ℕ, suc, ◌+◌, ◌-◌, ◌≤◌, ◌<◌, min, ◌≡◌, refl, sym, ap, ◌∙◌, inl, inr, true, false, Option, none,
  some, List, length, get_elem?, lt-length, arith, Bool-cases, subst, take, drop, last?, compare,
  if◌then◌else◌, ltb,
}
use mathlib.Core.List.{reverse}
use bookworm.Database.Query.{Rules, QueryBuilder, Query}
use bookworm.Database.Selection.{
  Books, Selection, all, partial, range, empty, up, down, is_lt, is_gt,
}
use bookworm.Database.Paginator.{Paginator, failed, Run, ◌>>=◌, scroll_down, scroll_up}
use bookworm.Database.Paginator.Loading.{Ends}
use bookworm.Database.Paginator.Holding.{ShowsAt}
use bookworm.Database.Paginator.Jumps.{keep}
use bookworm.Database.Paginator.Jumps.Serving.{Serves}
use bookworm.Database.Paginator.Moves.{
  follow, read_last, select_up_on, select_up, select_down_on, select_down,
}
use bookworm.Database.Paginator.Moves.Marks.{
  marked, Marks, View, ShowsAt_selected, Finds, below-Finds, above-Finds, answer_below,
  answer_above,
}
use bookworm.Database.Paginator.Moves.Following.{follow_down-Sees, follow_up-Sees, keep-View}

module _ {B M : Type 0} (k : Books B M) (ask : Query B M → Option (List B))
    (get_book : ℕ → Option B) (rules : Rules) (matches : List M) (sorted : List B)
    (a : Serves k ask get_book rules matches sorted) where
  abbrev Viewed : ℕ → ℕ → ℕ → Run B M → Type 0
  Viewed size anchor head r =
      Ends ask rules matches sorted r (View ask rules matches sorted size (marked anchor head))

  module _ (p : Paginator B M) (offset anchor head len : ℕ)
      (s : ShowsAt ask rules matches sorted p offset) (above : offset ≤ head)
      (below : head < offset + p.window_size) where
    abbrev lower : ℕ
    lower = min (head + len) (length sorted - 1)

    kept :
        (new : Selection B M) (to : ℕ)
        → to ≡ head
        → Marks ask rules matches sorted new (marked anchor to)
        → Viewed p.window_size anchor to (keep new p)
    kept new to e m = record {
      offset = offset;
      shown = ShowsAt_selected ask rules matches sorted p offset new s;
      sized = refl;
      selects = m;
      visible = (omega arith, omega arith);
    }

    abbrev after_down : Selection B M → (B → Selection B M) → Option B → Run B M
    after_down old new o = elim o [
      | none ↦ keep old p
      | some b ↦ follow k ask (scroll_down ask len) b p >>= keep (new b)
    ]

    abbrev after_up : Selection B M → (B → Selection B M) → Option B → Run B M
    after_up old new o = elim o [
      | none ↦ keep old p
      | some b ↦ follow k ask (scroll_up ask len) b p >>= keep (new b)
    ]

    -- What follows the query: nothing is found and the selection stays, or the window follows.
    found_down :
        (o : Option B) (old : Selection B M) (new : B → Selection B M)
        → head < length sorted
        → Finds ask rules matches sorted o head lower
        → Marks ask rules matches sorted old (marked anchor head)
        → ((b : B)
            → get_elem? sorted lower ≡ some b
            → Marks ask rules matches sorted (new b) (marked anchor lower))
        → Viewed p.window_size anchor lower (after_down old new o)
    found_down o old new h (inl (e, same)) m n = rw e (
        kept old lower same
          (subst (λ i. Marks ask rules matches sorted old (marked anchor i)) (sym same) m))
    found_down o old new h (inr (b, e, at)) m n = rw e (
        keep-View k ask get_book rules matches sorted a p offset head s above below anchor lower
          (new b) (follow k ask (scroll_down ask len) b p)
          (follow_down-Sees k ask get_book rules matches sorted a p offset head s above below len b
            h at)
          (n b at))

    found_up :
        (o : Option B) (old : Selection B M) (new : B → Selection B M)
        → Finds ask rules matches sorted o head (head - len)
        → Marks ask rules matches sorted old (marked anchor head)
        → ((b : B)
            → get_elem? sorted (head - len) ≡ some b
            → Marks ask rules matches sorted (new b) (marked anchor (head - len)))
        → Viewed p.window_size anchor (head - len) (after_up old new o)
    found_up o old new (inl (e, same)) m n = rw e (
        kept old (head - len) same
          (subst (λ i. Marks ask rules matches sorted old (marked anchor i)) (sym same) m))
    found_up o old new (inr (b, e, at)) m n = rw e (
        keep-View k ask get_book rules matches sorted a p offset head s above below anchor
          (head - len) (new b) (follow k ask (scroll_up ask len) b p)
          (follow_up-Sees k ask get_book rules matches sorted a p offset head s above below len b
            at)
          (n b at))

    answered :
        (builder : QueryBuilder) (book : Option B) (ms : List M) (f : Option B → Run B M)
        (books : List B) (to : ℕ)
        → ask (record { builder = builder; book = book; match_rules = ms }) ≡ some books
        → Viewed p.window_size anchor to (f (last? books))
        → Viewed p.window_size anchor to (read_last k ask builder book ms p f)
    answered builder book ms f books to e v =
        subst
          (λ o.
            Viewed p.window_size anchor to (elim o [ none ↦ (p, failed) | some l ↦ f (last? l) ]))
          (sym e) v

    compared :
        (r : Rules) (i j : ℕ) (b c : B)
        → r ≡ rules
        → get_elem? sorted i ≡ some b
        → get_elem? sorted j ≡ some c
        → k.cmp_columns r b c ≡ compare i j
    compared r i j b c e at at' = ap (λ r'. k.cmp_columns r' b c) e ∙ a.ordered i j b c at at'

    flipped_down :
        (start end : B) (r : Rules) (ms : List M) (b : B)
        → Marks ask rules matches sorted (range start end r up ms) (marked anchor head)
        → get_elem? sorted lower ≡ some b
        → Marks ask rules matches sorted
            (if is_gt (k.cmp_columns r b end) then range end b r down ms else range b end r up ms)
            (marked anchor lower)
    flipped_down start end r ms b m at =
        rw (compared r lower anchor b end m.3 at m.1) (elim (Bool-cases (ltb anchor lower)) [
          | inl past ↦
              rw (let e : is_gt (compare lower anchor) ≡ true = ground arith in e)
                (m.1, at, ground arith, m.3, m.4)
          | inr before ↦
              rw (let e : is_gt (compare lower anchor) ≡ false = ground arith in e)
                (at, m.1, ground arith, m.3, m.4)
        ])

    flipped_up :
        (start end : B) (r : Rules) (ms : List M) (b : B)
        → Marks ask rules matches sorted (range start end r down ms) (marked anchor head)
        → get_elem? sorted (head - len) ≡ some b
        → Marks ask rules matches sorted
            (if is_lt (k.cmp_columns r b start)
              then range b start r up ms
              else range start b r down ms)
            (marked anchor (head - len))
    flipped_up start end r ms b m at =
        rw (compared r (head - len) anchor b start m.3 at m.0)
          (elim (Bool-cases (ltb (head - len) anchor)) [
            | inl past ↦
                rw (let e : is_lt (compare (head - len) anchor) ≡ true = ground arith in e)
                  (at, m.0, ground arith, m.3, m.4)
            | inr before ↦
                rw (let e : is_lt (compare (head - len) anchor) ≡ false = ground arith in e)
                  (m.0, at, ground arith, m.3, m.4)
          ])

    extended_down :
        (old : Selection B M)
        → Marks ask rules matches sorted old (marked anchor head)
        → Viewed p.window_size anchor lower (select_down_on k ask len old p)
    unfolding select_down_on
    extended_down (all ms) m = absurd m
    extended_down (partial books r) m = absurd m
    extended_down empty m = absurd m
    extended_down (range start end r down ms) m =
        let lt = lt-length sorted head end m.1 in
        answered _ _ _ (after_down (range start end r down ms) (λ b. range start b r down ms))
          (take len (drop (suc head) sorted)) lower
          (answer_below ask rules matches sorted a.pages p.sorting_rules ms s.held.same_rules m.4
            head end m.1 len)
          (found_down _ (range start end r down ms) (λ b. range start b r down ms) lt
            (below-Finds ask rules matches sorted len head lt) m
            (λ b at. (m.0, at, omega arith, m.3, m.4)))
    extended_down (range start end r up ms) m =
        let lt = lt-length sorted head start m.0 in
        answered _ _ _
          (after_down (range start end r up ms) (λ b.
            if is_gt (k.cmp_columns r b end) then range end b r down ms else range b end r up ms))
          (take len (drop (suc head) sorted)) lower
          (answer_below ask rules matches sorted a.pages p.sorting_rules ms s.held.same_rules m.4
            head start m.0 len)
          (found_down _ (range start end r up ms)
            (λ b.
              if is_gt (k.cmp_columns r b end) then range end b r down ms else range b end r up ms)
            lt (below-Finds ask rules matches sorted len head lt) m
            (λ b at. flipped_down start end r ms b m at))

    extended_up :
        (old : Selection B M)
        → Marks ask rules matches sorted old (marked anchor head)
        → Viewed p.window_size anchor (head - len) (select_up_on k ask len old p)
    unfolding select_up_on
    extended_up (all ms) m = absurd m
    extended_up (partial books r) m = absurd m
    extended_up empty m = absurd m
    extended_up (range start end r down ms) m =
        let lt = lt-length sorted head end m.1 in
        answered _ _ _
          (after_up (range start end r down ms) (λ b.
            if is_lt (k.cmp_columns r b start)
            then range b start r up ms
            else range start b r down ms))
          (take len (reverse (take head sorted))) (head - len)
          (answer_above ask rules matches sorted a.pages p.sorting_rules ms s.held.same_rules m.4
            head end m.1 len)
          (found_up _ (range start end r down ms)
            (λ b.
              if is_lt (k.cmp_columns r b start)
              then range b start r up ms
              else range start b r down ms)
            (above-Finds ask rules matches sorted len head lt) m
            (λ b at. flipped_up start end r ms b m at))
    extended_up (range start end r up ms) m =
        let lt = lt-length sorted head start m.0 in
        answered _ _ _ (after_up (range start end r up ms) (λ b. range b end r up ms))
          (take len (reverse (take head sorted))) (head - len)
          (answer_above ask rules matches sorted a.pages p.sorting_rules p.matching_rules
            s.held.same_rules s.held.same_matches head start m.0 len)
          (found_up _ (range start end r up ms) (λ b. range b end r up ms)
            (above-Finds ask rules matches sorted len head lt) m
            (λ b at. (at, m.1, omega arith, m.3, m.4)))

  -- `select_down` moves the head of a selection down by so many books, or to the last, and leaves its
  -- anchor: the books between them are selected. The head is on screen again.
  pub select_down-View :
      (size anchor head len : ℕ) (p : Paginator B M)
      → View ask rules matches sorted size (marked anchor head) p
      → Viewed size anchor (min (head + len) (length sorted - 1)) (select_down k ask len p)
  unfolding select_down
  select_down-View size anchor head len p v =
      subst (λ n. Viewed n anchor (min (head + len) (length sorted - 1)) (select_down k ask len p))
        v.sized
        (extended_down (record p { selected = empty }) v.offset anchor head len
          (ShowsAt_selected ask rules matches sorted p v.offset empty v.shown) v.visible.0
          (omega (arith, v.sized, v.visible.1)) p.selected v.selects)

  -- `select_up` moves the head up by so many books, or to the first, and leaves the anchor.
  pub select_up-View :
      (size anchor head len : ℕ) (p : Paginator B M)
      → View ask rules matches sorted size (marked anchor head) p
      → Viewed size anchor (head - len) (select_up k ask len p)
  unfolding select_up
  select_up-View size anchor head len p v =
      subst (λ n. Viewed n anchor (head - len) (select_up k ask len p)) v.sized
        (extended_up (record p { selected = empty }) v.offset anchor head len
          (ShowsAt_selected ask rules matches sorted p v.offset empty v.shown) v.visible.0
          (omega (arith, v.sized, v.visible.1)) p.selected v.selects)
