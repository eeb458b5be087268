-- ===== src/Database/Paginator/Up.antt =====
-- Scrolling a `Paginator` (bookworm-database/src/paginator.rs) up moves the window on the sorted list.
use bookworm.Base.{
  ℕ, ◌+◌, ◌-◌, ◌≤◌, ◌<◌, min, ◌≡◌, sym, ap, ◌∙◌, inl, inr, true, false, Option, List, [], ◌++◌,
  length, take, drop, take_last, drop_last, length-append, length-take, drop_past, ltb, leb, arith,
  Bool-cases, subst,
}
use bookworm.Database.Query.{Rules, Query}
use bookworm.Database.Paginator.{
  Paginator, ◌>>=◌, at_top, load_books_after_end, load_books_before_start, lower, settle_up,
  scroll_up,
}
use bookworm.Database.Paginator.Loading.{
  Answers, Holds, Ends, Ends-bind, loaded_after, loaded_before,
}
use bookworm.Database.Paginator.Holding.{
  nil_of_length, length_all, Holds_after, Holds_before, Holds_top, ShowsAt, last_offset,
}

module _ {B M : Type 0} (ask : Query B M → Option (List B)) (rules : Rules) (matches : List M)
    (all : List B) where
  abbrev Shows : Paginator B M → ℕ → Type 0
  Shows = ShowsAt ask rules matches all

  -- A window that is shown stands no further down than the last offset.
  pub offset-le-last_offset :
      (p : Paginator B M) (offset : ℕ)
      → Shows p offset
      → offset ≤ last_offset ask rules matches all p.window_size
  offset-le-last_offset p offset s = elim s.full [
    | inl f ↦ omega (arith, s.place, length_all ask rules matches all p s.pre s.post s.held)
    | inr (no_pre, no_post, top) ↦ omega (arith, s.place, ap length no_pre)
  ]

  module _ (a : Answers ask rules matches all) where
    module _ (p : Paginator B M) (offset : ℕ) (pre post : List B)
        (h : Holds ask rules matches all p pre post) (e : offset ≡ length pre + p.window_top)
        (k : offset ≤ last_offset ask rules matches all p.window_size) where
      abbrev wanted : ℕ
      wanted = p.window_top + p.window_size - length p.books

      abbrev grown : Paginator B M
      grown = record p { books = p.books ++ take wanted post }

      length_grown : length grown.books ≡ length p.books + min wanted (length post)
      length_grown =
          length-append p.books (take wanted post)
          ∙ ap (λ n. length p.books + n) (length-take wanted post)

      lowered :
          ltb (p.window_top + p.window_size) (length p.books) ≡ false
          → Ends ask rules matches all (lower grown) (λ q. Shows q offset)
      lowered l = record {
        pre = pre;
        post = drop wanted post;
        held =
            Holds_top ask rules matches all grown pre (drop wanted post)
              (Holds_after ask rules matches all p pre post h wanted)
              (min (length grown.books - p.window_size) p.window_top);
        place = ground (arith, length_grown, length_all ask rules matches all p pre post h);
        full = elim (Bool-cases (leb p.window_size (length all))) [
          | inl enough ↦
              inl (ground (arith, length_grown, length_all ask rules matches all p pre post h))
          | inr few ↦ inr (
            nil_of_length pre (ground (arith, length_all ask rules matches all p pre post h)),
            drop_past wanted post (ground (arith, length_all ask rules matches all p pre post h)),
            ground (arith, length_all ask rules matches all p pre post h),
          )
        ];
      }

      -- The end of `scroll_up`: the books behind the last are read until the window is full.
      up_settled : Ends ask rules matches all (settle_up ask p) (λ q. Shows q offset)
      unfolding settle_up
      up_settled = elim (Bool-cases (ltb (p.window_top + p.window_size) (length p.books))) [
        | inl l ↦
            rw l (record { pre = pre; post = post; held = h; place = e; full = inl (ground arith) })
        | inr l ↦ rw l (
            Ends-bind ask rules matches all (load_books_after_end ask wanted p) lower _
              (λ q. Shows q offset) (loaded_after ask rules matches all a p pre post h wanted)
              (λ q e'.
                subst (λ r. Ends ask rules matches all (lower r) (λ q'. Shows q' offset)) (sym e')
                  (lowered l)))
      ]

    module _ (len : ℕ) (p : Paginator B M) (offset : ℕ) (lines : 0 < p.window_size)
        (s : Shows p offset) where
      covered : p.books ≡ [] → all ≡ []
      covered empty = elim s.full [
        | inl f ↦ absurd (omega (arith, ap length empty))
        | inr (no_pre, no_post, top) ↦ nil_of_length all (
            omega (
              arith,
              ap length empty,
              ap length no_pre,
              ap length no_post,
              length_all ask rules matches all p s.pre s.post s.held,
            ))
      ]

      abbrev more : ℕ
      more = len - p.window_top

      abbrev filled : Paginator B M
      filled = record p { books = take_last more s.pre ++ p.books; window_top = 0 }

      read_up :
          ltb p.window_top len ≡ true
          → Ends ask rules matches all (settle_up ask filled) (λ q. Shows q (offset - len))
      read_up l =
          up_settled filled (offset - len) (drop_last more s.pre) s.post
            (Holds_top ask rules matches all _ _ _
              (Holds_before ask rules matches all p s.pre s.post s.held more) 0)
            (ground (arith, s.place, length-take (length s.pre - more) s.pre))
            (omega (arith, offset-le-last_offset p offset s))

      -- Scrolling up moves the window by the number of lines, or to the start. What must be read
      -- is read, and the window stays full.
      pub scroll_up-ShowsAt :
          Ends ask rules matches all (scroll_up ask len p) (λ q. Shows q (offset - len))
      unfolding scroll_up
      scroll_up-ShowsAt = elim (Bool-cases (ltb p.window_top len)) [
        | inl l ↦ rw l (
            Ends-bind ask rules matches all (load_books_before_start ask more p >>= at_top 0)
              (settle_up ask) (λ q. q ≡ filled) (λ q. Shows q (offset - len))
              (Ends-bind ask rules matches all (load_books_before_start ask more p) (at_top 0) _
                (λ q. q ≡ filled)
                (loaded_before ask rules matches all a p s.pre s.post s.held covered more)
                (λ q e'.
                  ap
                    (λ (r : Paginator B M).
                      let r' : Paginator B M = record r { window_top = 0 } in r')
                    e'))
              (λ q e'.
                subst
                  (λ r.
                    Ends ask rules matches all (settle_up ask r) (λ q'. Shows q' (offset - len)))
                  (sym e') (read_up l)))
        | inr l ↦ rw l (
            up_settled (record p { window_top = p.window_top - len }) (offset - len) s.pre s.post
              (Holds_top ask rules matches all p s.pre s.post s.held (p.window_top - len))
              (ground (arith, s.place)) (omega (arith, offset-le-last_offset p offset s)))
      ]
