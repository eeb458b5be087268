-- ===== src/Database/Paginator/Down.antt =====
-- Scrolling a `Paginator` (bookworm-database/src/paginator.rs) down moves the window on the sorted list.
use bookworm.Base.{
  ℕ, ◌+◌, ◌-◌, ◌≤◌, ◌<◌, min, ◌≡◌, refl, sym, ap, ◌∙◌, inl, inr, true, false, Option, List, [],
  ◌++◌, length, take, drop, take_last, drop_last, length-append, length-take, length-drop,
  drop_past, ltb, leb, arith, Bool-cases, subst,
}
use bookworm.Database.Query.{Rules, Query}
use bookworm.Database.Paginator.{
  Paginator, ◌>>=◌, at_top, load_books_after_end, load_books_before_start, settle_down, scroll_down,
}
use bookworm.Database.Paginator.Loading.{
  Answers, Holds, Ends, Ends-bind, loaded_after, loaded_before,
}
use bookworm.Database.Paginator.Holding.{
  nil_of_length, length_all, Holds_after, Holds_before, Holds_top, ShowsAt, last_offset,
}

module _ {B M : Type 0} (ask : Query B M → Option (List B)) (rules : Rules) (matches : List M)
    (all : List B) where
  abbrev Shows : Paginator B M → ℕ → Type 0
  Shows = ShowsAt ask rules matches all

  module _ (a : Answers ask rules matches all) (len : ℕ) where
    -- The offset after the window moved down.
    abbrev below : Paginator B M → ℕ → ℕ
    below p offset = min (offset + len) (last_offset ask rules matches all p.window_size)

    -- The books that are there are enough.
    down_within :
        (p : Paginator B M) (offset : ℕ) (pre post : List B)
        → Holds ask rules matches all p pre post
        → offset ≡ length pre + p.window_top
        → ltb (p.window_top + p.window_size + len) (length p.books) ≡ true
        → Shows (record p { window_top = p.window_top + len }) (below p offset)
    down_within p offset pre post h e l = record {
      pre = pre;
      post = post;
      held = Holds_top ask rules matches all p pre post h (p.window_top + len);
      place = ground (arith, length_all ask rules matches all p pre post h);
      full = inl (ground arith);
    }

    -- The books behind the last are read as well, and fill the window or not.
    module _ (p : Paginator B M) (offset : ℕ) (pre post : List B)
        (h : Holds ask rules matches all p pre post) (e : offset ≡ length pre + p.window_top)
        (l : ltb (p.window_top + p.window_size + len) (length p.books) ≡ false) where
      abbrev wanted : ℕ
      wanted = p.window_top + p.window_size + len - length p.books

      abbrev grown : Paginator B M
      grown = record p { books = p.books ++ take wanted post }

      held_grown : Holds ask rules matches all grown pre (drop wanted post)
      held_grown = Holds_after ask rules matches all p pre post h wanted

      length_grown : length grown.books ≡ length p.books + min wanted (length post)
      length_grown =
          length-append p.books (take wanted post)
          ∙ ap (λ n. length p.books + n) (length-take wanted post)

      down_full :
          ltb (length grown.books) grown.window_size ≡ false
          → Ends ask rules matches all
              (at_top (length grown.books - grown.window_size) grown)
              (λ q. Shows q (below p offset))
      down_full k = record {
        pre = pre;
        post = drop wanted post;
        held =
            Holds_top ask rules matches all grown pre (drop wanted post) held_grown
              (length grown.books - grown.window_size);
        place = ground (arith, length_grown, length_all ask rules matches all p pre post h);
        full = inl (ground arith);
      }

      abbrev missing : ℕ
      missing = grown.window_size - length grown.books

      abbrev filled : Paginator B M
      filled = record grown { books = take_last missing pre ++ grown.books; window_top = 0 }

      module _ (k : ltb (length grown.books) grown.window_size ≡ true) where
        nothing_behind : length post ≤ wanted
        nothing_behind = ground (arith, length_grown)

        covered : grown.books ≡ [] → all ≡ []
        covered none_left =
            let positive : 0 < p.window_size = ground arith in
            let empty : length p.books ≡ 0 = omega (arith, length_grown, ap length none_left) in
            let no_pre = h.anchored (nil_of_length p.books empty) in
            nil_of_length all (
              omega (
                arith,
                length_grown,
                ap length none_left,
                ap length no_pre,
                nothing_behind,
                length_all ask rules matches all p pre post h,
                positive,
              ))

        Shows-filled : Shows filled (below p offset)
        Shows-filled = record {
          pre = drop_last missing pre;
          post = drop wanted post;
          held =
              Holds_top ask rules matches all _ _ _
                (Holds_before ask rules matches all grown pre (drop wanted post) held_grown missing)
                0;
          place = ground (
            arith,
            length_grown,
            length_all ask rules matches all p pre post h,
            length-take (length pre - missing) pre,
          );
          full = elim (Bool-cases (leb missing (length pre))) [
            | inl enough ↦ inl (
                ground (
                  arith,
                  length_grown,
                  length-append (take_last missing pre) grown.books,
                  length-drop (length pre - missing) pre,
                ))
            | inr few ↦ inr (
              nil_of_length (drop_last missing pre)
                  (ground (arith, length-take (length pre - missing) pre)),
              drop_past wanted post nothing_behind,
              refl,
            )
          ];
        }

        down_short :
            Ends ask rules matches all
              (load_books_before_start ask missing grown >>= at_top 0)
              (λ q. Shows q (below p offset))
        down_short =
            Ends-bind ask rules matches all (load_books_before_start ask missing grown) (at_top 0) _
              (λ q. Shows q (below p offset))
              (loaded_before ask rules matches all a grown pre (drop wanted post) held_grown covered
                missing)
              (λ q e'.
                subst (λ r. Shows (record r { window_top = 0 }) (below p offset)) (sym e')
                  Shows-filled)

      down_settled :
          Ends ask rules matches all (settle_down ask grown) (λ q. Shows q (below p offset))
      unfolding settle_down
      down_settled = elim (Bool-cases (ltb (length grown.books) grown.window_size)) [
        | inl k ↦ rw k (down_short k)
        | inr k ↦ rw k (down_full k)
      ]

    -- Scrolling down from wherever the paginator stands: it moves by the number of lines, or as far
    -- as the last offset.
    pub scroll_down-ShowsAt :
        (p : Paginator B M) (offset : ℕ) (pre post : List B)
        → Holds ask rules matches all p pre post
        → offset ≡ length pre + p.window_top
        → Ends ask rules matches all (scroll_down ask len p) (λ q. Shows q (below p offset))
    unfolding scroll_down
    scroll_down-ShowsAt p offset pre post h e =
        elim (Bool-cases (ltb (p.window_top + p.window_size + len) (length p.books))) [
          | inl l ↦ rw l (down_within p offset pre post h e l)
          | inr l ↦ rw l (
              Ends-bind ask rules matches all
                (load_books_after_end ask (wanted p offset pre post h e l) p) (settle_down ask) _
                (λ q. Shows q (below p offset))
                (loaded_after ask rules matches all a p pre post h (wanted p offset pre post h e l))
                (λ q e'.
                  subst
                    (λ r.
                      Ends ask rules matches all (settle_down ask r)
                        (λ q'. Shows q' (below p offset)))
                    (sym e') (down_settled p offset pre post h e l)))
        ]
