-- ===== src/Database/Paginator/Sessions.antt =====
-- A whole session of a `Paginator` (bookworm-database/src/paginator.rs): it is made, gets the size of
-- its window, and is scrolled.
use bookworm.Base.{
  ℕ, ◌+◌, ◌-◌, ◌<◌, min, ◌≡◌, refl, ap, ◌∙◌, Option, List, [], ◌∷◌, length, take, drop, arith,
  subst,
}
use bookworm.Database.Query.{Rules, Query, add_id}
use bookworm.Database.Paginator.{
  Paginator, done, failed, panicked, Run, ◌>>=◌, new, window, scroll_down, scroll_up,
  update_window_size,
}
use bookworm.Database.Paginator.Fields.{Kept-down, Kept-up}
use bookworm.Database.Paginator.Loading.{Answers, Holds, Ends, Ends-bind, Ends_map}
use bookworm.Database.Paginator.Holding.{ShowsAt, window-ShowsAt}
use bookworm.Database.Paginator.Down.{scroll_down-ShowsAt}
use bookworm.Database.Paginator.Up.{scroll_up-ShowsAt}

pub data Scroll : Type 0 where
  down up : ℕ → Scroll

module _ {B M : Type 0} (ask : Query B M → Option (List B)) where
  abbrev pub scroll : Scroll → Paginator B M → Run B M
  scroll (down n) = scroll_down ask n
  scroll (up n) = scroll_up ask n

  abbrev pub scrolls : List Scroll → Paginator B M → Run B M
  scrolls [] p = (p, done)
  scrolls (e ∷ es) p = scroll e p >>= scrolls es

  -- No method changes the size of the window.
  abbrev Sized : Run B M → ℕ → Type 0
  Sized r size = r.0.window_size ≡ size

  module _ (rules : Rules) (matches : List M) (all : List B)
      (a : Answers ask (add_id rules) matches all) (size : ℕ) (lines : 0 < size) where
    -- Where the window stands after a list of scrolls, if it stood at an offset: a scroll down
    -- ends at the last page, one up at the first.
    abbrev pub offset_after : List Scroll → ℕ → ℕ
    offset_after [] offset = offset
    offset_after (down n ∷ es) offset = offset_after es (min (offset + n) (length all - size))
    offset_after (up n ∷ es) offset = offset_after es (offset - n)

    abbrev E : Run B M → (Paginator B M → Type 0) → Type 0
    E = Ends ask (add_id rules) matches all

    -- The window stands at an offset and has its size.
    abbrev pub Stands : ℕ → Paginator B M → Type 0
    Stands offset p = ShowsAt ask (add_id rules) matches all p offset × (p.window_size ≡ size)

    Ends-Sized :
        (r : Run B M) (offset : ℕ)
        → E r (λ q. ShowsAt ask (add_id rules) matches all q offset)
        → Sized r size
        → E r (Stands offset)
    Ends-Sized (p, done) offset h k = (h, k)
    Ends-Sized (p, failed) offset h k = h
    Ends-Sized (p, panicked) offset h k = h

    scroll-Stands :
        (e : Scroll) (p : Paginator B M) (offset : ℕ)
        → Stands offset p
        → E (scroll e p) (Stands (offset_after (e ∷ []) offset))
    scroll-Stands (down n) p offset h =
        Ends-Sized (scroll_down ask n p) (min (offset + n) (length all - size))
          (subst
            (λ s.
              E (scroll_down ask n p)
                (λ q. ShowsAt ask (add_id rules) matches all q (min (offset + n) (length all - s))))
            h.1
            (scroll_down-ShowsAt ask (add_id rules) matches all a n p offset h.0.pre h.0.post
              h.0.held h.0.place))
          (Kept-down ask (λ q. q.window_size) (λ q l t. refl) n p ∙ h.1)
    scroll-Stands (up n) p offset h =
        Ends-Sized (scroll_up ask n p) (offset - n)
          (scroll_up-ShowsAt ask (add_id rules) matches all a n p offset (omega arith) h.0)
          (Kept-up ask (λ q. q.window_size) (λ q l t. refl) n p ∙ h.1)

    scrolls-Stands :
        (es : List Scroll) (p : Paginator B M) (offset : ℕ)
        → Stands offset p
        → E (scrolls es p) (Stands (offset_after es offset))
    scrolls-Stands [] p offset h = h
    scrolls-Stands (down n ∷ es) p offset h =
        Ends-bind ask (add_id rules) matches all (scroll (down n) p) (scrolls es)
          (Stands (min (offset + n) (length all - size))) _ (scroll-Stands (down n) p offset h)
          (λ q k. scrolls-Stands es q (min (offset + n) (length all - size)) k)
    scrolls-Stands (up n ∷ es) p offset h =
        Ends-bind ask (add_id rules) matches all (scroll (up n) p) (scrolls es)
          (Stands (offset - n)) _ (scroll-Stands (up n) p offset h)
          (λ q k. scrolls-Stands es q (offset - n) k)

    pub made-Stands : (w : ℕ) → E (update_window_size ask size (new w rules matches)) (Stands 0)
    unfolding update_window_size new
    made-Stands w =
        let p : Paginator B M = record (new w rules matches) { window_size = size } in
        let h : Holds ask (add_id rules) matches all p [] all = record {
          whole = refl;
          anchored = λ e. refl;
          same_rules = refl;
          same_matches = refl;
        } in
        subst (λ o. E (scroll_down ask 0 p) (Stands o))
          (let e : min (0 + 0) (length all - size) ≡ 0 = omega arith in e)
          (Ends-Sized (scroll_down ask 0 p) (min (0 + 0) (length all - size))
            (scroll_down-ShowsAt ask (add_id rules) matches all a 0 p 0 [] all h (omega arith))
            (Kept-down ask (λ q. q.window_size) (λ q l t. refl) 0 p))

    -- A new paginator that gets the size of its window and is then scrolled up and down in any way
    -- shows the lines of the sorted list from the offset at which the scrolls end, as many as the
    -- window has. No call of the database fails where it answers every query by a page of the list.
    pub update_window_size-scrolls :
        (w : ℕ) (es : List Scroll)
        → Ends ask
            (add_id rules)
            matches
            all
            (update_window_size ask size (new w rules matches) >>= scrolls es)
            (λ q. window q ≡ take size (drop (offset_after es 0) all))
    update_window_size-scrolls w es =
        Ends-bind ask (add_id rules) matches all (update_window_size ask size (new w rules matches))
          (scrolls es) (Stands 0) _ (made-Stands w)
          (λ p h.
            Ends_map ask (add_id rules) matches all (scrolls es p) (Stands (offset_after es 0)) _
              (scrolls-Stands es p 0 h)
              (λ q k.
                window-ShowsAt ask (add_id rules) matches all q (offset_after es 0) k.0
                ∙ ap (λ n. take n (drop (offset_after es 0) all)) k.1))
