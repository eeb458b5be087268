-- ===== src/Database/Paginator/Moves/Keys.antt =====
-- Each key of `Paginator` (bookworm-database/src/paginator.rs) on a selection with an anchor and a head.
use bookworm.Base.{
  ℕ, ◌+◌, ◌-◌, ◌≤◌, ◌<◌, min, max, ◌≡◌, refl, sym, ap, Option, some, List, length, get_elem?, arith,
  subst, if◌then◌else◌, ◌==◌, ==_iff,
}
use bookworm.Database.Query.{Rules, Query}
use bookworm.Database.Selection.{
  Books, Selection, all, partial, range, empty, up, down, first, last, is_single,
}
use bookworm.Database.Paginator.{Paginator, Run, scroll_down, scroll_up}
use bookworm.Database.Paginator.Fields.{Kept-down, Kept-up}
use bookworm.Database.Paginator.Loading.{Ends, Ends_map, Ends-kept}
use bookworm.Database.Paginator.Holding.{ShowsAt}
use bookworm.Database.Paginator.Down.{scroll_down-ShowsAt}
use bookworm.Database.Paginator.Up.{scroll_up-ShowsAt}
use bookworm.Database.Paginator.Jumps.{is_all, select_and_make_visible, home, end, go_home, go_end}
use bookworm.Database.Paginator.Jumps.Serving.{Serves}
use bookworm.Database.Paginator.Moves.{
  step_up, step_down, scroll_up_move_select, scroll_down_move_select,
}
use bookworm.Database.Paginator.Moves.Marks.{
  Mark, nothing, everything, marked, Marks, Visible, ShowsAt_selected,
}
use bookworm.Database.Paginator.Moves.Stepping.{
  Viewed, is_single_lem, step_up-View, step_down-View, collapse-View,
}
use bookworm.Database.Paginator.Moves.Landing.{one}
use bookworm.Database.Paginator.Moves.Edges.{go_home-View, go_end-View}
use bookworm.Database.Paginator.Moves.Choices.{
  home_mark, end_mark, up_mark, down_mark, if-View, some-View, first_marked, last_marked,
}

module _ {B M : Type 0} (k : Books B M) (ask : Query B M → Option (List B))
    (get_book : ℕ → Option B) (rules : Rules) (matches : List M) (sorted : List B)
    (a : Serves k ask get_book rules matches sorted) where
  abbrev V : ℕ → Mark → Run B M → Type 0
  V = Viewed k ask get_book rules matches sorted a

  module _ (p : Paginator B M) (offset len : ℕ) (s : ShowsAt ask rules matches sorted p offset)
      (lines : 0 < p.window_size) where
    module _ (old : Selection B M) where
      abbrev q : Paginator B M
      q = record p { selected = old }

      shown : ShowsAt ask rules matches sorted q offset
      shown = ShowsAt_selected ask rules matches sorted p offset old s

      unselected-View :
          Marks ask rules matches sorted old nothing
          → (r : Run B M) (to : ℕ)
          → Ends ask rules matches sorted r (λ x.
            ShowsAt ask rules matches sorted x to
            × (◌≡◌ {A = ℕ × Selection B M} (x.window_size, x.selected) (p.window_size, old)))
          → V p.window_size nothing r
      unselected-View m r to h = Ends_map ask rules matches sorted r _ _ h (λ x e. record {
        offset = to;
        shown = e.0;
        sized = ap (λ f. f.0) e.1;
        selects = subst (λ o. Marks ask rules matches sorted o nothing) (sym (ap (λ f. f.1) e.1)) m;
        visible = tt;
      })

      unselected_up :
          Marks ask rules matches sorted old nothing → V p.window_size nothing (scroll_up ask len q)
      unselected_up m = unselected-View m (scroll_up ask len q) (offset - len) (
          Ends-kept ask rules matches sorted (λ x. (x.window_size, x.selected))
            (scroll_up ask len q) (λ x. ShowsAt ask rules matches sorted x (offset - len))
            (p.window_size, old)
            (scroll_up-ShowsAt ask rules matches sorted a.pages len q offset lines shown)
            (Kept-up ask (λ x. (x.window_size, x.selected)) (λ x l t. refl) len q))

      unselected_down :
          Marks ask rules matches sorted old nothing
          → V p.window_size nothing (scroll_down ask len q)
      unselected_down m =
          unselected-View m (scroll_down ask len q)
            (min (offset + len) (length sorted - p.window_size))
            (Ends-kept ask rules matches sorted (λ x. (x.window_size, x.selected))
              (scroll_down ask len q)
              (λ x.
                ShowsAt ask rules matches sorted x
                  (min (offset + len) (length sorted - p.window_size)))
              (p.window_size, old)
              (scroll_down-ShowsAt ask rules matches sorted a.pages len q offset shown.pre
                shown.post shown.held shown.place)
              (Kept-down ask (λ x. (x.window_size, x.selected)) (λ x l t. refl) len q))

      module _ (anchor head : ℕ) (m : Marks ask rules matches sorted old (marked anchor head))
          (above : offset ≤ head) (below : head < offset + p.window_size) where
        single : is_single k old ≡ (anchor == head)
        single = is_single_lem k ask get_book rules matches sorted a old anchor head m

        collapsed :
            (b : B) (to : ℕ)
            → get_elem? sorted to ≡ some b
            → V p.window_size (one to) (select_and_make_visible k ask get_book b q)
        collapsed b to at =
            collapse-View k ask get_book rules matches sorted a q offset head len b shown above
              below to lines at

        home_marked :
            V p.window_size (home_mark (length sorted) (marked anchor head)) (home k ask get_book q)
        unfolding home
        home_marked =
            let (b, e, at) = first_marked k ask get_book rules matches sorted a old anchor head m in
            some-View k ask get_book rules matches sorted a p.window_size
              (home_mark (length sorted) (marked anchor head)) (first k old) b (go_home k ask q)
              (λ t.
                if is_single k old
                then go_home k ask q
                else select_and_make_visible k ask get_book t q)
              e
              (if-View k ask get_book rules matches sorted a p.window_size (is_single k old)
                (anchor == head) (one 0) (one (min anchor head)) (go_home k ask q)
                (select_and_make_visible k ask get_book b q) single
                (λ same.
                  go_home-View k ask get_book rules matches sorted a q shown.held.same_rules
                    shown.held.same_matches lines (marked anchor head) m
                    ((==_iff anchor head).0 same))
                (λ other. collapsed b (min anchor head) at))

        end_marked :
            V p.window_size (end_mark (length sorted) (marked anchor head)) (end k ask get_book q)
        unfolding end
        end_marked =
            let (b, e, at) = last_marked k ask get_book rules matches sorted a old anchor head m in
            some-View k ask get_book rules matches sorted a p.window_size
              (end_mark (length sorted) (marked anchor head)) (last k old) b (go_end k ask q)
              (λ t.
                if is_single k old
                then go_end k ask q
                else select_and_make_visible k ask get_book t q)
              e
              (if-View k ask get_book rules matches sorted a p.window_size (is_single k old)
                (anchor == head) (one (length sorted - 1)) (one (max anchor head)) (go_end k ask q)
                (select_and_make_visible k ask get_book b q) single
                (λ same.
                  go_end-View k ask get_book rules matches sorted a q shown.held.same_rules
                    shown.held.same_matches lines (marked anchor head) m
                    ((==_iff anchor head).0 same))
                (λ other. collapsed b (max anchor head) at))

        up_marked :
            V p.window_size
              (up_mark (length sorted) len (marked anchor head))
              (scroll_up_move_select k ask get_book len q)
        unfolding scroll_up_move_select
        up_marked =
            let (b, e, at) = first_marked k ask get_book rules matches sorted a old anchor head m in
            some-View k ask get_book rules matches sorted a p.window_size
              (up_mark (length sorted) len (marked anchor head)) (first k old) b
              (if is_all old then home k ask get_book q else scroll_up ask len q)
              (λ t.
                if is_single k old
                then step_up k ask len t q
                else select_and_make_visible k ask get_book t q)
              e
              (if-View k ask get_book rules matches sorted a p.window_size (is_single k old)
                (anchor == head) (one (head - len)) (one (min anchor head)) (step_up k ask len b q)
                (select_and_make_visible k ask get_book b q) single
                (λ same.
                  let here : min anchor head ≡ head = ground arith in
                  step_up-View k ask get_book rules matches sorted a q offset head len b shown above
                    below (subst (λ i. get_elem? sorted i ≡ some b) here at))
                (λ other. collapsed b (min anchor head) at))

        down_marked :
            V p.window_size
              (down_mark (length sorted) len (marked anchor head))
              (scroll_down_move_select k ask get_book len q)
        unfolding scroll_down_move_select
        down_marked =
            let (b, e, at) = last_marked k ask get_book rules matches sorted a old anchor head m in
            some-View k ask get_book rules matches sorted a p.window_size
              (down_mark (length sorted) len (marked anchor head)) (last k old) b
              (if is_all old then end k ask get_book q else scroll_down ask len q)
              (λ t.
                if is_single k old
                then step_down k ask len t q
                else select_and_make_visible k ask get_book t q)
              e
              (if-View k ask get_book rules matches sorted a p.window_size (is_single k old)
                (anchor == head) (one (min (head + len) (length sorted - 1)))
                (one (max anchor head)) (step_down k ask len b q)
                (select_and_make_visible k ask get_book b q) single
                (λ same.
                  let here : max anchor head ≡ head = ground arith in
                  step_down-View k ask get_book rules matches sorted a q offset head len b shown
                    above below (subst (λ i. get_elem? sorted i ≡ some b) here at))
                (λ other. collapsed b (max anchor head) at))

    pub home_moved :
        (old : Selection B M) (m : Mark)
        → Marks ask rules matches sorted old m
        → Visible ask rules matches sorted m offset p.window_size
        → V p.window_size
            (home_mark (length sorted) m)
            (home k ask get_book (record p { selected = old }))
    unfolding home first
    home_moved old (marked anchor head) m v = home_marked old anchor head m v.0 v.1
    home_moved empty nothing m v =
        go_home-View k ask get_book rules matches sorted a (q empty) s.held.same_rules
          s.held.same_matches lines nothing m tt
    home_moved (all ms) everything m v =
        go_home-View k ask get_book rules matches sorted a (q (all ms)) s.held.same_rules
          s.held.same_matches lines everything m tt
    home_moved (all ms) nothing m v = absurd m
    home_moved (partial books r) nothing m v = absurd m
    home_moved (range x y r up ms) nothing m v = absurd m
    home_moved (range x y r down ms) nothing m v = absurd m
    home_moved empty everything m v = absurd m
    home_moved (partial books r) everything m v = absurd m
    home_moved (range x y r up ms) everything m v = absurd m
    home_moved (range x y r down ms) everything m v = absurd m

    pub end_moved :
        (old : Selection B M) (m : Mark)
        → Marks ask rules matches sorted old m
        → Visible ask rules matches sorted m offset p.window_size
        → V p.window_size
            (end_mark (length sorted) m)
            (end k ask get_book (record p { selected = old }))
    unfolding end last
    end_moved old (marked anchor head) m v = end_marked old anchor head m v.0 v.1
    end_moved empty nothing m v =
        go_end-View k ask get_book rules matches sorted a (q empty) s.held.same_rules
          s.held.same_matches lines nothing m tt
    end_moved (all ms) everything m v =
        go_end-View k ask get_book rules matches sorted a (q (all ms)) s.held.same_rules
          s.held.same_matches lines everything m tt
    end_moved (all ms) nothing m v = absurd m
    end_moved (partial books r) nothing m v = absurd m
    end_moved (range x y r up ms) nothing m v = absurd m
    end_moved (range x y r down ms) nothing m v = absurd m
    end_moved empty everything m v = absurd m
    end_moved (partial books r) everything m v = absurd m
    end_moved (range x y r up ms) everything m v = absurd m
    end_moved (range x y r down ms) everything m v = absurd m

    pub up_moved :
        (old : Selection B M) (m : Mark)
        → Marks ask rules matches sorted old m
        → Visible ask rules matches sorted m offset p.window_size
        → V p.window_size
            (up_mark (length sorted) len m)
            (scroll_up_move_select k ask get_book len (record p { selected = old }))
    unfolding scroll_up_move_select first
    up_moved old (marked anchor head) m v = up_marked old anchor head m v.0 v.1
    up_moved empty nothing m v = unselected_up empty m
    up_moved (all ms) everything m v = home_moved (all ms) everything m v
    up_moved (all ms) nothing m v = absurd m
    up_moved (partial books r) nothing m v = absurd m
    up_moved (range x y r up ms) nothing m v = absurd m
    up_moved (range x y r down ms) nothing m v = absurd m
    up_moved empty everything m v = absurd m
    up_moved (partial books r) everything m v = absurd m
    up_moved (range x y r up ms) everything m v = absurd m
    up_moved (range x y r down ms) everything m v = absurd m

    pub down_moved :
        (old : Selection B M) (m : Mark)
        → Marks ask rules matches sorted old m
        → Visible ask rules matches sorted m offset p.window_size
        → V p.window_size
            (down_mark (length sorted) len m)
            (scroll_down_move_select k ask get_book len (record p { selected = old }))
    unfolding scroll_down_move_select last
    down_moved old (marked anchor head) m v = down_marked old anchor head m v.0 v.1
    down_moved empty nothing m v = unselected_down empty m
    down_moved (all ms) everything m v = end_moved (all ms) everything m v
    down_moved (all ms) nothing m v = absurd m
    down_moved (partial books r) nothing m v = absurd m
    down_moved (range x y r up ms) nothing m v = absurd m
    down_moved (range x y r down ms) nothing m v = absurd m
    down_moved empty everything m v = absurd m
    down_moved (partial books r) everything m v = absurd m
    down_moved (range x y r up ms) everything m v = absurd m
    down_moved (range x y r down ms) everything m v = absurd m
