-- ===== src/Database/Paginator/Moves/Extended.antt =====
-- The selection after a key with shift, from whatever was selected (bookworm-database/src/paginator.rs,
-- `select_up` and `select_down`).
use bookworm.Base.{
  ℕ, suc, ◌+◌, ◌-◌, ◌≤◌, ◌<◌, min, ◌≡◌, refl, inl, inr, Option, List, length, arith, Bool-cases,
  subst, if◌then◌else◌, ◌==◌,
}
use bookworm.Database.Query.{Rules, Query}
use bookworm.Database.Selection.{Books, Selection, all, partial, range, empty, up, down}
use bookworm.Database.Paginator.{Paginator, Run, ◌>>=◌, scroll_up, scroll_down}
use bookworm.Database.Paginator.Fields.{Kept-up, Kept-down}
use bookworm.Database.Paginator.Down.{scroll_down-ShowsAt}
use bookworm.Database.Paginator.Up.{scroll_up-ShowsAt}
use bookworm.Database.Paginator.Loading.{Ends, Ends-bind, Ends-kept}
use bookworm.Database.Paginator.Holding.{ShowsAt}
use bookworm.Database.Paginator.Jumps.{keep}
use bookworm.Database.Paginator.Jumps.Serving.{Serves}
use bookworm.Database.Paginator.Moves.{select_up, select_down, select_up_on, select_down_on}
use bookworm.Database.Paginator.Moves.Marks.{
  Mark, nothing, everything, marked, Marks, Visible, View, ShowsAt_selected,
}
use bookworm.Database.Paginator.Moves.Extending.{select_up-View, select_down-View}
use bookworm.Database.Paginator.Moves.Stepping.{Viewed}
use bookworm.Database.Paginator.Moves.Choices.{home_mark, end_mark, up_mark, down_mark}
use bookworm.Database.Paginator.Moves.Starting.{
  started_up, started_down, unstarted_up, unstarted_down,
}
use bookworm.Database.Paginator.Moves.Keyboard.{
  Key, arrow_up, arrow_down, page_up_key, page_down_key, home_key, end_key, shift_up, shift_down,
  shift_page_up, shift_page_down, shift_home, shift_end, select_all_key, deselect_key,
}

-- The selection after a key, in a window of so many lines, which stands at an offset, and a list of so
-- many books.
module _ (lines books offset : ℕ) where
  abbrev pub extended_up : ℕ → Mark → Mark
  extended_up len (marked anchor head) = marked anchor (head - len)
  extended_up len everything = everything
  extended_up len nothing =
      if books == 0
      then nothing
      else marked (min (offset + lines) books - len) (min (offset + lines) books - 1)

  abbrev pub extended_down : ℕ → Mark → Mark
  extended_down len (marked anchor head) = marked anchor (min (head + len) (books - 1))
  extended_down len everything = everything
  extended_down len nothing =
      if books == 0 then nothing else marked offset (min (offset + len) books - 1)

  -- Of Shift+Home and Shift+End nothing is said.
  abbrev pub pressed : Key → Mark → Mark
  pressed arrow_up m = up_mark books 1 m
  pressed arrow_down m = down_mark books 1 m
  pressed page_up_key m = up_mark books lines m
  pressed page_down_key m = down_mark books lines m
  pressed home_key m = home_mark books m
  pressed end_key m = end_mark books m
  pressed shift_up m = extended_up 1 m
  pressed shift_down m = extended_down 1 m
  pressed shift_page_up m = extended_up lines m
  pressed shift_page_down m = extended_down lines m
  pressed shift_home m = m
  pressed shift_end m = m
  pressed select_all_key m = everything
  pressed deselect_key m = nothing

module _ {B M : Type 0} (k : Books B M) (ask : Query B M → Option (List B))
    (get_book : ℕ → Option B) (rules : Rules) (matches : List M) (sorted : List B)
    (a : Serves k ask get_book rules matches sorted) where
  abbrev V : ℕ → Mark → Run B M → Type 0
  V = Viewed k ask get_book rules matches sorted a

  module _ (p : Paginator B M) (offset : ℕ) (s : ShowsAt ask rules matches sorted p offset)
      (lines : 0 < p.window_size) where
    abbrev q : Selection B M → Paginator B M
    q old = record p { selected = old }

    pub viewed :
        (old : Selection B M) (m : Mark)
        → Marks ask rules matches sorted old m
        → Visible ask rules matches sorted m offset p.window_size
        → View ask rules matches sorted p.window_size m (q old)
    viewed old m h v = record {
      offset = offset;
      shown = ShowsAt_selected ask rules matches sorted p offset old s;
      sized = refl;
      selects = h;
      visible = v;
    }

    everything-View :
        (ms : List M) (r : Run B M) (to : ℕ)
        → ms ≡ matches
        → Ends ask rules matches sorted r
            (λ x. ShowsAt ask rules matches sorted x to × (x.window_size ≡ p.window_size))
        → V p.window_size everything (r >>= keep (all ms))
    everything-View ms r to e h = Ends-bind ask rules matches sorted r (keep (all ms)) _ _ h (λ x f.
        record {
          offset = to;
          shown = ShowsAt_selected ask rules matches sorted x to (all ms) f.0;
          sized = f.1;
          selects = e;
          visible = tt;
        })

    all_down :
        (len : ℕ) (ms : List M)
        → ms ≡ matches
        → V p.window_size everything (select_down_on k ask len (all ms) (q empty))
    unfolding select_down_on
    all_down len ms e =
        let t = ShowsAt_selected ask rules matches sorted p offset empty s in
        everything-View ms (scroll_down ask len (q empty))
          (min (offset + len) (length sorted - p.window_size)) e
          (Ends-kept ask rules matches sorted (λ x. x.window_size) (scroll_down ask len (q empty)) _
            p.window_size
            (scroll_down-ShowsAt ask rules matches sorted a.pages len (q empty) offset t.pre t.post
              t.held t.place)
            (Kept-down ask (λ x. x.window_size) (λ x l y. refl) len (q empty)))

    all_up :
        (len : ℕ) (ms : List M)
        → ms ≡ matches
        → V p.window_size everything (select_up_on k ask len (all ms) (q empty))
    unfolding select_up_on
    all_up len ms e =
        let t = ShowsAt_selected ask rules matches sorted p offset empty s in
        everything-View ms (scroll_up ask len (q empty)) (offset - len) e (
          Ends-kept ask rules matches sorted (λ x. x.window_size) (scroll_up ask len (q empty)) _
            p.window_size
            (scroll_up-ShowsAt ask rules matches sorted a.pages len (q empty) offset lines t)
            (Kept-up ask (λ x. x.window_size) (λ x l y. refl) len (q empty)))

    module _ (len : ℕ) (few : len ≤ p.window_size) (more : 0 < len) where
      none_up :
          V p.window_size
            (extended_up p.window_size (length sorted) offset len nothing)
            (select_up_on k ask len empty (q empty))
      none_up =
          let t = ShowsAt_selected ask rules matches sorted p offset empty s in
          elim (Bool-cases (length sorted == 0)) [
            | inl none_there ↦ rw none_there (
                unstarted_up k ask get_book rules matches sorted a (q empty) offset len t lines few
                  more (ground arith))
            | inr some_there ↦
                let books : 0 < length sorted = ground arith in
                let same : suc (min (offset + p.window_size) (length sorted) - 1)
                    ≡ min (offset + p.window_size) (length sorted) =
                  omega (arith, lines) in
                rw some_there (
                  subst
                    (λ i.
                      V p.window_size
                        (marked (i - len) (min (offset + p.window_size) (length sorted) - 1))
                        (select_up_on k ask len empty (q empty)))
                    same
                    (started_up k ask get_book rules matches sorted a (q empty) offset len t lines
                      few more books))
          ]

      none_down :
          V p.window_size
            (extended_down p.window_size (length sorted) offset len nothing)
            (select_down_on k ask len empty (q empty))
      none_down =
          let t = ShowsAt_selected ask rules matches sorted p offset empty s in
          elim (Bool-cases (length sorted == 0)) [
            | inl none_there ↦ rw none_there (
                unstarted_down k ask get_book rules matches sorted a (q empty) offset len t lines
                  few more (ground arith))
            | inr some_there ↦ rw some_there (
                started_down k ask get_book rules matches sorted a (q empty) offset len t lines few
                  more (ground arith))
          ]

      pub up_extended :
          (old : Selection B M) (m : Mark)
          → Marks ask rules matches sorted old m
          → Visible ask rules matches sorted m offset p.window_size
          → V p.window_size
              (extended_up p.window_size (length sorted) offset len m)
              (select_up k ask len (q old))
      unfolding select_up
      up_extended old (marked anchor head) m v =
          select_up-View k ask get_book rules matches sorted a p.window_size anchor head len (q old)
            (viewed old (marked anchor head) m v)
      up_extended empty nothing m v = none_up
      up_extended (all ms) everything m v = all_up len ms m
      up_extended (all ms) nothing m v = absurd m
      up_extended (partial books r) nothing m v = absurd m
      up_extended (range x y r up ms) nothing m v = absurd m
      up_extended (range x y r down ms) nothing m v = absurd m
      up_extended empty everything m v = absurd m
      up_extended (partial books r) everything m v = absurd m
      up_extended (range x y r up ms) everything m v = absurd m
      up_extended (range x y r down ms) everything m v = absurd m

      pub down_extended :
          (old : Selection B M) (m : Mark)
          → Marks ask rules matches sorted old m
          → Visible ask rules matches sorted m offset p.window_size
          → V p.window_size
              (extended_down p.window_size (length sorted) offset len m)
              (select_down k ask len (q old))
      unfolding select_down
      down_extended old (marked anchor head) m v =
          select_down-View k ask get_book rules matches sorted a p.window_size anchor head len
            (q old) (viewed old (marked anchor head) m v)
      down_extended empty nothing m v = none_down
      down_extended (all ms) everything m v = all_down len ms m
      down_extended (all ms) nothing m v = absurd m
      down_extended (partial books r) nothing m v = absurd m
      down_extended (range x y r up ms) nothing m v = absurd m
      down_extended (range x y r down ms) nothing m v = absurd m
      down_extended empty everything m v = absurd m
      down_extended (partial books r) everything m v = absurd m
      down_extended (range x y r up ms) everything m v = absurd m
      down_extended (range x y r down ms) everything m v = absurd m
