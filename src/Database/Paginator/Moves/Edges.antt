-- ===== src/Database/Paginator/Moves/Edges.antt =====
-- `home` and `end` of `Paginator` (bookworm-database/src/paginator.rs) lead to the first and to the last page.
use bookworm.Base.{
  ℕ, ◌+◌, ◌-◌, ◌≤◌, ◌<◌, min, ◌≡◌, refl, sym, ap, ◌∙◌, inl, inr, Option, none, some, List, [], ◌++◌,
  length, get_elem?, arith, Bool-cases, subst, take, drop, first?, last?, last?-take-drop,
  length-take, length-drop, take-append-drop, reverse-take-reverse, ltb, leb,
}
use mathlib.Core.List.{reverse, append-nil}
use bookworm.Records.Column.{ascending}
use bookworm.Database.Query.{Rules, Query}
use bookworm.Database.Selection.{Books, Selection}
use bookworm.Database.Paginator.{Paginator, failed, Run, window, scroll_down}
use bookworm.Database.Paginator.Fields.{Kept-down}
use bookworm.Database.Paginator.Loading.{Holds, Ends-bind, Ends-kept, asked}
use bookworm.Database.Paginator.Holding.{nil_of_length, ShowsAt, window-ShowsAt}
use bookworm.Database.Paginator.Down.{scroll_down-ShowsAt}
use bookworm.Database.Paginator.Jumps.{reselect, go_home, go_end}
use bookworm.Database.Paginator.Jumps.Serving.{Serves}
use bookworm.Database.Paginator.Moves.Marks.{Mark, Marks}
use bookworm.Database.Paginator.Moves.Stepping.{Viewed}
use bookworm.Database.Paginator.Moves.Landing.{landed, AtMostOne, first?-take, reselected}

module _ {B M : Type 0} (k : Books B M) (ask : Query B M → Option (List B))
    (get_book : ℕ → Option B) (rules : Rules) (matches : List M) (sorted : List B)
    (a : Serves k ask get_book rules matches sorted) where
  abbrev V : ℕ → Mark → Run B M → Type 0
  V = Viewed k ask get_book rules matches sorted a

  module _ (p : Paginator B M) (same_rules : p.sorting_rules ≡ rules)
      (same_matches : p.matching_rules ≡ matches) (lines : 0 < p.window_size) (m : Mark)
      (selects : Marks ask rules matches sorted p.selected m) (single : AtMostOne m) where
    abbrev fields : Paginator B M → ℕ × Selection B M
    fields q = (q.window_size, q.selected)

    -- The end of `home` and of `end`, where the window has come to an offset.
    arrived :
        (q : Paginator B M) (offset i : ℕ) (pick : List B → Option B)
        → ShowsAt ask rules matches sorted q offset
        → fields q ≡ fields p
        → offset ≤ i
        → i < offset + p.window_size
        → (0 < length sorted → i < length sorted)
        → pick (take p.window_size (drop offset sorted)) ≡ get_elem? sorted i
        → V p.window_size (landed (length sorted) i m) (reselect k (pick (window q)) q)
    arrived q offset i pick s f above below inside e =
        let size : q.window_size ≡ p.window_size = ap (λ x. x.0) f in
        let shown : window q ≡ take p.window_size (drop offset sorted) =
          window-ShowsAt ask rules matches sorted q offset s
          ∙ ap (λ n. take n (drop offset sorted)) size in
        subst (λ n. V n (landed (length sorted) i m) (reselect k (pick (window q)) q)) size
          (reselected k ask get_book rules matches sorted a q offset i s above (omega arith)
            (pick (window q)) q.selected m (ap pick shown ∙ e) inside
            (subst (λ o. Marks ask rules matches sorted o m) (sym (ap (λ x. x.1) f)) selects)
            single)

    pub go_home-View : V p.window_size (landed (length sorted) 0 m) (go_home k ask p)
    unfolding go_home
    go_home-View =
        let q : Paginator B M = record p { window_top = 0; books = [] } in
        let held : Holds ask rules matches sorted q [] sorted = record {
          whole = refl;
          anchored = λ e. refl;
          same_rules = same_rules;
          same_matches = same_matches;
        } in
        let start : min (0 + 0) (length sorted - p.window_size) ≡ 0 = omega arith in
        Ends-bind ask rules matches sorted (scroll_down ask 0 q) _ _ _
          (Ends-kept ask rules matches sorted fields (scroll_down ask 0 q)
            (λ r. ShowsAt ask rules matches sorted r (min (0 + 0) (length sorted - p.window_size)))
            (fields p)
            (scroll_down-ShowsAt ask rules matches sorted a.pages 0 q 0 [] sorted held
              (omega arith))
            (Kept-down ask fields (λ r l t. refl) 0 q))
          (λ r h.
            arrived r 0 0 first? (subst (ShowsAt ask rules matches sorted r) start h.0) h.1
              (omega arith) (omega arith) (λ n. n) (first?-take p.window_size sorted lines))

    abbrev bottom : List B
    bottom = reverse (take p.window_size (reverse sorted))

    bottom_lem : bottom ≡ drop (length sorted - p.window_size) sorted
    bottom_lem = reverse-take-reverse p.window_size sorted

    length-bottom : length bottom ≡ min p.window_size (length sorted)
    length-bottom =
        ap length bottom_lem ∙ omega (arith, length-drop (length sorted - p.window_size) sorted)

    bottom-Shows :
        ShowsAt ask rules matches sorted
          (record p { window_top = 0; books = bottom })
          (length sorted - p.window_size)
    bottom-Shows = record {
      pre = take (length sorted - p.window_size) sorted;
      post = [];
      held = record {
        whole =
            sym (take-append-drop (length sorted - p.window_size) sorted)
            ∙ ap (λ l. take (length sorted - p.window_size) sorted ++ l)
                (sym bottom_lem ∙ sym (append-nil bottom));
        anchored = λ e. nil_of_length (take (length sorted - p.window_size) sorted) (
            omega (
              arith,
              ap length e,
              length-bottom,
              length-take (length sorted - p.window_size) sorted,
            ));
        same_rules = same_rules;
        same_matches = same_matches;
      };
      place = omega (arith, length-take (length sorted - p.window_size) sorted);
      full = elim (Bool-cases (leb p.window_size (length sorted))) [
        | inl enough ↦ inl (ground (arith, length-bottom))
        | inr few ↦ inr (
          nil_of_length (take (length sorted - p.window_size) sorted)
              (ground (arith, length-take (length sorted - p.window_size) sorted)),
          refl,
          refl,
        )
      ];
    }

    last_of_page :
        last? (take p.window_size (drop (length sorted - p.window_size) sorted))
        ≡ get_elem? sorted (length sorted - 1)
    last_of_page = elim (Bool-cases (ltb 0 (length sorted))) [
      | inl more ↦
          last?-take-drop p.window_size (length sorted - p.window_size) sorted lines (ground arith)
          ∙ ap (get_elem? sorted) (
              let e : min (length sorted - p.window_size + p.window_size) (length sorted) - 1
                  ≡ length sorted - 1 =
                omega arith in
              e)
      | inr less ↦
          let page = take p.window_size (drop (length sorted - p.window_size) sorted) in
          let no_page : page ≡ [] = nil_of_length page (
            ground (
              arith,
              length-take p.window_size (drop (length sorted - p.window_size) sorted),
              length-drop (length sorted - p.window_size) sorted,
            )) in
          let no_books : sorted ≡ [] = nil_of_length sorted (ground arith) in
          ap last? no_page ∙ sym (ap (λ l. get_elem? l (length sorted - 1)) no_books)
    ]

    pub go_end-View :
        V p.window_size (landed (length sorted) (length sorted - 1) m) (go_end k ask p)
    unfolding go_end
    go_end-View =
        let asked_end =
          asked ask rules matches sorted ascending p.window_size none none p.sorting_rules
            p.matching_rules same_rules same_matches refl
          ∙ a.pages.from_end p.window_size in
        subst
          (λ o. V p.window_size (landed (length sorted) (length sorted - 1) m) (elim o [
            | none ↦ (record p { window_top = 0 }, failed)
            | some books ↦
                let q : Paginator B M = record p { window_top = 0; books = reverse books } in
                reselect k (last? (window q)) q
          ]))
          (sym asked_end)
          (arrived (record p { window_top = 0; books = bottom }) (length sorted - p.window_size)
            (length sorted - 1) last? bottom-Shows refl (omega arith) (omega arith)
            (λ n. omega arith) last_of_page)
