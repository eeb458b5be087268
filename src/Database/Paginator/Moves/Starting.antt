-- ===== src/Database/Paginator/Moves/Starting.antt =====
-- `select_up` and `select_down` of `Paginator` (bookworm-database/src/paginator.rs) where nothing is
-- selected: the selection starts at the edge of the window.
use bookworm.Base.{
  ℕ, zero, suc, ◌+◌, ◌-◌, ◌≤◌, ◌<◌, min, ◌≡◌, refl, sym, ap, ◌∙◌, true, Option, none, some, List,
  [], ◌∷◌, length, get_elem?, get_elem?-lt, get_elem?-take, get_elem?-drop, take, drop, first?,
  last?, last?-take-drop, last?-take-reverse, length-take, length-drop, arith, subst, ==_refl,
  get_or,
}
use mathlib.Core.List.{reverse}
use bookworm.Records.Column.{ColumnOrder, ascending, descending}
use bookworm.Database.Query.{Rules, Query, QueryBuilder, page_query, include_id}
use bookworm.Database.Selection.{Books, range, empty, down}
use bookworm.Database.Paginator.{Paginator, failed, Run, ◌>>=◌, window, scroll_down, scroll_up}
use bookworm.Database.Paginator.Holding.{nil_of_length, ShowsAt, window-ShowsAt}
use bookworm.Database.Paginator.Up.{offset-le-last_offset}
use bookworm.Database.Paginator.Jumps.{keep, shows}
use bookworm.Database.Paginator.Jumps.Serving.{Serves}
use bookworm.Database.Paginator.Moves.{follow, read_last, select_up_on, select_down_on}
use bookworm.Database.Paginator.Moves.Marks.{Mark, nothing, marked, View, ShowsAt_selected}
use bookworm.Database.Paginator.Moves.Stepping.{Viewed}
use bookworm.Database.Paginator.Moves.Landing.{first?-take}

take_nil {ℓ} : {A : Type ℓ} (n : ℕ) → take {A = A} n [] ≡ []
take_nil zero = refl
take_nil (suc n) = refl

module _ {B M : Type 0} (k : Books B M) (ask : Query B M → Option (List B))
    (get_book : ℕ → Option B) (rules : Rules) (matches : List M) (sorted : List B)
    (a : Serves k ask get_book rules matches sorted) where
  abbrev V : ℕ → Mark → Run B M → Type 0
  V = Viewed k ask get_book rules matches sorted a

  shows-get_elem? :
      (bs : List B) (j : ℕ) (b : B) → get_elem? bs j ≡ some b → shows k (k.id b) bs ≡ true
  unfolding shows
  shows-get_elem? [] j b h = absurd (cc)
  shows-get_elem? (c ∷ bs) zero b h = let e : c ≡ b = cc in rw (e, ==_refl (k.id b)) refl
  shows-get_elem? (c ∷ bs) (suc j) b h = let rest = shows-get_elem? bs j b h in ground (arith, rest)

  module _ (p : Paginator B M) (offset len : ℕ) (s : ShowsAt ask rules matches sorted p offset)
      (lines : 0 < p.window_size) (few : len ≤ p.window_size) (more : 0 < len) where
    shown : window p ≡ take p.window_size (drop offset sorted)
    shown = window-ShowsAt ask rules matches sorted p offset s

    asked_inclusive :
        (order : ColumnOrder) (book book' : Option B)
        → book ≡ book'
        → ask (record {
          builder = include_id (page_query p.sorting_rules order len);
          book = book;
          match_rules = p.matching_rules;
        })
          ≡ ask (record {
            builder = include_id (page_query rules order len);
            book = book';
            match_rules = matches;
          })
    asked_inclusive order book book' e =
        ap
          (λ r. ask (record {
            builder = include_id (page_query r order len);
            book = book;
            match_rules = p.matching_rules;
          }))
          s.held.same_rules
        ∙ ap
            (λ ms. ask (record {
              builder = include_id (page_query rules order len);
              book = book;
              match_rules = ms;
            }))
            s.held.same_matches
        ∙ ap
            (λ o. ask (record {
              builder = include_id (page_query rules order len);
              book = o;
              match_rules = matches;
            }))
            e

    abbrev after_down : Option B → Run B M
    after_down found = elim found [
      | none ↦ keep empty p
      | some b ↦ follow k ask (scroll_down ask len) b p >>= λ q.
          keep (range (get_or (first? (window p)) b) b q.sorting_rules down q.matching_rules) q
    ]

    abbrev after_up : Option B → Run B M
    after_up found = elim found [
      | none ↦ keep empty p
      | some b ↦ follow k ask (scroll_up ask len) b p >>= λ q.
          keep (range b (get_or (last? (window p)) b) q.sorting_rules down q.matching_rules) q
    ]

    answered :
        (builder : QueryBuilder) (book : Option B) (f : Option B → Run B M) (page : List B)
        (m : Mark)
        → ask (record { builder = builder; book = book; match_rules = p.matching_rules })
          ≡ some page
        → V p.window_size m (f (last? page))
        → V p.window_size m (read_last k ask builder book p.matching_rules p f)
    answered builder book f page m e v =
        subst (λ o. V p.window_size m (elim o [ none ↦ (p, failed) | some l ↦ f (last? l) ]))
          (sym e) v

    empty_View : View ask rules matches sorted p.window_size nothing (record p { selected = empty })
    empty_View = record {
      offset = offset;
      shown = ShowsAt_selected ask rules matches sorted p offset empty s;
      sized = refl;
      selects = tt;
      visible = tt;
    }

    module _ (books : 0 < length sorted) where
      -- The indices of the last book in the window, and of the last book of a page from its top.
      abbrev bottom : ℕ
      bottom = min (offset + p.window_size) (length sorted) - 1

      abbrev lower : ℕ
      lower = min (offset + len) (length sorted) - 1

      inside : offset < length sorted
      inside = omega (arith, offset-le-last_offset ask rules matches sorted p offset s)

      visible :
          (i : ℕ) (b : B)
          → get_elem? sorted i ≡ some b
          → offset ≤ i
          → i < offset + p.window_size
          → shows k (k.id b) (window p) ≡ true
      visible i b at above below =
          let same : offset + (i - offset) ≡ i = omega arith in
          shows-get_elem? (window p) (i - offset) b (
            ap (λ l. get_elem? l (i - offset)) shown
            ∙ get_elem?-take p.window_size (drop offset sorted) (i - offset) (omega arith)
            ∙ get_elem?-drop offset sorted (i - offset)
            ∙ ap (get_elem? sorted) same
            ∙ at)

      first_shown : first? (window p) ≡ get_elem? sorted offset
      first_shown =
          let same : offset + 0 ≡ offset = omega arith in
          ap first? shown
          ∙ first?-take p.window_size (drop offset sorted) lines
          ∙ get_elem?-drop offset sorted 0
          ∙ ap (get_elem? sorted) same

      last_shown : last? (window p) ≡ get_elem? sorted bottom
      last_shown = ap last? shown ∙ last?-take-drop p.window_size offset sorted lines inside

      selected-View :
          (top end : ℕ) (b c : B)
          → get_elem? sorted top ≡ some b
          → get_elem? sorted end ≡ some c
          → top ≤ end
          → offset ≤ end
          → end < offset + p.window_size
          → View ask rules matches sorted p.window_size
              (marked top end)
              (record p { selected = range b c p.sorting_rules down p.matching_rules })
      selected-View top end b c at at' order above below = record {
        offset = offset;
        shown = ShowsAt_selected ask rules matches sorted p offset _ s;
        sized = refl;
        selects = (at, at', order, s.held.same_rules, s.held.same_matches);
        visible = (above, below);
      }

      -- `select_down` selects so many books from the top of the window on.
      pub started_down : V p.window_size (marked offset lower) (select_down_on k ask len empty p)
      unfolding select_down_on follow
      started_down =
          let (b, at) = get_elem?-lt sorted offset inside in
          let (c, at') = get_elem?-lt sorted lower (omega (arith, inside)) in
          answered _ _ after_down (take len (drop offset sorted)) (marked offset lower)
            (asked_inclusive descending (first? (window p)) (some b) (first_shown ∙ at)
              ∙ a.from_book len offset b at)
            (subst (λ o. V p.window_size (marked offset lower) (after_down o))
              (sym (last?-take-drop len offset sorted more inside ∙ at'))
              (rw
                (
                  visible lower c at' (omega (arith, inside)) (omega (arith, inside)),
                  first_shown ∙ at,
                )
                (selected-View offset lower b c at at' (omega (arith, inside))
                  (omega (arith, inside)) (omega (arith, inside)))))

      -- `select_up` selects so many books up to the bottom of the window, with the lower end as its head.
      pub started_up :
          V p.window_size (marked (suc bottom - len) bottom) (select_up_on k ask len empty p)
      unfolding select_up_on follow
      started_up =
          let edge = offset-le-last_offset ask rules matches sorted p offset s in
          let (b, at) = get_elem?-lt sorted (suc bottom - len) (omega (arith, inside)) in
          let (c, at') = get_elem?-lt sorted bottom (omega (arith, inside)) in
          answered _ _ after_up (take len (reverse (take (suc bottom) sorted)))
            (marked (suc bottom - len) bottom)
            (asked_inclusive ascending (last? (window p)) (some c) (last_shown ∙ at')
              ∙ a.up_to_book len bottom c at')
            (subst (λ o. V p.window_size (marked (suc bottom - len) bottom) (after_up o))
              (sym (
                last?-take-reverse len (suc bottom) sorted more (omega arith)
                  (omega (arith, inside))
                ∙ at))
              (rw
                (
                  visible (suc bottom - len) b at (omega (arith, inside)) (omega (arith, inside)),
                  last_shown ∙ at',
                )
                (selected-View (suc bottom - len) bottom b c at at' (omega arith)
                  (omega (arith, inside)) (omega (arith, inside)))))

    module _ (none_there : length sorted ≡ 0) where
      no_window : window p ≡ []
      no_window = nil_of_length (window p) (
          ap length shown
          ∙ omega
              (arith, length-take p.window_size (drop offset sorted), length-drop offset sorted))

      no_page : (l : List B) → l ≡ sorted → take len l ≡ []
      no_page l e = nil_of_length (take len l) (omega (arith, length-take len l, ap length e))

      -- Without books nothing is selected.
      pub unstarted_down : V p.window_size nothing (select_down_on k ask len empty p)
      unfolding select_down_on
      unstarted_down =
          answered _ _ after_down [] nothing
            (asked_inclusive descending (first? (window p)) none (ap first? no_window)
              ∙ a.from_top len
              ∙ ap some (no_page sorted refl))
            empty_View

      pub unstarted_up : V p.window_size nothing (select_up_on k ask len empty p)
      unfolding select_up_on
      unstarted_up =
          let no_books = nil_of_length sorted none_there in
          answered _ _ after_up [] nothing
            (asked_inclusive ascending (last? (window p)) none (ap last? no_window)
              ∙ a.up_to_bottom len
              ∙ ap (λ l. some (take len (reverse l))) no_books
              ∙ ap some (take_nil len))
            empty_View
