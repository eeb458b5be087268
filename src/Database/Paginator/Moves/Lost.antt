-- ===== src/Database/Paginator/Moves/Lost.antt =====
-- `select_to_start` of `Paginator` (bookworm-database/src/paginator.rs) takes the last selected book and the
-- last book of the first page for the ends of the selection, in this order.
use bookworm.Base.{
  ℕ, ◌+◌, ◌-◌, ◌≤◌, ◌<◌, min, max, ◌≡◌, refl, sym, ap, ◌∙◌, inl, inr, false, Option, none, some,
  List, [], length, get_elem?, get_elem?-lt, lt-length, take, drop, first?, last?, last?-take-drop,
  get_or, compare, arith, Bool-cases, subst,
}
use bookworm.Database.Query.{Rules, Query}
use bookworm.Database.Selection.{
  Books, Selection, range, empty, up, first, is_single, contains, matches_all,
}
use bookworm.Database.Paginator.{Paginator, done, ◌>>=◌, window, scroll_down}
use bookworm.Database.Paginator.Fields.{Kept-down}
use bookworm.Database.Paginator.Loading.{Holds, Ends, Ends-bind, Ends-kept}
use bookworm.Database.Paginator.Holding.{ShowsAt, window-ShowsAt}
use bookworm.Database.Paginator.Down.{scroll_down-ShowsAt}
use bookworm.Database.Paginator.Jumps.{keep, reselect, go_home, home, is_all}
use bookworm.Database.Paginator.Jumps.Serving.{Serves}
use bookworm.Database.Paginator.Moves.{select_to_start}
use bookworm.Database.Paginator.Moves.Marks.{marked, View}
use bookworm.Database.Paginator.Moves.Choices.{last_marked}

module _ {B M : Type 0} (k : Books B M) (ask : Query B M → Option (List B))
    (get_book : ℕ → Option B) (rules : Rules) (matches : List M) (sorted : List B)
    (a : Serves k ask get_book rules matches sorted) where
  reselect_empty :
      (o : Option B) (p : Paginator B M) → p.selected ≡ empty → reselect k o p ≡ (p, done)
  unfolding reselect is_single
  reselect_empty none p e = refl
  reselect_empty (some b) p e =
      let single : is_single k p.selected ≡ false = ap (is_single k) e in
      let whole : is_all p.selected ≡ false = ap is_all e in rw (single, whole) refl

  -- A range whose first end stands behind its last has no book.
  range_lost :
      (i j n : ℕ) (b c d : B) (r : Rules) (ms : List M)
      → r ≡ rules
      → get_elem? sorted i ≡ some b
      → get_elem? sorted j ≡ some c
      → get_elem? sorted n ≡ some d
      → j < i
      → contains k (range b c r up ms) d ≡ false
  unfolding contains
  range_lost i j n b c d r ms e at at' at'' order =
      let first_end : k.cmp_columns r b d ≡ compare i n =
        ap (λ r'. k.cmp_columns r' b d) e ∙ a.ordered i n b d at at'' in
      let last_end : k.cmp_columns r c d ≡ compare j n =
        ap (λ r'. k.cmp_columns r' c d) e ∙ a.ordered j n c d at' at'' in
      rw (first_end, last_end)
        (elim (Bool-cases (matches_all k ms d)) [
          | inl all_match ↦ rw all_match (ground arith)
          | inr some_do_not ↦ rw some_do_not refl
        ])

  module _ (p : Paginator B M) (size anchor head : ℕ) (lines : 0 < size)
      (v : View ask rules matches sorted size (marked anchor head) p) where
    abbrev q : Paginator B M
    q = record p { selected = empty }

    abbrev fields : Paginator B M → ℕ × Selection B M
    fields r = (r.window_size, r.selected)

    -- The window shows the first page, and nothing is selected.
    abbrev AtTop : Paginator B M → Type 0
    AtTop r = ShowsAt ask rules matches sorted r 0 × (fields r ≡ (size, empty))

    home-AtTop : Ends ask rules matches sorted (home k ask get_book q) AtTop
    unfolding home first go_home
    home-AtTop =
        let top : Paginator B M = record q { window_top = 0; books = [] } in
        let held : Holds ask rules matches sorted top [] sorted = record {
          whole = refl;
          anchored = λ e. refl;
          same_rules = v.shown.held.same_rules;
          same_matches = v.shown.held.same_matches;
        } in
        let start : min (0 + 0) (length sorted - p.window_size) ≡ 0 = omega arith in
        Ends-bind ask rules matches sorted (scroll_down ask 0 top) _ _ _
          (Ends-kept ask rules matches sorted fields (scroll_down ask 0 top)
            (λ r. ShowsAt ask rules matches sorted r (min (0 + 0) (length sorted - p.window_size)))
            (p.window_size, empty)
            (scroll_down-ShowsAt ask rules matches sorted a.pages 0 top 0 [] sorted held
              (omega arith))
            (Kept-down ask fields (λ r l t. refl) 0 top))
          (λ r h. rw (reselect_empty (first? (window r)) r (ap (λ f. f.1) h.1)) (
            subst (ShowsAt ask rules matches sorted r) start h.0,
            h.1 ∙ ap (λ n. (n, empty)) v.sized,
          ))

    module _ (b : B) (at : get_elem? sorted (max anchor head) ≡ some b)
        (far : size ≤ max anchor head) where
      range-contains :
          (r : Paginator B M)
          → AtTop r
          → (n : ℕ) (d : B) → get_elem? sorted n ≡ some d
          → contains k (range b (get_or (last? (window r)) b) r.sorting_rules up r.matching_rules) d
            ≡ false
      range-contains r h n d at' =
          let within = lt-length sorted (max anchor head) b at in
          let size' : r.window_size ≡ size = ap (λ f. f.0) h.1 in
          let (c, there) = get_elem?-lt sorted (min (0 + size) (length sorted) - 1) (omega arith) in
          let page_end : last? (window r) ≡ some c =
            ap last? (
              window-ShowsAt ask rules matches sorted r 0 h.0
              ∙ ap (λ m. take m (drop 0 sorted)) size')
            ∙ last?-take-drop size 0 sorted lines (omega arith)
            ∙ there in
          rw page_end (
            range_lost (max anchor head) (min (0 + size) (length sorted) - 1) n b c d
              r.sorting_rules r.matching_rules h.0.held.same_rules at there at' (omega arith))

    -- If the last selected book stands behind the first page, `select_to_start` leaves a selection that
    -- has no book of the list.
    pub select_to_start-contains :
        size ≤ max anchor head
        → Ends ask rules matches sorted
            (select_to_start k ask get_book p)
            (λ r. (n : ℕ) (d : B) → get_elem? sorted n ≡ some d → contains k r.selected d ≡ false)
    unfolding select_to_start
    select_to_start-contains far =
        let (b, e, at) =
          last_marked k ask get_book rules matches sorted a p.selected anchor head v.selects in
        subst
          (λ o.
            Ends ask rules matches sorted
              (elim o [
                | none ↦ (p, done)
                | some b ↦ home k ask get_book q >>= λ r.
                    keep (range b (get_or (last? (window r)) b) r.sorting_rules up r.matching_rules)
                      r
              ])
              (λ r.
                (n : ℕ) (d : B) → get_elem? sorted n ≡ some d → contains k r.selected d ≡ false))
          (sym e)
          (Ends-bind ask rules matches sorted (home k ask get_book q)
            (λ r.
              keep (range b (get_or (last? (window r)) b) r.sorting_rules up r.matching_rules) r)
            AtTop _ home-AtTop (range-contains b at far))
