-- ===== src/Database/Paginator/Moves.antt =====
-- The keys of `Paginator` (bookworm-database/src/paginator.rs) that move the window with one selected book,
-- and those that select several.
pub mod Marks
pub mod Following
pub mod Extending
pub mod Stepping
pub mod Landing
pub mod Edges
pub mod Choices
pub mod Keys
pub mod Starting
pub mod Keyboard
pub mod Extended
pub mod Session
pub mod Lost
pub mod Shown
pub mod Opened
use bookworm.Base.{
  ℕ, Bool, Option, none, some, List, [], ◌∷◌, map, first?, last?, get_or, if◌then◌else◌,
}
use bookworm.Records.Column.{ColumnOrder, ascending, descending}
use bookworm.Database.Query.{Rules, QueryBuilder, Query, page_query, include_id}
use bookworm.Database.Selection.{
  Books, Selection, all, partial, range, empty, up, down, first, last, is_single, contains, is_lt,
  is_gt,
}
use bookworm.Database.Paginator.{
  Paginator, done, failed, panicked, Run, ◌>>=◌, window, scroll_down, scroll_up,
}
use bookworm.Database.Paginator.Jumps.{
  is_all, keep, select, shows, make_book_visible, select_and_make_visible, home, end,
}

abbrev pub select_all : {B M : Type 0} → Paginator B M → Run B M
select_all p = keep (all p.matching_rules) p

abbrev pub deselect : {B M : Type 0} → Paginator B M → Run B M
deselect p = keep empty p

module _ {B M : Type 0} (k : Books B M) (ask : Query B M → Option (List B)) where
  -- A query of which only the last book is taken, by `pop`.
  abbrev pub read_last :
      QueryBuilder → Option B → List M → Paginator B M → (Option B → Run B M) → Run B M
  read_last builder book matches p f =
      elim (ask (record { builder = builder; book = book; match_rules = matches })) [
        | none ↦ (p, failed)
        | some books ↦ f (last? books)
      ]

  -- The window is scrolled if the book is not in it.
  unfoldable pub follow : (Paginator B M → Run B M) → B → Paginator B M → Run B M
  unfolding shows window
  follow scroll b p = if shows k (k.id b) (window p) then (p, done) else scroll p

  -- `scroll_up_move_select` and `scroll_down_move_select` where one book is selected.
  unfoldable pub step_up : ℕ → B → Paginator B M → Run B M
  unfolding page_query follow scroll_up
  step_up len target p =
      read_last (page_query p.sorting_rules ascending len) (some target) p.matching_rules p
        λ found. follow (scroll_up ask len) (get_or found target) p >>= select (get_or found target)

  unfoldable pub step_down : ℕ → B → Paginator B M → Run B M
  unfolding page_query follow scroll_down
  step_down len target p =
      read_last (page_query p.sorting_rules descending len) (some target) p.matching_rules p
        λ found.
          follow (scroll_down ask len) (get_or found target) p >>= select (get_or found target)

  -- `select_up_on`, with the assignment of `select_up` at each place where it returns.
  unfoldable pub select_up_on : ℕ → Selection B M → Paginator B M → Run B M
  unfolding page_query include_id follow scroll_up window
  select_up_on len (all ms) p = scroll_up ask len p >>= keep (all ms)
  select_up_on len (partial books rules) p = keep (partial books rules) p
  select_up_on len (range start end rules down ms) p =
      read_last (page_query p.sorting_rules ascending len) (some end) ms p λ found. elim found [
        | none ↦ keep (range start end rules down ms) p
        | some b ↦
            follow (scroll_up ask len) b p
            >>= keep (
                if is_lt (k.cmp_columns rules b start)
                then range b start rules up ms
                else range start b rules down ms)
      ]
  select_up_on len (range start end rules up ms) p =
      read_last (page_query p.sorting_rules ascending len) (some start) p.matching_rules p λ found.
        elim found [
          | none ↦ keep (range start end rules up ms) p
          | some b ↦ follow (scroll_up ask len) b p >>= keep (range b end rules up ms)
        ]
  select_up_on len empty p =
      read_last (include_id (page_query p.sorting_rules ascending len)) (last? (window p))
        p.matching_rules p
        λ found. elim found [
          | none ↦ keep empty p
          | some b ↦ follow (scroll_up ask len) b p >>= λ q.
              keep (range b (get_or (last? (window p)) b) q.sorting_rules down q.matching_rules) q
        ]

  unfoldable pub select_down_on : ℕ → Selection B M → Paginator B M → Run B M
  unfolding page_query include_id follow scroll_down window
  select_down_on len (all ms) p = scroll_down ask len p >>= keep (all ms)
  select_down_on len (partial books rules) p = keep (partial books rules) p
  select_down_on len (range start end rules down ms) p =
      read_last (page_query p.sorting_rules descending len) (some end) ms p λ found. elim found [
        | none ↦ keep (range start end rules down ms) p
        | some b ↦ follow (scroll_down ask len) b p >>= keep (range start b rules down ms)
      ]
  select_down_on len (range start end rules up ms) p =
      read_last (page_query p.sorting_rules descending len) (some start) ms p λ found. elim found [
        | none ↦ keep (range start end rules up ms) p
        | some b ↦
            follow (scroll_down ask len) b p
            >>= keep (
                if is_gt (k.cmp_columns rules b end)
                then range end b rules down ms
                else range b end rules up ms)
      ]
  select_down_on len empty p =
      read_last (include_id (page_query p.sorting_rules descending len)) (first? (window p))
        p.matching_rules p
        λ found. elim found [
          | none ↦ keep empty p
          | some b ↦ follow (scroll_down ask len) b p >>= λ q.
              keep (range (get_or (first? (window p)) b) b q.sorting_rules down q.matching_rules) q
        ]

  -- An error leaves the selection empty: `mem::replace` took it.
  unfoldable pub select_up : ℕ → Paginator B M → Run B M
  unfolding select_up_on
  select_up len p = select_up_on len p.selected (record p { selected = empty })

  unfoldable pub select_down : ℕ → Paginator B M → Run B M
  unfolding select_down_on
  select_down len p = select_down_on len p.selected (record p { selected = empty })

  abbrev pub select_page_up : Paginator B M → Run B M
  select_page_up p = select_up p.window_size p

  abbrev pub select_page_down : Paginator B M → Run B M
  select_page_down p = select_down p.window_size p

  module _ (get_book : ℕ → Option B) where
    unfoldable pub scroll_up_move_select : ℕ → Paginator B M → Run B M
    unfolding first is_single step_up select_and_make_visible home scroll_up
    scroll_up_move_select len p = elim (first k p.selected) [
      | some target ↦
          if is_single k p.selected
          then step_up len target p
          else select_and_make_visible k ask get_book target p
      | none ↦ if is_all p.selected then home k ask get_book p else scroll_up ask len p
    ]

    unfoldable pub scroll_down_move_select : ℕ → Paginator B M → Run B M
    unfolding last is_single step_down select_and_make_visible end scroll_down
    scroll_down_move_select len p = elim (last k p.selected) [
      | some target ↦
          if is_single k p.selected
          then step_down len target p
          else select_and_make_visible k ask get_book target p
      | none ↦ if is_all p.selected then end k ask get_book p else scroll_down ask len p
    ]

    unfoldable pub select_to_start : Paginator B M → Run B M
    unfolding last home window
    select_to_start p = elim (last k p.selected) [
      | none ↦ (p, done)
      | some b ↦ home k ask get_book (record p { selected = empty }) >>= λ q.
          keep (range b (get_or (last? (window q)) b) q.sorting_rules up q.matching_rules) q
    ]

    unfoldable pub select_to_end : Paginator B M → Run B M
    unfolding first end window
    select_to_end p = elim (first k p.selected) [
      | none ↦ (p, done)
      | some b ↦ end k ask get_book (record p { selected = empty }) >>= λ q.
          keep (range (get_or (first? (window q)) b) b q.sorting_rules down q.matching_rules) q
    ]

    abbrev pub page_up : Paginator B M → Run B M
    page_up p = scroll_up_move_select p.window_size p

    abbrev pub page_down : Paginator B M → Run B M
    page_down p = scroll_down_move_select p.window_size p
