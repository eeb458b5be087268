-- ===== src/Database/Paginator/Moves/Keyboard.antt =====
-- The keys of the list of books, which `BookView` (bookworm-database/src/bookview.rs) passes on to a
-- `Paginator` (bookworm-database/src/paginator.rs).
use bookworm.Base.{ℕ, Option, List, [], ◌∷◌}
use bookworm.Database.Query.{Query}
use bookworm.Database.Selection.{Books}
use bookworm.Database.Paginator.{Paginator, done, Run, ◌>>=◌}
use bookworm.Database.Paginator.Jumps.{home, end}
use bookworm.Database.Paginator.Moves.{
  select_up, select_down, select_to_start, select_to_end, select_all, deselect, select_page_up,
  select_page_down, page_up, page_down, scroll_up_move_select, scroll_down_move_select,
}

-- The keys of the list of books, which `ColumnWidget` (bookworm-tui) binds; `BookView` passes them on to the
-- paginator. With shift they select.
pub data Key : Type 0 where
  arrow_up arrow_down page_up_key page_down_key home_key end_key : Key
  shift_up shift_down shift_page_up shift_page_down shift_home shift_end : Key
  select_all_key deselect_key : Key

-- All keys but Shift+Home and Shift+End, whose range may end where no book is.
abbrev pub IsFollowed : Key → Type 0
IsFollowed shift_home = ⊥
IsFollowed shift_end = ⊥
IsFollowed e = Unit {0}

module _ {B M : Type 0} (k : Books B M) (ask : Query B M → Option (List B))
    (get_book : ℕ → Option B) where
  abbrev pub press : Key → Paginator B M → Run B M
  press arrow_up p = scroll_up_move_select k ask get_book 1 p
  press arrow_down p = scroll_down_move_select k ask get_book 1 p
  press page_up_key p = page_up k ask get_book p
  press page_down_key p = page_down k ask get_book p
  press home_key p = home k ask get_book p
  press end_key p = end k ask get_book p
  press shift_up p = select_up k ask 1 p
  press shift_down p = select_down k ask 1 p
  press shift_page_up p = select_page_up k ask p
  press shift_page_down p = select_page_down k ask p
  press shift_home p = select_to_start k ask get_book p
  press shift_end p = select_to_end k ask get_book p
  press select_all_key p = select_all p
  press deselect_key p = deselect p

  abbrev pub presses : List Key → Paginator B M → Run B M
  presses [] p = (p, done)
  presses (e ∷ es) p = press e p >>= presses es
