-- ===== src/Database/Paginator/Jumps.antt =====
-- The jumps of `Paginator` (bookworm-database/src/paginator.rs): to a book, to the start and to the end.
-- `get_book` is the database's method, `none` an error of it.
pub mod Serving
pub mod Places
pub mod Showing
use bookworm.Base.{
  ℕ, ◌-◌, Bool, true, false, ◌||◌, ◌==◌, ltb, Option, none, some, List, [], ◌∷◌, length, first?,
  last?, get_or, if◌then◌else◌,
}
use mathlib.Core.List.{reverse}
use bookworm.Records.Column.{ColumnOrder, ascending, descending}
use bookworm.Database.Query.{Rules, QueryBuilder, Query, add_id, page_query, include_id}
use bookworm.Database.Selection.{
  Books, Selection, all, partial, range, empty, down, first, last, is_single,
}
use bookworm.Database.Paginator.{
  Paginator, done, failed, panicked, Run, ◌>>=◌, window, load_books_before_start, scroll_down,
  scroll_up,
}

-- `matches!(self.selected, Selection::All(_))`
abbrev pub is_all : {B M : Type 0} → Selection B M → Bool
is_all (all _) = true
is_all (partial _ _) = false
is_all (range _ _ _ _ _) = false
is_all empty = false

-- The assignment to `selected`: of any selection, and of one book.
abbrev pub keep : {B M : Type 0} → Selection B M → Paginator B M → Run B M
keep s p = (record p { selected = s }, done)

abbrev pub select : {B M : Type 0} → B → Paginator B M → Run B M
select b p = keep (range b b p.sorting_rules down p.matching_rules) p

module _ {B M : Type 0} (k : Books B M) where
  -- `iter().any(|x| x.id() == id)`
  unfoldable pub shows : ℕ → List B → Bool
  shows n [] = false
  shows n (b ∷ bs) = k.id b == n || shows n bs

  -- The end of `home` and of `end`: one book is selected anew.
  unfoldable pub reselect : Option B → Paginator B M → Run B M
  unfolding is_single
  reselect none p = (p, done)
  reselect (some b) p =
      if is_single k p.selected || is_all p.selected then select b p else (p, done)

module _ {B M : Type 0} (k : Books B M) (ask : Query B M → Option (List B)) where
  -- The end of `make_book_visible`: the lines that stay empty are filled from above. The subtraction
  -- overflows where the database answers with more books than it was asked for.
  unfoldable pub fill : Paginator B M → Run B M
  fill p =
      if ltb p.window_size (length p.books)
      then (p, panicked)
      else if p.window_size - length p.books == 0
      then (p, done)
      else load_books_before_start ask (p.window_size - length p.books) p

  unfoldable pub open_page : Option B → Paginator B M → Run B M
  unfolding include_id page_query fill
  open_page book p =
      elim (ask (record {
        builder = include_id (page_query p.sorting_rules descending p.window_size);
        book = book;
        match_rules = p.matching_rules;
      })) [ none ↦ (p, failed) | some books ↦ fill (record p { books = books; window_top = 0 }) ]

  -- `home` and `end` where not more than one book is selected.
  unfoldable pub go_home : Paginator B M → Run B M
  unfolding scroll_down window reselect
  go_home p = scroll_down ask 0 (record p { window_top = 0; books = [] }) >>= λ q.
      reselect k (first? (window q)) q

  unfoldable pub go_end : Paginator B M → Run B M
  unfolding page_query window reselect
  go_end p =
      elim (ask (record {
        builder = page_query p.sorting_rules ascending p.window_size;
        book = none;
        match_rules = p.matching_rules;
      })) [
        | none ↦ (record p { window_top = 0 }, failed)
        | some books ↦
            let q : Paginator B M = record p { window_top = 0; books = reverse books } in
            reselect k (last? (window q)) q
      ]

  module _ (get_book : ℕ → Option B) where
    -- `make_book_visible`; a book that the database does not have is taken as it is.
    unfoldable pub make_book_visible : Option B → Paginator B M → Run B M
    unfolding shows window open_page
    make_book_visible none p = open_page none p
    make_book_visible (some b) p =
        if shows k (k.id b) (window p)
        then (p, done)
        else open_page (some (get_or (get_book (k.id b)) b)) p

    unfoldable pub sort_by : Rules → Paginator B M → Run B M
    unfolding add_id make_book_visible
    sort_by rules p =
        make_book_visible (first? (window p))
          (record p { sorting_rules = add_id rules; books = [] })

    unfoldable pub select_and_make_visible : B → Paginator B M → Run B M
    unfolding make_book_visible
    select_and_make_visible target p = make_book_visible (some target) p >>= select target

    unfoldable pub home : Paginator B M → Run B M
    unfolding first is_single go_home select_and_make_visible
    home p = elim (first k p.selected) [
      | none ↦ go_home p
      | some target ↦ if is_single k p.selected then go_home p else select_and_make_visible target p
    ]

    unfoldable pub end : Paginator B M → Run B M
    unfolding last is_single go_end select_and_make_visible
    end p = elim (last k p.selected) [
      | none ↦ go_end p
      | some target ↦ if is_single k p.selected then go_end p else select_and_make_visible target p
    ]
