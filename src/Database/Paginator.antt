-- ===== src/Database/Paginator.antt =====
-- `Paginator` of bookworm-database/src/paginator.rs: a window on the sorted books, of which it keeps
-- those that it has read. A book is of type `B`, a matcher of type `M`; `ask` is the database: the
-- answer to a query, or `none` for an error or a panic of it.
pub mod Loading
pub mod Fields
pub mod Holding
pub mod Down
pub mod Up
pub mod Sessions
pub mod Jumps
pub mod Moves
pub mod Refresh
use bookworm.Base.{
  ℕ, ◌+◌, ◌-◌, min, Bool, true, false, Option, none, some, List, [], ◌∷◌, ◌++◌, length, take, drop,
  first?, last?, is_empty, ltb, leb, ◌==◌, if◌then◌else◌,
}
use mathlib.Core.List.{reverse}
use bookworm.Records.Column.{ColumnOrder, ascending, descending}
use bookworm.Database.Selection.{Selection, empty}
use bookworm.Database.Query.{Rules, Query, add_id, page_query, include_id}

pub record Paginator (B M : Type 0) : Type 0 where
  pub books : List B
  pub window_size : ℕ
  pub window_top : ℕ
  pub sorting_rules : Rules
  pub matching_rules : List M
  pub selected : Selection B M

-- How a method ends: it returns, a query gets no answer, or the method panics by itself.
pub data Status : Type 0 where
  done failed panicked : Status

abbrev pub Run : Type 0 → Type 0 → Type 0
Run B M = Paginator B M × Status

-- `.await?`: the state stays what it is when a call fails.
infixl 5 ◌>>=◌
abbrev pub ◌>>=◌ : {B M : Type 0} → Run B M → (Paginator B M → Run B M) → Run B M
(p, done) >>= f = f p
(p, failed) >>= f = (p, failed)
(p, panicked) >>= f = (p, panicked)

-- `Paginator::new` with `bind_match`
unfoldable pub new : {B M : Type 0} → ℕ → Rules → List M → Paginator B M
unfolding add_id
new window_size rules matches = record {
  books = [];
  window_size = window_size;
  window_top = 0;
  sorting_rules = add_id rules;
  matching_rules = matches;
  selected = empty;
}

-- `window`: the slice from `window_top`, or nothing where that lies behind the end.
unfoldable pub window : {B M : Type 0} → Paginator B M → List B
window p =
    let end = min (p.window_top + p.window_size) (length p.books) in
    if leb p.window_top end then take (end - p.window_top) (drop p.window_top p.books) else []

-- The assignment to `window_top`.
abbrev pub at_top : {B M : Type 0} → ℕ → Paginator B M → Run B M
at_top top p = (record p { window_top = top }, done)

-- The end of `scroll_up`: the window goes up where the books do not fill it.
abbrev pub lower : {B M : Type 0} → Paginator B M → Run B M
lower r = at_top (min (length r.books - r.window_size) r.window_top) r

module _ {B M : Type 0} (ask : Query B M → Option (List B)) where
  -- `join_cols` and `read_selected_books`, both behind `ask`: it gives no answer also where `join_cols`
  -- panics, since a matcher has no SQL (`sql_query` of Database/Search). The second query, of five times the length, only warms
  -- the cache of the database: its answer is dropped.
  abbrev read_page : Paginator B M → ColumnOrder → ℕ → Option B → Option (List B)
  read_page p order limit book = ask (record {
    builder = page_query p.sorting_rules order limit;
    book = book;
    match_rules = p.matching_rules;
  })

  unfoldable pub load_books_after_end : ℕ → Paginator B M → Run B M
  unfolding page_query
  load_books_after_end num_books p =
      if num_books == 0
      then (p, done)
      else elim (read_page p descending num_books (last? p.books)) [
        | none ↦ (p, failed)
        | some books ↦ (record p { books = p.books ++ books }, done)
      ]

  unfoldable pub load_books_before_start : ℕ → Paginator B M → Run B M
  unfolding page_query
  load_books_before_start num_books p =
      if num_books == 0
      then (p, done)
      else elim (read_page p ascending num_books (first? p.books)) [
        | none ↦ (p, failed)
        | some books ↦
            if is_empty books
            then (p, done)
            else (record p { books = reverse books ++ p.books }, done)
      ]

  -- `scroll_down`, once the books behind the last are read.
  unfoldable pub settle_down : Paginator B M → Run B M
  unfolding load_books_before_start
  settle_down q =
      if ltb (length q.books) q.window_size
      then (load_books_before_start (q.window_size - length q.books) q >>= at_top 0)
      else at_top (length q.books - q.window_size) q

  unfoldable pub scroll_down : ℕ → Paginator B M → Run B M
  unfolding load_books_after_end settle_down
  scroll_down len p =
      let target = p.window_top + p.window_size + len in
      if ltb target (length p.books)
      then at_top (p.window_top + len) p
      else load_books_after_end (target - length p.books) p >>= settle_down

  unfoldable pub settle_up : Paginator B M → Run B M
  unfolding load_books_after_end
  settle_up q =
      if ltb (q.window_top + q.window_size) (length q.books)
      then (q, done)
      else load_books_after_end (q.window_top + q.window_size - length q.books) q >>= lower

  unfoldable pub scroll_up : ℕ → Paginator B M → Run B M
  unfolding settle_up load_books_before_start
  scroll_up len p =
      (if ltb p.window_top len
        then (load_books_before_start (len - p.window_top) p >>= at_top 0)
        else at_top (p.window_top - len) p)
      >>= settle_up

  unfoldable pub update_window_size : ℕ → Paginator B M → Run B M
  unfolding scroll_down
  update_window_size size p = scroll_down 0 (record p { window_size = size })
