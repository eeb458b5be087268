-- ===== src/Database/View.antt =====
-- `BookView` of bookworm-database/src/bookview.rs: a stack of paginators, each of which narrows what those
-- below it show. Its methods that pass a key on to the active paginator are `at_active` of the method.
pub mod Conditions
pub mod Searches
pub mod Scopes
pub mod Jumping
use bookworm.Base.{
  ℕ, Bool, true, false, Option, none, some, List, [], ◌∷◌, ◌++◌, last?, first?, get_or, Text,
  if◌then◌else◌,
}
use bookworm.Database.Query.{Rules, Query}
use bookworm.Database.Selection.{Books, Selection}
use bookworm.Database.Search.{Search, Matcher, into_matcher, all_sql}
use bookworm.Database.Paginator.{
  Paginator, Status, done, failed, panicked, Run, new, window, update_window_size, scroll_up,
  scroll_down,
}
use bookworm.Database.Paginator.Jumps.{keep, make_book_visible, sort_by}
use bookworm.Database.Paginator.Moves.Keyboard.{Key, press}
use bookworm.Database.Paginator.Refresh.{refresh, relative_selections}

-- The last scope is the active one.
pub record BookView (B M : Type 0) : Type 0 where
  pub scopes : List (Paginator B M)
  pub root_cursor : Paginator B M

abbrev pub Viewing : Type 0 → Type 0 → Type 0
Viewing B M = BookView B M × Status

module _ {B M : Type 0} where
  unfoldable pub new_view : BookView B M
  unfolding new
  new_view = record { scopes = []; root_cursor = new 0 [] [] }

  unfoldable pub active_cursor : BookView B M → Paginator B M
  active_cursor v = get_or (last? v.scopes) v.root_cursor

  -- A method of the last of some paginators.
  unfoldable pub at_last :
      (Paginator B M → Run B M)
      → Paginator B M
      → List (Paginator B M)
      → List (Paginator B M) × Status
  at_last f p [] = let (q, s) = f p in (q ∷ [], s)
  at_last f p (q ∷ qs) = let (rest, s) = at_last f q qs in (p ∷ rest, s)

  abbrev pub at_scopes :
      (Paginator B M → Run B M) → List (Paginator B M) → Paginator B M → Viewing B M
  at_scopes f [] root = let (q, s) = f root in (record { scopes = []; root_cursor = q }, s)
  at_scopes f (p ∷ ps) root =
      let (rest, s) = at_last f p ps in (record { scopes = rest; root_cursor = root }, s)

  -- A method of `active_cursor_mut`.
  unfoldable pub at_active : (Paginator B M → Run B M) → BookView B M → Viewing B M
  unfolding at_last
  at_active f v = at_scopes f v.scopes v.root_cursor

  -- The loops over all paginators, which the first error leaves.
  unfoldable pub for_each :
      (Paginator B M → Run B M) → List (Paginator B M) → List (Paginator B M) × Status
  for_each f [] = ([], done)
  for_each f (p ∷ ps) =
      let (rest, t) = for_each f ps in
      let (q, s) = f p in
      elim s [ done ↦ (q ∷ rest, t) | failed ↦ (q ∷ ps, failed) | panicked ↦ (q ∷ ps, panicked) ]

  unfoldable pub at_all : (Paginator B M → Run B M) → BookView B M → Viewing B M
  unfolding for_each
  at_all f v =
      let (rest, t) = for_each f v.scopes in
      let (q, s) = f v.root_cursor in
      elim s [
        | done ↦ (record { scopes = rest; root_cursor = q }, t)
        | failed ↦ (record v { root_cursor = q }, failed)
        | panicked ↦ (record v { root_cursor = q }, panicked)
      ]

  -- `matchers.extend(scope.matchers())`, for all scopes.
  unfoldable pub all_matchers : List (Paginator B M) → List M
  all_matchers [] = []
  all_matchers (p ∷ ps) = p.matching_rules ++ all_matchers ps

  abbrev without_last : Paginator B M → List (Paginator B M) → List (Paginator B M)
  without_last p [] = []
  without_last p (q ∷ qs) = p ∷ without_last q qs

  -- `Vec::pop`
  abbrev pub pop : List (Paginator B M) → List (Paginator B M)
  pop [] = []
  pop (p ∷ ps) = without_last p ps

  unfoldable pub pop_scope : BookView B M → BookView B M × Bool
  pop_scope v = elim (last? v.scopes) [
    | none ↦ (v, false)
    | some p ↦ (record v { scopes = pop v.scopes }, true)
  ]

module _ {B M : Type 0} (k : Books B M) (ask : Query B M → Option (List B))
    (get_book : ℕ → Option B) where
  -- The end of `jump_to`: what the temporary paginator found is made visible.
  unfoldable pub jump_to_found : Run B M → BookView B M → Viewing B M
  unfolding window at_active make_book_visible
  jump_to_found (found, done) v = elim (first? (window found)) [
    | none ↦ (v, done)
    | some b ↦ at_active (make_book_visible k ask get_book (some b)) v
  ]
  jump_to_found (found, failed) v = (v, failed)
  jump_to_found (found, panicked) v = (v, panicked)

module _ {R : Type 0} (compile : Text → Option R) (escape : Text → Text) where
  -- `map(into_matcher).filter_map(Result::ok)`
  unfoldable pub new_matchers : List Search → List (Matcher R)
  unfolding into_matcher
  new_matchers [] = []
  new_matchers (s ∷ searches) = elim (into_matcher compile escape s) [
    | none ↦ new_matchers searches
    | some m ↦ m ∷ new_matchers searches
  ]

module _ {B R : Type 0} (compile : Text → Option R) (escape : Text → Text) where
  unfoldable pub create_paginator : List Search → BookView B (Matcher R) → Paginator B (Matcher R)
  unfolding new all_matchers new_matchers
  create_paginator searches v =
      new v.root_cursor.window_size v.root_cursor.sorting_rules
        (all_matchers v.scopes ++ new_matchers compile escape searches)

  unfoldable pub push_scope : List Search → BookView B (Matcher R) → BookView B (Matcher R)
  unfolding create_paginator
  push_scope searches v = record v { scopes = v.scopes ++ create_paginator searches v ∷ [] }

  module _ (k : Books B (Matcher R)) (ask : Query B (Matcher R) → Option (List B))
      (get_book : ℕ → Option B) where
    -- A temporary paginator of one line finds the first match. Its first query calls `sql_query` of all
    -- its matchers, in `join_cols`, before the database is asked.
    unfoldable pub jump_to : List Search → BookView B (Matcher R) → Viewing B (Matcher R)
    unfolding create_paginator update_window_size jump_to_found all_sql
    jump_to searches v =
        if all_sql (create_paginator searches v).matching_rules
        then jump_to_found k ask get_book (update_window_size ask 1 (create_paginator searches v)) v
        else (v, panicked)

module _ {B M : Type 0} (k : Books B M) (ask : Query B M → Option (List B))
    (get_book : ℕ → Option B) (get_books : List ℕ → Option (List (ℕ × B))) where
  abbrev pub sort_by_columns : Rules → BookView B M → Viewing B M
  sort_by_columns cols = at_all (sort_by k ask get_book cols)

  abbrev pub refresh_window_size : ℕ → BookView B M → Viewing B M
  refresh_window_size size = at_all (update_window_size ask size)

  abbrev pub refresh_view : BookView B M → Viewing B M
  refresh_view = at_all (refresh k ask get_book get_books)

  -- The methods that the keys call, and those that the mouse calls.
  abbrev pub key : Key → BookView B M → Viewing B M
  key e = at_active (press k ask get_book e)

  abbrev pub scroll_view_up : ℕ → BookView B M → Viewing B M
  scroll_view_up scroll = at_active (scroll_up ask scroll)

  abbrev pub scroll_view_down : ℕ → BookView B M → Viewing B M
  scroll_view_down scroll = at_active (scroll_down ask scroll)
