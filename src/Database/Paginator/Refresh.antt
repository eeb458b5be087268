-- ===== src/Database/Paginator/Refresh.antt =====
-- `refresh` and `relative_selections` of `Paginator` (bookworm-database/src/paginator.rs). `get_book` and
-- `get_books` are methods of the database; `none` is an error of them.
pub mod Kept
use bookworm.Base.{
  ℕ, suc, ◌==◌, Bool, true, false, Option, none, some, List, [], ◌∷◌, map, first?, get_or,
  if◌then◌else◌,
}
use bookworm.Database.Query.{Rules, Query}
use bookworm.Database.Selection.{Books, Selection, all, partial, range, empty, contains}
use bookworm.Database.Paginator.{Paginator, done, failed, Run, ◌>>=◌, window}
use bookworm.Database.Paginator.Jumps.{keep, make_book_visible}

module _ {B M : Type 0} (k : Books B M) where
  -- `iter().find(|x| selected.contains(&x)).or_else(|| first)`
  unfoldable pub find_selected : Selection B M → List B → Option B
  unfolding contains
  find_selected s [] = none
  find_selected s (b ∷ bs) = if contains k s b then some b else find_selected s bs

  abbrev pub or_else : Option B → Option B → Option B
  or_else none o = o
  or_else (some b) o = some b

  -- `enumerate().filter(..)`, from a number on.
  unfoldable pub enumerate_selected : Selection B M → ℕ → List B → List (ℕ × B)
  unfolding contains
  enumerate_selected s n [] = []
  enumerate_selected s n (b ∷ bs) =
      let rest = enumerate_selected s (suc n) bs in if contains k s b then (n, b) ∷ rest else rest

  unfoldable pub relative_selections : Paginator B M → List (ℕ × B)
  unfolding enumerate_selected window
  relative_selections p = enumerate_selected p.selected 0 (window p)

  module _ (ask : Query B M → Option (List B)) (get_book : ℕ → Option B)
      (get_books : List ℕ → Option (List (ℕ × B))) where
    -- The books of a selection are read again; the ends of a range that the database does not give
    -- stay.
    unfoldable pub reload : Selection B M → Paginator B M → Run B M
    reload (all ms) p = (p, done)
    reload (partial books rules) p = elim (get_books (map (λ e. e.0) books)) [
      | none ↦ (p, failed)
      | some now ↦ keep (partial now rules) p
    ]
    reload (range start end rules dir ms) p =
        keep
          (range (get_or (get_book (k.id start)) start) (get_or (get_book (k.id end)) end) rules dir
            ms)
          p
    reload empty p = (p, done)

    unfoldable pub refresh : Paginator B M → Run B M
    unfolding find_selected make_book_visible reload window
    refresh p =
        make_book_visible k ask get_book
          (or_else (find_selected p.selected (window p)) (first? (window p)))
          (record p { books = [] })
        >>= λ q. reload q.selected q
