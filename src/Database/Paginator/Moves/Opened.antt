-- ===== src/Database/Paginator/Moves/Opened.antt =====
-- A whole session of a `Paginator` (bookworm-database/src/paginator.rs) from its start: it gets the size of
-- its window, and keys are pressed.
use bookworm.Base.{ℕ, ◌<◌, ◌≡◌, Option, List, take, drop}
use bookworm.Database.Query.{Rules, Query, add_id}
use bookworm.Database.Selection.{Books, Selection}
use bookworm.Database.Paginator.{Paginator, window}
use bookworm.Database.Paginator.Jumps.Serving.{Serves}
use bookworm.Database.Paginator.Refresh.{relative_selections}
use bookworm.Database.Paginator.Moves.Marks.{Mark, Marks, Visible}
use bookworm.Database.Paginator.Moves.Shown.{selects, numbered}

module _ {B M : Type 0} (k : Books B M) (ask : Query B M → Option (List B))
    (get_book : ℕ → Option B) (rules : Rules) (matches : List M) (sorted : List B)
    (a : Serves k ask get_book (add_id rules) matches sorted) (size : ℕ) (lines : 0 < size) where
  -- The window shows the books from some offset on, as many as it has lines; those between two books of
  -- the list are drawn as selected, or none or all; and the end that moves is in the window.
  pub record Drawn (p : Paginator B M) : Type 0 where
    pub offset : ℕ
    pub mark : Mark
    pub shown : window p ≡ take size (drop offset sorted)
    pub drawn :
        relative_selections k p ≡ numbered (selects mark) offset 0 (take size (drop offset sorted))
    pub visible : Visible ask (add_id rules) matches sorted mark offset size
