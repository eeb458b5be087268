-- ===== src/Database/View/Jumping.antt =====
-- `jump_to` of `BookView` (bookworm-database/src/bookview.rs) leads to the first match.
use bookworm.Base.{ℕ, ◌<◌, ◌≡◌, Option, none, some, List, Text, Bool, true, false}
use bookworm.Database.Query.{Rules, Query}
use bookworm.Database.Selection.{Books}
use bookworm.Database.Search.{Search, Matcher}
use bookworm.Database.Paginator.{Paginator, done, panicked}
use bookworm.Database.Paginator.Holding.{ShowsAt}
use bookworm.Database.Paginator.Jumps.{make_book_visible}
use bookworm.Database.Paginator.Jumps.Serving.{Serves, Sees}
use bookworm.Database.View.{BookView, Viewing, active_cursor, at_active}

module _ {B R : Type 0} (compile : Text → Option R) (escape : Text → Text) (k : Books B (Matcher R))
    (ask : Query B (Matcher R) → Option (List B)) (get_book : ℕ → Option B) (rules : Rules)
    (sorted : List B) (v : BookView B (Matcher R))
    (a : Serves k ask get_book rules (active_cursor v).matching_rules sorted) where
  abbrev active : Paginator B (Matcher R)
  active = active_cursor v

  -- Where `jump_to` leads: if nothing is found, nothing changes; else the active window shows a piece of
  -- its list in which the book at an index is.
  abbrev pub Lands : Option B → ℕ → Viewing B (Matcher R) → Type 0
  Lands none t r = r ≡ (v, done)
  Lands (some b) t (w, s) =
      (s ≡ done)
      × Sees k ask get_book rules active.matching_rules sorted active.window_size active.selected t
          (active_cursor w)

  -- Where a jump ends: it panics, or leads somewhere.
  abbrev pub Jumps : Bool → Option B → ℕ → Viewing B (Matcher R) → Type 0
  Jumps true o t r = Lands o t r
  Jumps false o t r = r ≡ (v, panicked)

  module _ (offset t : ℕ) (s : ShowsAt ask rules active.matching_rules sorted active offset)
      (lines : 0 < active.window_size) where
    abbrev made_first : Option B → Viewing B (Matcher R)
    made_first o = elim o [
      | none ↦ (v, done)
      | some b ↦ at_active (make_book_visible k ask get_book (some b)) v
    ]
