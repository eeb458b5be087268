-- ===== src/Database/Paginator/Moves/Session.antt =====
-- All keys of `Paginator` (bookworm-database/src/paginator.rs), as the view of the library binds them, and
-- whole sessions of keys.
use bookworm.Base.{All, ℕ, ◌<◌, sym, Option, List, [], ◌∷◌, length, arith, subst}
use bookworm.Database.Query.{Rules, Query}
use bookworm.Database.Selection.{Books, all, empty}
use bookworm.Database.Paginator.{Paginator, Run}
use bookworm.Database.Paginator.Loading.{Ends, Ends-bind}
use bookworm.Database.Paginator.Holding.{ShowsAt}
use bookworm.Database.Paginator.Jumps.Serving.{Serves}
use bookworm.Database.Paginator.Moves.Marks.{Mark, nothing, everything, Marks, Visible, View}
use bookworm.Database.Paginator.Moves.Stepping.{Viewed}
use bookworm.Database.Paginator.Moves.Keys.{home_moved, end_moved, up_moved, down_moved}
use bookworm.Database.Paginator.Moves.Keyboard.{
  Key, arrow_up, arrow_down, page_up_key, page_down_key, home_key, end_key, shift_up, shift_down,
  shift_page_up, shift_page_down, shift_home, shift_end, select_all_key, deselect_key, IsFollowed,
  press, presses,
}
use bookworm.Database.Paginator.Moves.Extended.{pressed, viewed, up_extended, down_extended}

module _ {B M : Type 0} (k : Books B M) (ask : Query B M → Option (List B))
    (get_book : ℕ → Option B) (rules : Rules) (matches : List M) (sorted : List B)
    (a : Serves k ask get_book rules matches sorted) where
  abbrev V : ℕ → Mark → Run B M → Type 0
  V = Viewed k ask get_book rules matches sorted a

  module _ (p : Paginator B M) (offset : ℕ) (s : ShowsAt ask rules matches sorted p offset)
      (lines : 0 < p.window_size) where
    press_go :
        (e : Key) (m : Mark)
        → IsFollowed e
        → Marks ask rules matches sorted p.selected m
        → Visible ask rules matches sorted m offset p.window_size
        → V p.window_size
            (pressed p.window_size (length sorted) offset e m)
            (press k ask get_book e p)
    press_go arrow_up m f h v =
        up_moved k ask get_book rules matches sorted a p offset 1 s lines p.selected m h v
    press_go arrow_down m f h v =
        down_moved k ask get_book rules matches sorted a p offset 1 s lines p.selected m h v
    press_go page_up_key m f h v =
        up_moved k ask get_book rules matches sorted a p offset p.window_size s lines p.selected m h
          v
    press_go page_down_key m f h v =
        down_moved k ask get_book rules matches sorted a p offset p.window_size s lines p.selected m
          h v
    press_go home_key m f h v =
        home_moved k ask get_book rules matches sorted a p offset 0 s lines p.selected m h v
    press_go end_key m f h v =
        end_moved k ask get_book rules matches sorted a p offset 0 s lines p.selected m h v
    press_go shift_up m f h v =
        up_extended k ask get_book rules matches sorted a p offset s lines 1 lines (omega arith)
          p.selected m h v
    press_go shift_down m f h v =
        down_extended k ask get_book rules matches sorted a p offset s lines 1 lines (omega arith)
          p.selected m h v
    press_go shift_page_up m f h v =
        up_extended k ask get_book rules matches sorted a p offset s lines p.window_size
          (omega arith) lines p.selected m h v
    press_go shift_page_down m f h v =
        down_extended k ask get_book rules matches sorted a p offset s lines p.window_size
          (omega arith) lines p.selected m h v
    press_go shift_home m f h v = absurd f
    press_go shift_end m f h v = absurd f
    press_go select_all_key m f h v =
        viewed k ask get_book rules matches sorted a p offset s lines (all p.matching_rules)
          everything s.held.same_matches tt
    press_go deselect_key m f h v =
        viewed k ask get_book rules matches sorted a p offset s lines empty nothing tt tt

  module _ (size : ℕ) (lines : 0 < size) where
    abbrev Seen : Mark → Paginator B M → Type 0
    Seen = View ask rules matches sorted size

    pub press-View :
        (e : Key) (m : Mark) (p : Paginator B M) (v : Seen m p)
        → IsFollowed e
        → Ends ask rules matches sorted
            (press k ask get_book e p)
            (Seen (pressed size (length sorted) v.offset e m))
    press-View e m p v f =
        subst (λ n. V n (pressed n (length sorted) v.offset e m) (press k ask get_book e p)) v.sized
          (press_go p v.offset v.shown (omega (arith, v.sized)) e m f v.selects
            (subst (Visible ask rules matches sorted m v.offset) (sym v.sized) v.visible))

    -- After any of these keys the window shows a piece of the sorted list, no call has failed, and the selection is
    -- nothing, everything or the books between two of the list, of which the head is on screen.
    pub presses-View :
        (es : List Key) (m : Mark) (p : Paginator B M)
        → Seen m p
        → All IsFollowed es
        → Ends ask rules matches sorted (presses k ask get_book es p) (λ q. (m' : Mark) × Seen m' q)
    presses-View [] m p v f = (m, v)
    presses-View (e ∷ es) m p v f =
        Ends-bind ask rules matches sorted (press k ask get_book e p) (presses k ask get_book es) _
          _ (press-View e m p v f.0)
          (λ q w. presses-View es (pressed size (length sorted) v.offset e m) q w f.1)
