-- ===== src/Database/Paginator/Moves/Shown.antt =====
-- `relative_selections` of `Paginator` (bookworm-database/src/paginator.rs): the lines of the window that
-- are drawn as selected.
use bookworm.Base.{
  ℕ, suc, ◌+◌, ◌<◌, min, max, ◌≡◌, refl, sym, ap, ◌∙◌, Bool, true, false, ◌&&◌, Option, some, List,
  [], ◌∷◌, get_elem?, get_elem?-take, get_elem?-drop, lt-length, length-take, take, drop, compare,
  arith, if◌then◌else◌, leb,
}
use bookworm.Database.Query.{Rules, Query}
use bookworm.Database.Selection.{
  Books, Selection, all, partial, range, empty, up, down, contains, matches_all, is_le, is_ge,
}
use bookworm.Database.Paginator.{Paginator, window}
use bookworm.Database.Paginator.Holding.{window-ShowsAt}
use bookworm.Database.Paginator.Jumps.Serving.{Serves}
use bookworm.Database.Paginator.Refresh.{enumerate_selected, relative_selections}
use bookworm.Database.Paginator.Moves.Marks.{Mark, nothing, everything, marked, Marks, View}

-- Whether the book at an index is selected: it stands from the one end to the other.
abbrev pub selects : Mark → ℕ → Bool
selects nothing n = false
selects everything n = true
selects (marked anchor head) n = leb (min anchor head) n && leb n (max anchor head)

-- The elements whose index passes a test, with their number in the list; indices count from `i`,
-- numbers from `n`.
unfoldable pub numbered : {B : Type 0} → (ℕ → Bool) → ℕ → ℕ → List B → List (ℕ × B)
numbered f i n [] = []
numbered f i n (b ∷ bs) =
    let rest = numbered f (suc i) (suc n) bs in if f i then (n, b) ∷ rest else rest

module _ {B M : Type 0} (k : Books B M) (ask : Query B M → Option (List B))
    (get_book : ℕ → Option B) (rules : Rules) (matches : List M) (sorted : List B)
    (a : Serves k ask get_book rules matches sorted)
    (found : (i : ℕ) (b : B) → get_elem? sorted i ≡ some b → matches_all k matches b ≡ true) where
  between :
      (i j n : ℕ) (b c d : B) (r : Rules) (ms : List M)
      → r ≡ rules
      → ms ≡ matches
      → get_elem? sorted i ≡ some b
      → get_elem? sorted j ≡ some c
      → get_elem? sorted n ≡ some d
      → (matches_all k ms d && is_le (k.cmp_columns r b d) && is_ge (k.cmp_columns r c d))
        ≡ (leb i n && leb n j)
  between i j n b c d r ms e e' at at' at'' =
      let first_end : k.cmp_columns r b d ≡ compare i n =
        ap (λ r'. k.cmp_columns r' b d) e ∙ a.ordered i n b d at at'' in
      let last_end : k.cmp_columns r c d ≡ compare j n =
        ap (λ r'. k.cmp_columns r' c d) e ∙ a.ordered j n c d at' at'' in
      let all_match : matches_all k ms d ≡ true = ap (λ l. matches_all k l d) e' ∙ found n d at'' in
      rw (first_end, last_end, all_match) (ground arith)

  contains_lem :
      (s : Selection B M) (m : Mark) (n : ℕ) (d : B)
      → Marks ask rules matches sorted s m
      → get_elem? sorted n ≡ some d
      → contains k s d ≡ selects m n
  unfolding contains
  contains_lem empty nothing n d h at = refl
  contains_lem (all ms) everything n d h at = ap (λ l. matches_all k l d) h ∙ found n d at
  contains_lem (range start end r down ms) (marked anchor head) n d h at =
      between anchor head n start end d r ms h.3 h.4 h.0 h.1 at ∙ ground arith
  contains_lem (range start end r up ms) (marked anchor head) n d h at =
      between head anchor n start end d r ms h.3 h.4 h.0 h.1 at ∙ ground arith
  contains_lem (all ms) nothing n d h at = absurd h
  contains_lem (partial books r) nothing n d h at = absurd h
  contains_lem (range x y r up ms) nothing n d h at = absurd h
  contains_lem (range x y r down ms) nothing n d h at = absurd h
  contains_lem empty everything n d h at = absurd h
  contains_lem (partial books r) everything n d h at = absurd h
  contains_lem (range x y r up ms) everything n d h at = absurd h
  contains_lem (range x y r down ms) everything n d h at = absurd h
  contains_lem (all ms) (marked anchor head) n d h at = absurd h
  contains_lem (partial books r) (marked anchor head) n d h at = absurd h
  contains_lem empty (marked anchor head) n d h at = absurd h

  enumerate_selected_lem :
      (s : Selection B M) (f : ℕ → Bool) (i n : ℕ) (bs : List B)
      → ((j : ℕ) (b : B) → get_elem? bs j ≡ some b → contains k s b ≡ f (i + j))
      → enumerate_selected k s n bs ≡ numbered f i n bs
  unfolding enumerate_selected numbered
  enumerate_selected_lem s f i n [] h = refl
  enumerate_selected_lem s f i n (b ∷ bs) h =
      let first_same : contains k s b ≡ f i =
        h 0 b refl ∙ ap f (let e : i + 0 ≡ i = omega arith in e) in
      let rest_same : enumerate_selected k s (suc n) bs ≡ numbered f (suc i) (suc n) bs =
        enumerate_selected_lem s f (suc i) (suc n) bs
          (λ j c at. h (suc j) c at ∙ ap f (let e : i + suc j ≡ suc i + j = omega arith in e)) in
      rw (first_same, rest_same) refl

  -- The lines that are drawn as selected are those of the books from the one end of the selection to the
  -- other, if every book of the list passes the matchers.
  pub relative_selections_lem :
      (size : ℕ) (m : Mark) (p : Paginator B M) (v : View ask rules matches sorted size m p)
      → relative_selections k p ≡ numbered (selects m) v.offset 0 (take size (drop v.offset sorted))
  unfolding relative_selections
  relative_selections_lem size m p v =
      let page = take size (drop v.offset sorted) in
      let shown : window p ≡ page =
        window-ShowsAt ask rules matches sorted p v.offset v.shown
        ∙ ap (λ n. take n (drop v.offset sorted)) v.sized in
      ap (enumerate_selected k p.selected 0) shown
      ∙ enumerate_selected_lem p.selected (selects m) v.offset 0 page (λ j b at.
        let inside : j < size =
          omega (arith, lt-length page j b at, length-take size (drop v.offset sorted)) in
        contains_lem p.selected m (v.offset + j) b v.selects (
          sym (get_elem?-drop v.offset sorted j)
          ∙ sym (get_elem?-take size (drop v.offset sorted) j inside)
          ∙ at))
