-- ===== src/Database/Paginator/Moves/Choices.antt =====
-- Which book of a selection the keys of `Paginator` (bookworm-database/src/paginator.rs) go on from, and the
-- selection that they leave.
use bookworm.Base.{
  ℕ, ◌+◌, ◌-◌, min, max, ◌≡◌, refl, sym, Bool, true, false, Option, none, some, List, get_elem?,
  arith, subst, if◌then◌else◌, ◌==◌,
}
use bookworm.Database.Query.{Rules, Query}
use bookworm.Database.Selection.{
  Books, Selection, all, partial, range, empty, up, down, first, last,
}
use bookworm.Database.Paginator.{Run}
use bookworm.Database.Paginator.Jumps.{end}
use bookworm.Database.Paginator.Jumps.Serving.{Serves}
use bookworm.Database.Paginator.Moves.Marks.{Mark, nothing, everything, marked, Marks}
use bookworm.Database.Paginator.Moves.Stepping.{Viewed}
use bookworm.Database.Paginator.Moves.Landing.{one, landed}

-- The selection after `home`, `end` and the keys that move by so many books, in a list of so many: one
-- book moves, several collapse to the first or to the last.
abbrev pub home_mark : ℕ → Mark → Mark
home_mark size nothing = nothing
home_mark size everything = landed size 0 everything
home_mark size (marked anchor head) = if anchor == head then one 0 else one (min anchor head)

abbrev pub end_mark : ℕ → Mark → Mark
end_mark size nothing = nothing
end_mark size everything = landed size (size - 1) everything
end_mark size (marked anchor head) =
    if anchor == head then one (size - 1) else one (max anchor head)

abbrev pub up_mark : ℕ → ℕ → Mark → Mark
up_mark size len nothing = nothing
up_mark size len everything = home_mark size everything
up_mark size len (marked anchor head) =
    if anchor == head then one (head - len) else one (min anchor head)

abbrev pub down_mark : ℕ → ℕ → Mark → Mark
down_mark size len nothing = nothing
down_mark size len everything = end_mark size everything
down_mark size len (marked anchor head) =
    if anchor == head then one (min (head + len) (size - 1)) else one (max anchor head)

module _ {B M : Type 0} (k : Books B M) (ask : Query B M → Option (List B))
    (get_book : ℕ → Option B) (rules : Rules) (matches : List M) (sorted : List B)
    (a : Serves k ask get_book rules matches sorted) where
  abbrev V : ℕ → Mark → Run B M → Type 0
  V = Viewed k ask get_book rules matches sorted a

  pub if-View :
      (size : ℕ) (c c' : Bool) (m m' : Mark) (r r' : Run B M)
      → c ≡ c'
      → (c' ≡ true → V size m r)
      → (c' ≡ false → V size m' r')
      → V size (if c' then m else m') (if c then r else r')
  if-View size c true m m' r r' e h h' = rw e (h refl)
  if-View size c false m m' r r' e h h' = rw e (h' refl)

  pub some-View :
      (size : ℕ) (m : Mark) (o : Option B) (b : B) (other : Run B M) (found : B → Run B M)
      → o ≡ some b
      → V size m (found b)
      → V size m (elim o [ none ↦ other | some t ↦ found t ])
  some-View size m o b other found e v =
      subst (λ x. V size m (elim x [ none ↦ other | some t ↦ found t ])) (sym e) v

  pub first_marked :
      (s : Selection B M) (anchor head : ℕ)
      → Marks ask rules matches sorted s (marked anchor head)
      → (b : B) × (first k s ≡ some b) × (get_elem? sorted (min anchor head) ≡ some b)
  unfolding first
  first_marked (all ms) anchor head m = absurd m
  first_marked (partial books r) anchor head m = absurd m
  first_marked empty anchor head m = absurd m
  first_marked (range start end r down ms) anchor head m =
      let e : anchor ≡ min anchor head = omega (arith, m.2) in
      (start, refl, subst (λ i. get_elem? sorted i ≡ some start) e m.0)
  first_marked (range start end r up ms) anchor head m =
      let e : head ≡ min anchor head = omega (arith, m.2) in
      (start, refl, subst (λ i. get_elem? sorted i ≡ some start) e m.0)

  pub last_marked :
      (s : Selection B M) (anchor head : ℕ)
      → Marks ask rules matches sorted s (marked anchor head)
      → (b : B) × (last k s ≡ some b) × (get_elem? sorted (max anchor head) ≡ some b)
  unfolding last
  last_marked (all ms) anchor head m = absurd m
  last_marked (partial books r) anchor head m = absurd m
  last_marked empty anchor head m = absurd m
  last_marked (range start end r down ms) anchor head m =
      let e : head ≡ max anchor head = omega (arith, m.2) in
      (end, refl, subst (λ i. get_elem? sorted i ≡ some end) e m.1)
  last_marked (range start end r up ms) anchor head m =
      let e : anchor ≡ max anchor head = omega (arith, m.2) in
      (end, refl, subst (λ i. get_elem? sorted i ≡ some end) e m.1)
