-- ===== src/Input/Autocomplete/Ring.antt =====
-- `RingFilter::next_item_by` of bookworm-input/src/autocomplete.rs as a queue: the items that were
-- passed over, and the one that is returned, go to its end.
use bookworm.Base.{
  ℕ, ◌+◌, ◌%◌, ◌<◌, ◌≡◌, refl, sym, ap, ◌∙◌, Bool, true, false, Option, none, some, List, [], ◌∷◌,
  ◌++◌, ◌⊎◌, length, length-append, length-take, length-drop, take, drop, take-append-drop,
  if◌then◌else◌, arith, All, Bool-cases, inl, inr,
}
use mathlib.Core.List.{append_assoc, append-nil}
use native.Mathlib.Nat.{add_assoc, mod-lt}
use bookworm.Input.Autocomplete.Rotation.{rotate-rotate, rotate_behind, rotate_all, rotate_nil}
use bookworm.Input.Autocomplete.{RingFilter, scan, rotate, next_item_by}

module _ {ℓ} {S : Type ℓ} where
  -- The items in the order in which the next call tries them.
  abbrev pub queue : RingFilter S → List S
  queue r = rotate (r.index % length r.items) r.items

  -- A search that passes over `before` and returns `x`.
  abbrev pub Skips : (S → Bool) → List S → Type 0
  Skips predicate = All (λ y. predicate y ≡ false)

  pub scan_found :
      (predicate : S → Bool) (before : List S) (x : S) (after : List S) (i : ℕ)
      → Skips predicate before
      → predicate x ≡ true
      → scan predicate (before ++ x ∷ after) i ≡ (i + length before + 1, some x)
  unfolding scan
  scan_found predicate [] x after i s h = rw h (ground arith)
  scan_found predicate (y ∷ before) x after i s h =
      rw s.0 (scan_found predicate before x after (i + 1) s.1 h ∙ ground arith)

  pub scan_missed :
      (predicate : S → Bool) (items : List S) (i : ℕ)
      → Skips predicate items
      → scan predicate items i ≡ (i + length items, none)
  unfolding scan
  scan_missed predicate [] i s = ground arith
  scan_missed predicate (y ∷ items) i s =
      rw s.0 (scan_missed predicate items (i + 1) s.1 ∙ ground arith)

  -- The search over the queue itself. `passed` was tried and refused.
  abbrev advance_from : (S → Bool) → List S → List S → List S × Option S
  advance_from predicate passed [] = (passed, none)
  advance_from predicate passed (x ∷ rest) =
      if predicate x
      then (rest ++ (passed ++ x ∷ []), some x)
      else advance_from predicate (passed ++ x ∷ []) rest

  pub advance : (S → Bool) → List S → List S × Option S
  advance predicate = advance_from predicate []

  -- The two outcomes of a search.
  abbrev pub Searched : (S → Bool) → List S → Type ℓ
  Searched predicate q =
      Skips predicate q
      ⊎ ((before : List S) × (x : S) × (after : List S) × (q ≡ before ++ x ∷ after)
          × Skips predicate before
          × (predicate x ≡ true))

  searched : (predicate : S → Bool) (q : List S) → Searched predicate q
  searched predicate [] = inl tt
  searched predicate (y ∷ q) = elim (Bool-cases (predicate y)) [
    | inl found ↦ inr ([], y, q, refl, tt, found)
    | inr missed ↦ later missed (searched predicate q)
  ]
    where
      later : predicate y ≡ false → Searched predicate q → Searched predicate (y ∷ q)
      later missed (inl none_left) = inl (missed, none_left)
      later missed (inr (before, x, after, e, skips, found)) =
          inr (y ∷ before, x, after, ap (λ l. y ∷ l) e, (missed, skips), found)

  advance_from_found :
      (predicate : S → Bool) (passed before : List S) (x : S) (after : List S)
      → Skips predicate before
      → predicate x ≡ true
      → advance_from predicate passed (before ++ x ∷ after)
        ≡ (after ++ ((passed ++ before) ++ x ∷ []), some x)
  advance_from_found predicate passed [] x after s h = rw (h, append-nil)
  advance_from_found predicate passed (y ∷ before) x after s h = rw (s.0) (
      advance_from_found predicate (passed ++ y ∷ []) before x after s.1 h
      ∙ rw (append_assoc passed (y ∷ []) before))

  advance_from_missed :
      (predicate : S → Bool) (passed q : List S)
      → Skips predicate q
      → advance_from predicate passed q ≡ (passed ++ q, none)
  advance_from_missed predicate passed [] s = rw append-nil
  advance_from_missed predicate passed (y ∷ q) s =
      rw s.0 (
        advance_from_missed predicate (passed ++ y ∷ []) q s.1
        ∙ rw (append_assoc passed (y ∷ []) q))

  -- What a search from the start of the second part finds, and where it leaves the index.
  abbrev landing : (S → Bool) → List S → List S → List S × Option S
  landing predicate xs ys =
      let (index, found) = scan predicate (ys ++ xs) (length xs) in
      (rotate (index % length (xs ++ ys)) (xs ++ ys), found)

  landing-advance :
      (predicate : S → Bool) (xs ys : List S)
      → 0 < length ys
      → landing predicate xs ys ≡ advance predicate (ys ++ xs)
  unfolding advance
  landing-advance predicate xs ys k = elim (searched predicate (ys ++ xs)) [
    | inl skips ↦ rw (scan_missed predicate (ys ++ xs) (length xs) skips) (
        ap (λ q. (q, none))
          (rotate-rotate xs ys (length (ys ++ xs)) (omega (arith, length-append {ℓ} ys xs)) k
            ∙ rotate_all (ys ++ xs))
        ∙ sym (advance_from_missed predicate [] (ys ++ xs) skips))
    | inr (before, x, after, e, skips, found) ↦
        rw (e, scan_found predicate before x after (length xs) skips found)
          (ap (λ q. (q, some x))
              (ap (λ n. rotate (n % length (xs ++ ys)) (xs ++ ys))
                  (add_assoc (length xs) (length before) 1)
                ∙ rotate-rotate xs ys (length before + 1)
                    (omega (
                      arith,
                      ap length e,
                      length-append {ℓ} ys xs,
                      length-append {ℓ} before (x ∷ after),
                    ))
                    k
                ∙ ap (rotate (length before + 1)) e
                ∙ rotate_behind before x after)
            ∙ sym (advance_from_found predicate [] before x after skips found))
  ]

  cut :
      (predicate : S → Bool) (items : List S) (i : ℕ)
      → i < length items
      → let (index, found) = scan predicate (rotate i items) i in
        ◌≡◌ {A = List S × Option S}
          (rotate (index % length items) items, found)
          (advance predicate (rotate i items))
  cut predicate items i h =
      let n : length (take i items) ≡ i = omega (arith, length-take {ℓ} i items) in
      let whole =
        landing-advance predicate (take i items) (drop i items)
          (omega (arith, length-drop {ℓ} i items)) in
      rw (take-append-drop i items, n) at whole

  -- Every search tries the items in the order of the queue and returns the first that fits, if
  -- there is one; what it passed over and what it returned go to the end of the queue, in order.
  -- The items stay what they are.
  pub next_item_by-advance :
      (predicate : S → Bool) (r : RingFilter S)
      → ◌≡◌ {A = List S × Option S}
          (queue (next_item_by predicate r).0, (next_item_by predicate r).1)
          (advance predicate (queue r))
        × ((next_item_by predicate r).0.items ≡ r.items)
  unfolding next_item_by advance
  next_item_by-advance predicate r = on_items r.items r.index
    where
      on_items :
          (items : List S) (index : ℕ)
          → let r : RingFilter S = record { items = items; index = index } in
            ◌≡◌ {A = List S × Option S}
              (queue (next_item_by predicate r).0, (next_item_by predicate r).1)
              (advance predicate (queue r))
            × ((next_item_by predicate r).0.items ≡ items)
      on_items [] index = (rw (rotate_nil (index % 0)), refl)
      on_items (x ∷ items) index = (
        cut predicate (x ∷ items) (index % length (x ∷ items)) (mod-lt index (omega arith)),
        refl,
      )
