-- ===== src/Input/Words/Fuel.antt =====
-- The iterator over the words of a command line ends: bookworm-input/src/user_input.rs.
use bookworm.Base.{
  ℕ, zero, suc, ◌+◌, ◌-◌, ◌≤◌, ◌<◌, ◌≡◌, refl, ap, true, false, Option, none, some, List, [], ◌∷◌,
  Text, ◌⊎◌, inl, inr, Bool-cases, length, drop, leb, if◌then◌else◌, arith, bind-eq_some,
}
use bookworm.Input.Words.{
  WordIter, Value, Round, go_on, give, carry, round, finish, scan, next, gather, collect,
  get_values, words,
}

-- What is left to do: the text behind `start`, and the last word.
abbrev left_over : WordIter → ℕ
left_over w = (length w.text - w.start) + (if w.complete then 0 else 1)

-- A round keeps the text, and a word moves `start`.
abbrev Moves : WordIter → Round → Type 0
Moves w (go_on w') = (w'.text ≡ w.text) × (w'.complete ≡ w.complete) × (w.start ≤ w'.start)
Moves w (give w' v) = (w'.text ≡ w.text) × (w'.complete ≡ w.complete) × (w.start < w'.start)

round-Moves : (c end : ℕ) (w : WordIter) → Moves w (round c end w)
unfolding round
round-Moves c end w = ground arith

-- A call that gives a word moves `start`, or gives the last word.
abbrev Gives : WordIter → WordIter → Type 0
Gives w w' =
    (w'.text ≡ w.text)
    × (w.start ≤ w'.start)
    × (((w.start < w'.start) × (w'.complete ≡ w.complete))
        ⊎ ((w.complete ≡ false) × (w'.complete ≡ true)))

abbrev Falls : WordIter → WordIter × Option Value → Type 0
Falls w (w', none) = Unit
Falls w (w', some v) = Gives w w'

Falls-trans :
    (w w' : WordIter) (o : WordIter × Option Value) → Moves w (go_on w') → Falls w' o → Falls w o
Falls-trans w w' (u, none) m f = tt
Falls-trans w w' (u, some v) m f = ground arith

finish-Falls : (w : WordIter) → Falls w (finish w)
unfolding finish
finish-Falls w = on_flag (Bool-cases w.complete)
  where
    on_flag : (w.complete ≡ true) ⊎ (w.complete ≡ false) → Falls w (finish w)
    on_flag (inl e) = rw e tt
    on_flag (inr e) = rw e (refl, omega arith, inr (refl, refl))

scan-Falls : (cs : Text) (end : ℕ) (w : WordIter) → Falls w (scan cs end w)
unfolding scan
scan-Falls [] end w = finish-Falls w
scan-Falls (c ∷ cs) end w = after (round c end w) (round-Moves c end w) (scan-Falls cs (end + 1))
  where
    after :
        (r : Round)
        → Moves w r
        → ((w' : WordIter) → Falls w' (scan cs (end + 1) w'))
        → Falls w (carry (scan cs (end + 1)) r)
    after (go_on w') m ih = Falls-trans w w' (scan cs (end + 1) w') m (ih w')
    after (give w' v) m ih = (m.0, omega arith, inl (m.2, m.1))

next-less : (w w' : WordIter) (v : Value) → next w ≡ (w', some v) → left_over w' < left_over w
unfolding next
next-less w w' v h = elim (Bool-cases (leb (length w.text) w.start)) [
  | inl past ↦ absurd_past past
  | inr before ↦ falls before (scan-Falls (drop w.start w.text) 0 w)
]
  where
    absurd_past : leb (length w.text) w.start ≡ true → left_over w' < left_over w
    absurd_past past = ground arith

    falls :
        leb (length w.text) w.start ≡ false
        → Falls w (scan (drop w.start w.text) 0 w)
        → left_over w' < left_over w
    falls before f =
        let e : scan (drop w.start w.text) 0 w ≡ (w', some v) = rw before at h in
        let g : Gives w w' = rw e at f in
        let n : length w'.text ≡ length w.text = ap length g.0 in ground arith

collect_total :
    (fuel : ℕ) (w : WordIter) → left_over w < fuel → (vs : List Value) × (collect fuel w ≡ some vs)
unfolding collect
collect_total zero w h = elim h [ ]
collect_total (suc fuel) w h = after (next w) refl (collect_total fuel)
  where
    after :
        (o : WordIter × Option Value)
        → next w ≡ o
        → ((w' : WordIter) → left_over w' < fuel → (vs : List Value) × (collect fuel w' ≡ some vs))
        → (vs : List Value) × (gather (collect fuel) o ≡ some vs)
    after (w', none) e ih = ([], refl)
    after (w', some v) e ih =
        let (vs, d) = ih w' (omega (arith, next-less w w' v e)) in (v ∷ vs, rw d)

-- The fuel of `words` is enough for every text: cutting up a command line ends.
pub words_total : (s : Text) → (vs : List Value) × (words s ≡ some vs)
unfolding words
words_total s = collect_total (length s + 2) (get_values s) (omega arith)

-- More fuel gives the same words.
pub collect_agree :
    (f g : ℕ) (w : WordIter) (vs us : List Value)
    → collect f w ≡ some vs
    → collect g w ≡ some us
    → vs ≡ us
unfolding collect
collect_agree zero g w vs us h k = cc
collect_agree (suc f) zero w vs us h k = cc
collect_agree (suc f) (suc g) w vs us h k = after (next w) (collect_agree f g) h k
  where
    after :
        (o : WordIter × Option Value)
        → ((w' : WordIter) (xs ys : List Value)
            → collect f w' ≡ some xs
            → collect g w' ≡ some ys
            → xs ≡ ys)
        → gather (collect f) o ≡ some vs
        → gather (collect g) o ≡ some us
        → vs ≡ us
    after (w', none) ih p q = cc
    after (w', some v) ih p q =
        let (xs, a, b) = bind-eq_some (collect f w') _ p in
        let (ys, c, d) = bind-eq_some (collect g w') _ q in cc (ih w' xs ys a c)
