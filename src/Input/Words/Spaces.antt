-- ===== src/Input/Words/Spaces.antt =====
-- Doubled spaces in a command line: `CommandStringIter::next` of
-- bookworm-input/src/user_input.rs counts the first of them twice.
use bookworm.Base.{
  ℕ, suc, ◌+◌, ◌≡◌, refl, ap, ◌∙◌, false, some, List, [], ◌∷◌, ◌++◌, Text, length, drop, arith, All,
}
use bookworm.Input.Words.{
  unquoted, Value, go_on, round, scan, next, collect, get_values, words, vals_to_string,
}
use bookworm.Input.Words.Fuel.{words_total, collect_agree}
use bookworm.Input.Words.Calls.{
  IsInner, IsPlain, IsSafe, reading, scan_inner, before_end, round_space, next_word, drop_further,
}
use bookworm.Input.Words.RoundTrip.{collect-vals_to_string}

scan_spaced :
    (t : Text) (st : ℕ) (v rest : Text)
    → All IsInner v
    → scan (0x20 ∷ (v ++ 0x20 ∷ rest)) 0 (reading unquoted t st false [])
      ≡ (reading unquoted t (st + (length v + 3)) false [], some (false, v))
unfolding scan
scan_spaced t st v rest h = rw (leading t st) (
    scan_inner t (st + 1) false v (0x20 ∷ rest) 0 [] h
    ∙ rw (round_space t (st + 1) (1 + length v) v (omega arith))
        (ap (λ k. (reading unquoted t k false [], some (false, v))) (omega arith)))
  where
    leading :
        (t : Text) (st : ℕ)
        → round 0x20 0 (reading unquoted t st false [])
          ≡ go_on (reading unquoted t (st + 1) false [])
    leading t st = unfold round in refl

next_spaced :
    (t : Text) (st : ℕ) (v rest : Text)
    → All IsInner v
    → drop st t ≡ 0x20 ∷ (v ++ 0x20 ∷ rest)
    → next (reading unquoted t st false [])
      ≡ (reading unquoted t (st + (length v + 3)) false [], some (false, v))
unfolding next
next_spaced t st v rest h e =
    rw (before_end t st 0x20 (v ++ 0x20 ∷ rest) e, e) (scan_spaced t st v rest h)

behind_spaced :
    (t : Text) (st : ℕ) (v : Text) (c : ℕ) (rest : Text)
    → drop st t ≡ 0x20 ∷ (v ++ 0x20 ∷ (c ∷ rest))
    → drop (st + (length v + 3)) t ≡ rest
behind_spaced t st v c rest e =
    ap (λ k. drop (st + k) t) {y = length (0x20 ∷ v) + 2} (omega arith)
    ∙ drop_further t st (0x20 ∷ v) (0x20 ∷ (c ∷ rest)) 2 e

collect_spaced :
    (t u v : Text) (c : ℕ) (vs : List Value)
    → IsPlain u
    → All IsInner v
    → All IsSafe vs
    → t ≡ u ++ 0x20 ∷ (0x20 ∷ (v ++ 0x20 ∷ (c ∷ vals_to_string vs)))
    → collect (suc (suc (suc (suc (length vs))))) (get_values t)
      ≡ some ((false, u) ∷ (false, v) ∷ vs)
unfolding collect
collect_spaced t u v c vs p q h e =
    let tail = 0x20 ∷ (v ++ 0x20 ∷ (c ∷ vals_to_string vs)) in
    let e' : drop (0 + (length u + 1)) t ≡ tail = drop_further t 0 u (0x20 ∷ tail) 1 e in
    let e'' = behind_spaced t (0 + (length u + 1)) v c (vals_to_string vs) e' in
    rw (
      next_word t 0 u tail p e,
      next_spaced t (0 + (length u + 1)) v (c ∷ vals_to_string vs) q e',
      collect-vals_to_string t vs (0 + (length u + 1) + (length v + 3)) h e'',
    )

-- Two spaces before a word lose the character that follows the space behind it: the line
-- `u  v cREST` is read as `u`, `v` and the words of `REST`, whatever the character `c`.
pub words_doubled_space :
    (u v : Text) (c : ℕ) (vs : List Value)
    → IsPlain u
    → All IsInner v
    → All IsSafe vs
    → words (u ++ 0x20 ∷ (0x20 ∷ (v ++ 0x20 ∷ (c ∷ vals_to_string vs))))
      ≡ some ((false, u) ∷ (false, v) ∷ vs)
unfolding words
words_doubled_space u v c vs p q h =
    let t = u ++ 0x20 ∷ (0x20 ∷ (v ++ 0x20 ∷ (c ∷ vals_to_string vs))) in
    let (us, d) = words_total t in
    d
    ∙ ap some (
        collect_agree (length t + 2) (suc (suc (suc (suc (length vs))))) (get_values t) us
          ((false, u) ∷ (false, v) ∷ vs) d (collect_spaced t u v c vs p q h refl))
