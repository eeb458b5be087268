-- ===== src/Input/Words/RoundTrip.antt =====
-- Writing words as a command line and cutting it up again: `vals_to_string` and `get_values` of
-- bookworm-input/src/user_input.rs.
use bookworm.Base.{
  ℕ, suc, ◌+◌, ◌≡◌, refl, ap, ◌∙◌, true, false, some, List, [], ◌∷◌, ◌++◌, Text, length, drop,
  arith, All,
}
use mathlib.Core.List.{append_assoc}
use bookworm.Input.Words.{unquoted, Value, collect, get_values, words, vals_to_string}
use bookworm.Input.Words.Fuel.{words_total, collect_agree}
use bookworm.Input.Words.Calls.{
  IsSafe, reading, next_word, next_last, next_quoted, next_end, drop_further, escape_quotable,
}

behind_quoted :
    (t : Text) (st : ℕ) (s rest : Text)
    → drop st t ≡ 0x22 ∷ (s ++ 0x22 ∷ rest)
    → drop (st + (length s + 3)) t ≡ drop 1 rest
behind_quoted t st s rest e =
    ap (λ k. drop (st + k) t) {y = length (0x22 ∷ s) + 2} (omega arith)
    ∙ drop_further t st (0x22 ∷ s) (0x22 ∷ rest) 2 e

module _ (t : Text) where
  pub collect-vals_to_string :
      (vs : List Value) (st : ℕ)
      → All IsSafe vs
      → drop st t ≡ vals_to_string vs
      → collect (suc (suc (length vs))) (reading unquoted t st false []) ≡ some vs
  unfolding collect vals_to_string
  collect-vals_to_string [] st h e = rw (next_end t st e)
  collect-vals_to_string ((false, w) ∷ []) st h e = let (a, b) = next_last t st w h.0 e in rw (a, b)
  collect-vals_to_string ((true, s) ∷ []) st h e =
      let e' : drop st t ≡ 0x22 ∷ (s ++ 0x22 ∷ []) =
        e ∙ ap (λ x. 0x22 ∷ (x ++ 0x22 ∷ [])) (escape_quotable s h.0) in
      rw (
        next_quoted t st s [] h.0 e',
        collect-vals_to_string [] (st + (length s + 3)) tt (behind_quoted t st s [] e'),
      )
  collect-vals_to_string ((false, w) ∷ (u ∷ vs)) st h e =
      let tail = vals_to_string (u ∷ vs) in
      rw (
        next_word t st w tail h.0 e,
        collect-vals_to_string (u ∷ vs) (st + (length w + 1)) h.1
            (drop_further t st w (0x20 ∷ tail) 1 e),
      )
  collect-vals_to_string ((true, s) ∷ (u ∷ vs)) st h e =
      let tail = vals_to_string (u ∷ vs) in
      let e' : drop st t ≡ 0x22 ∷ (s ++ 0x22 ∷ (0x20 ∷ tail)) =
        e
        ∙ ap (λ x. 0x22 ∷ ((x ++ 0x22 ∷ []) ++ 0x20 ∷ tail)) (escape_quotable s h.0)
        ∙ ap (λ x. 0x22 ∷ x) (append_assoc s (0x22 ∷ []) (0x20 ∷ tail)) in
      rw (
        next_quoted t st s (0x20 ∷ tail) h.0 e',
        collect-vals_to_string (u ∷ vs) (st + (length s + 3)) h.1
            (behind_quoted t st s (0x20 ∷ tail) e'),
      )

-- Words that are written as a command line are read back from it, each with its flag, if each is
-- safe: a bare word is not empty, has no space and no backslash and does not begin with a quote,
-- and a quoted word has no double quote and no backslash.
pub words-vals_to_string : (vs : List Value) → All IsSafe vs → words (vals_to_string vs) ≡ some vs
unfolding words
words-vals_to_string vs h =
    let s = vals_to_string vs in
    let (us, d) = words_total s in
    let same : us ≡ vs =
      collect_agree (length s + 2) (suc (suc (length vs))) (get_values s) us vs d
        (collect-vals_to_string s vs 0 h refl) in
    d ∙ ap some same
