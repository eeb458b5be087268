-- ===== src/Input/Words/Calls.antt =====
-- Single calls of `CommandStringIter::next` on plain and on quoted words, which
-- bookworm-input/src/user_input.rs cuts off a command line.
use bookworm.Base.{
  ℕ, suc, ◌+◌, ◌<◌, ◌≡◌, ◌≢◌, refl, ap, ◌∙◌, subst, Bool, true, false, none, some, [], ◌∷◌, ◌++◌,
  Text, length, length-drop, drop, drop-add, drop-append_add, leb, arith, All,
}
use mathlib.Core.List.{append-nil, append_assoc}
use native.Mathlib.Numerals.{add-one}
use bookworm.Input.Words.{
  Quoted, double, unquoted, WordIter, Value, go_on, give, round, finish, scan, next, escape,
}

-- A character inside a word; one at its start; one inside quotes.
abbrev pub IsInner : ℕ → Type 0
IsInner c = (c ≢ 0x20) × (c ≢ 0x5c)

abbrev pub IsFirst : ℕ → Type 0
IsFirst c = (c ≢ 0x20) × (c ≢ 0x5c) × (c ≢ 0x22) × (c ≢ 0x27)

abbrev pub IsQuotable : ℕ → Type 0
IsQuotable c = (c ≢ 0x22) × (c ≢ 0x5c)

abbrev pub IsPlain : Text → Type 0
IsPlain [] = ⊥
IsPlain (c ∷ cs) = IsFirst c × All IsInner cs

-- The words that survive: not empty, with no space, backslash or leading quote; or in quotes, with
-- no double quote and no backslash.
abbrev pub IsSafe : Value → Type 0
IsSafe (false, w) = IsPlain w
IsSafe (true, s) = All IsQuotable s

abbrev pub reading : Quoted → Text → ℕ → Bool → Text → WordIter
reading q t st over sub = record {
  text = t;
  quoted = q;
  start = st;
  complete = over;
  was_escaped = false;
  escaped = false;
  sub_string = sub;
}

scan_from : (cs : Text) {m n : ℕ} (w : WordIter) → m ≡ n → scan cs m w ≡ scan cs n w
scan_from cs w e = ap (λ k. scan cs k w) e

module _ (t : Text) (st : ℕ) (over : Bool) where
  round_inner :
      (c end : ℕ) (sub : Text)
      → IsInner c
      → round c (suc end) (reading unquoted t st over sub)
        ≡ go_on (reading unquoted t st over (sub ++ c ∷ []))
  unfolding round
  round_inner c end sub h = ground arith

  round_quotable :
      (c end : ℕ) (sub : Text)
      → IsQuotable c
      → round c (suc end) (reading double t st over sub)
        ≡ go_on (reading double t st over (sub ++ c ∷ []))
  unfolding round
  round_quotable c end sub h = ground arith

  round_first :
      (c : ℕ)
      → IsFirst c
      → round c 0 (reading unquoted t st over []) ≡ go_on (reading unquoted t st over (c ∷ []))
  unfolding round
  round_first c h = ground arith

  pub scan_inner :
      (cs rest : Text) (end : ℕ) (sub : Text)
      → All IsInner cs
      → scan (cs ++ rest) (suc end) (reading unquoted t st over sub)
        ≡ scan rest (suc end + length cs) (reading unquoted t st over (sub ++ cs))
  unfolding scan
  scan_inner [] rest end sub h = rw append-nil (scan_from rest _ (omega arith))
  scan_inner (c ∷ cs) rest end sub h =
      rw (round_inner c end sub h.0, add-one (suc end))
        (scan_inner cs rest (suc end) (sub ++ c ∷ []) h.1
          ∙ rw (append_assoc sub (c ∷ []) cs) (scan_from rest _ (omega arith)))

  scan_quotable :
      (cs rest : Text) (end : ℕ) (sub : Text)
      → All IsQuotable cs
      → scan (cs ++ rest) (suc end) (reading double t st over sub)
        ≡ scan rest (suc end + length cs) (reading double t st over (sub ++ cs))
  unfolding scan
  scan_quotable [] rest end sub h = rw append-nil (scan_from rest _ (omega arith))
  scan_quotable (c ∷ cs) rest end sub h =
      rw (round_quotable c end sub h.0, add-one (suc end))
        (scan_quotable cs rest (suc end) (sub ++ c ∷ []) h.1
          ∙ rw (append_assoc sub (c ∷ []) cs) (scan_from rest _ (omega arith)))

  -- A plain word up to what follows it.
  scan_plain :
      (w rest : Text)
      → IsPlain w
      → scan (w ++ rest) 0 (reading unquoted t st over [])
        ≡ scan rest (length w) (reading unquoted t st over w)
  unfolding scan
  scan_plain [] rest h = elim h [ ]
  scan_plain (c ∷ cs) rest h =
      rw (round_first c h.0) (scan_inner cs rest 0 (c ∷ []) h.1 ∙ scan_from rest _ (omega arith))

module _ (t : Text) (st : ℕ) where
  pub round_space :
      (end : ℕ) (sub : Text)
      → 0 < end
      → round 0x20 end (reading unquoted t st false sub)
        ≡ give (reading unquoted t (st + (end + 1)) false []) (false, sub)
  unfolding round
  round_space end sub h = ground arith

  round_open :
      round 0x22 0 (reading unquoted t st false []) ≡ go_on (reading double t (st + 1) false [])
  unfolding round
  round_open = refl

  round_close :
      (end : ℕ) (sub : Text)
      → round 0x22 end (reading double t st false sub)
        ≡ give (reading unquoted t (st + (end + 1)) false []) (true, sub)
  unfolding round
  round_close end sub = refl

pub before_end : (t : Text) (st c : ℕ) (cs : Text) → drop st t ≡ c ∷ cs → leb (length t) st ≡ false
before_end t st c cs e = ground (arith, length-drop st t, ap length e)

pub next_word :
    (t : Text) (st : ℕ) (w rest : Text)
    → IsPlain w
    → drop st t ≡ w ++ 0x20 ∷ rest
    → next (reading unquoted t st false [])
      ≡ (reading unquoted t (st + (length w + 1)) false [], some (false, w))
unfolding next
next_word t st [] rest h e = elim h [ ]
next_word t st (c ∷ cs) rest h e =
    rw (before_end t st c (cs ++ 0x20 ∷ rest) e, e)
      (scan_plain t st false (c ∷ cs) (0x20 ∷ rest) h
        ∙ rw (round_space t st (length (c ∷ cs)) (c ∷ cs) (omega arith), scan))

scan_last :
    (t : Text) (st : ℕ) (over : Bool) (w : Text)
    → IsPlain w
    → scan w 0 (reading unquoted t st over []) ≡ finish (reading unquoted t st over w)
unfolding scan
scan_last t st over w h =
    subst (λ x. scan x 0 (reading unquoted t st over []) ≡ finish (reading unquoted t st over w))
      (append-nil w) (scan_plain t st over w [] h)

pub next_last :
    (t : Text) (st : ℕ) (w : Text)
    → IsPlain w
    → drop st t ≡ w
    → (next (reading unquoted t st false []) ≡ (reading unquoted t st true [], some (false, w)))
      × (next (reading unquoted t st true []) ≡ (reading unquoted t st true w, none))
unfolding next
next_last t st [] h e = elim h [ ]
next_last t st (c ∷ cs) h e = (
  rw (before_end t st c cs e, e) (scan_last t st false (c ∷ cs) h),
  rw (before_end t st c cs e, e) (scan_last t st true (c ∷ cs) h),
)

scan_quoted :
    (t : Text) (st : ℕ) (s rest : Text)
    → All IsQuotable s
    → scan (0x22 ∷ (s ++ 0x22 ∷ rest)) 0 (reading unquoted t st false [])
      ≡ (reading unquoted t (st + (length s + 3)) false [], some (true, s))
unfolding scan
scan_quoted t st s rest h = rw (round_open t st) (
    scan_quotable t (st + 1) false s (0x22 ∷ rest) 0 [] h
    ∙ rw (round_close t (st + 1) (1 + length s) s)
        (ap (λ k. (reading unquoted t k false [], some (true, s))) (omega arith)))

pub next_quoted :
    (t : Text) (st : ℕ) (s rest : Text)
    → All IsQuotable s
    → drop st t ≡ 0x22 ∷ (s ++ 0x22 ∷ rest)
    → next (reading unquoted t st false [])
      ≡ (reading unquoted t (st + (length s + 3)) false [], some (true, s))
unfolding next
next_quoted t st s rest h e =
    rw (before_end t st 0x22 (s ++ 0x22 ∷ rest) e, e) (scan_quoted t st s rest h)

pub next_end :
    (t : Text) (st : ℕ)
    → drop st t ≡ []
    → next (reading unquoted t st false []) ≡ (reading unquoted t st false [], none)
unfolding next
next_end t st e = rw past
  where
    past : leb (length t) st ≡ true
    past = ground (arith, length-drop st t, ap length e)

-- What stands behind a word: `n` characters further on.
pub drop_further :
    (t : Text) (st : ℕ) (w rest : Text) (n : ℕ)
    → drop st t ≡ w ++ rest
    → drop (st + (length w + n)) t ≡ drop n rest
drop_further t st w rest n e =
    drop-add st (length w + n) t ∙ ap (drop (length w + n)) e ∙ drop-append_add n w rest

pub escape_quotable : (s : Text) → All IsQuotable s → escape s ≡ s
unfolding escape
escape_quotable [] h = refl
escape_quotable (c ∷ s) h = ground (arith, escape_quotable s h.1)
