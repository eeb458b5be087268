-- ===== src/Records/Series/RoundTrip.antt =====
-- A series is written as a text and read back: bookworm-records/src/series.rs.
use mathlib.Core.List.{append_assoc}
use bookworm.Base.{
  ℕ, true, subst, ◌≡◌, refl, ap, false, none, some, [], ◌∷◌, ◌++◌, Text, All, arith,
}
use bookworm.Records.Series.{
  Floats, is_whitespace, rsplit_once, ends_with, pop_last, read_index, from_str, to_string,
}

abbrev pub IsSolid : Text → Type 0
IsSolid = All (λ c. is_whitespace c ≡ false)

rsplit_once_solid : (s : Text) → IsSolid s → rsplit_once s ≡ none
unfolding rsplit_once
rsplit_once_solid [] h = refl
rsplit_once_solid (c ∷ s) h = rw (rsplit_once_solid s h.1, h.0) refl

rsplit_once-append : (a b : Text) → IsSolid b → rsplit_once (a ++ 0x20 ∷ b) ≡ some (a, b)
unfolding rsplit_once is_whitespace
rsplit_once-append [] b h = rw (rsplit_once_solid b h) refl
rsplit_once-append (c ∷ a) b h = rw (rsplit_once-append a b h) refl

IsSolid-append : (a b : Text) → IsSolid a → IsSolid b → IsSolid (a ++ b)
IsSolid-append [] b h k = k
IsSolid-append (c ∷ a) b h k = (h.0, IsSolid-append a b h.1 k)

pop_last-append : (s : Text) (c : ℕ) → pop_last (s ++ c ∷ []) ≡ s
pop_last-append [] c = refl
pop_last-append (d ∷ []) c = refl
pop_last-append (d ∷ (d' ∷ s)) c = ap (λ l. d ∷ l) (pop_last-append (d' ∷ s) c)

ends_with-append : (s : Text) (c : ℕ) → ends_with c (s ++ c ∷ []) ≡ true
unfolding ends_with
ends_with-append [] c = ground arith
ends_with-append (d ∷ []) c = ground arith
ends_with-append (d ∷ (d' ∷ s)) c = ends_with-append (d' ∷ s) c

bracketed : (s : Text) → IsSolid s → IsSolid (b'[' ∷ (s ++ b']' ∷ []))
unfolding is_whitespace
bracketed s h = (refl, IsSolid-append s (b']' ∷ []) h (refl, tt))

read_index_bracketed :
    {F : Type 0} (floats : Floats F) (s : Text)
    → read_index floats (b'[' ∷ (s ++ b']' ∷ [])) ≡ floats.parse s
unfolding read_index
read_index_bracketed floats s = ap floats.parse (pop_last-append s b']')

module _ {F : Type 0} (floats : Floats F) where
  -- A series with an index is read back from its text, whatever its name, if the number that is
  -- its index is read back from its digits and these have no whitespace.
  pub from_str-to_string :
      (name : Text) (i : F)
      → floats.parse (floats.show i) ≡ some i
      → IsSolid (floats.show i)
      → from_str floats (to_string floats (record { name = name; index = some i }))
        ≡ record { name = name; index = some i }
  unfolding from_str to_string
  from_str-to_string name i h k =
      let shown : Text = floats.show i in
      let last : Text = b'[' ∷ (shown ++ b']' ∷ []) in
      let ends : ends_with b']' (name ++ 0x20 ∷ last) ≡ true =
        subst (λ s. ends_with b']' s ≡ true) (append_assoc name (0x20 ∷ (b'[' ∷ shown)) (b']' ∷ []))
          (ends_with-append (name ++ 0x20 ∷ (b'[' ∷ shown)) b']') in
      let split = rsplit_once-append name last (bracketed shown k) in
      rw (ends, split, read_index_bracketed floats shown, h) refl
