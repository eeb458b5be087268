-- ===== src/Records/Series.antt =====
-- bookworm-records/src/series.rs: the series of a book. `f32` is a parameter: its type, how it is
-- read and written, and its comparison.
pub mod RoundTrip
pub mod Order
use bookworm.Base.{
  ℕ, Bool, true, false, ◌&&◌, ◌||◌, Option, none, some, List, [], ◌∷◌, ◌++◌, Text, codes,
  starts_with, leb, ◌==◌, if◌then◌else◌, Ordering, lt, eq, gt, text_order,
}

pub record Series (F : Type 0) : Type 0 where
  pub name : Text
  pub index : Option F

-- The operations of `f32`: `from_str`, `to_string`, `partial_cmp` and `is_nan`.
pub record Floats (F : Type 0) : Type 0 where
  pub parse : Text → Option F
  pub show : F → Text
  pub partial_cmp : F → F → Option Ordering
  pub is_nan : F → Bool

-- `char::is_whitespace`: the characters of Unicode with the property `White_Space`.
unfoldable pub is_whitespace : ℕ → Bool
is_whitespace c =
    (leb 9 c && leb c 13)
    || c == 0x20
    || c == 0x85
    || c == 0xa0
    || c == 0x1680
    || (leb 0x2000 c && leb c 0x200a)
    || c == 0x2028
    || c == 0x2029
    || c == 0x202f
    || c == 0x205f
    || c == 0x3000

-- `rsplit_once(char::is_whitespace)`
unfoldable pub rsplit_once : Text → Option (Text × Text)
rsplit_once [] = none
rsplit_once (c ∷ s) = elim (rsplit_once s) [
  | some (a, b) ↦ some (c ∷ a, b)
  | none ↦ if is_whitespace c then some ([], s) else none
]

-- `ends_with` of one character, and a text without its last.
unfoldable pub ends_with : ℕ → Text → Bool
ends_with c [] = false
ends_with c (d ∷ []) = d == c
ends_with c (d ∷ (d' ∷ s)) = ends_with c (d' ∷ s)

abbrev pub pop_last : Text → Text
pop_last [] = []
pop_last (c ∷ []) = []
pop_last (c ∷ (d ∷ s)) = c ∷ pop_last (d ∷ s)

-- `&id[1..id.len() - 1]`; the source takes it where `id` has a bracket at both ends.
abbrev pub inner : Text → Text
inner [] = []
inner (c ∷ s) = pop_last s

module _ {F : Type 0} (floats : Floats F) where
  abbrev pub bare : Text → Series F
  bare s = record { name = s; index = none }

  -- The index that a last word stands for.
  unfoldable pub read_index : Text → Option F
  unfolding starts_with
  read_index id = if starts_with b'[' id then floats.parse (inner id) else none

  -- `Series::from_str`, which never fails.
  unfoldable pub from_str : Text → Series F
  unfolding ends_with rsplit_once read_index
  from_str s =
      if ends_with b']' s
      then elim (rsplit_once s) [
        | none ↦ bare s
        | some (name, id) ↦ elim (read_index id) [
          | none ↦ bare s
          | some i ↦ record { name = name; index = some i }
        ]
      ]
      else bare s

  -- `to_string` of `Display`
  unfoldable pub to_string : Series F → Text
  to_string s = elim s.index [
    | none ↦ s.name
    | some i ↦ s.name ++ 0x20 ∷ b'[' ∷ (floats.show i ++ b']' ∷ [])
  ]

  -- The comparison of two indices; `none` is the panic of `unreachable!`.
  abbrev pub cmp_nan : Bool → Bool → Option Ordering
  cmp_nan false false = none
  cmp_nan true false = some lt
  cmp_nan false true = some gt
  cmp_nan true true = some eq

  unfoldable pub cmp_index : Option F → Option F → Option Ordering
  cmp_index none none = some eq
  cmp_index (some i) none = some gt
  cmp_index none (some j) = some lt
  cmp_index (some i) (some j) = elim (floats.partial_cmp i j) [
    | some o ↦ some o
    | none ↦ cmp_nan (floats.is_nan i) (floats.is_nan j)
  ]

  -- `Ord::cmp`
  unfoldable pub cmp_series : Series F → Series F → Option Ordering
  unfolding cmp_index text_order
  cmp_series s t = elim (text_order s.name t.name) [
    | eq ↦ cmp_index s.index t.index
    | lt ↦ some lt
    | gt ↦ some gt
  ]

  -- `PartialEq::eq`: `partial_cmp(other) == Some(Ordering::Equal)`
  unfoldable pub same_series : Series F → Series F → Option Bool
  unfolding cmp_series
  same_series s t = elim (cmp_series s t) [
    | none ↦ none
    | some o ↦ some (elim o [ eq ↦ true | lt ↦ false | gt ↦ false ])
  ]
