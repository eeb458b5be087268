-- ===== src/App/Parser/Args.antt =====
-- Splitting arguments at flags, numbers and quotes: `read_args` and `remove_string_quotes` of
-- bookworm-app/src/parser.rs, and `FromStr` of the unsigned integers.
pub mod Split
use bookworm.Base.{
  ℕ, zero, suc, ◌+◌, ◌-◌, ◌*◌, ◌^◌, Bool, true, false, ◌&&◌, ◌||◌, not, Option, none, some, List,
  [], ◌∷◌, ◌++◌, Text, length, starts_with, leb, ◌==◌, if◌then◌else◌,
}
use bookworm.App.Command.{Result, ok, err, panic, insufficient_arguments}

-- A flag with the arguments behind it.
abbrev pub Group : Type 0
Group = Text × List Text

-- `v.starts_with('-')`
abbrev pub is_flag : Text → Bool
is_flag v = starts_with b'-' v

-- `peeking_take_while(|v| !v.starts_with('-'))`, and what it leaves.
unfoldable pub take_args : List Text → List Text
take_args [] = []
take_args (v ∷ vs) = if is_flag v then [] else v ∷ take_args vs

unfoldable pub drop_args : List Text → List Text
drop_args [] = []
drop_args (v ∷ vs) = if is_flag v then v ∷ vs else drop_args vs

-- The `while` loop, with fuel for each argument.
unfoldable pub read_groups : ℕ → List Text → List Group
read_groups zero vs = []
read_groups (suc fuel) [] = []
read_groups (suc fuel) (v ∷ vs) = (v, take_args vs) ∷ read_groups fuel (drop_args vs)

unfoldable pub read_args : List Text → List Text × List Group
unfolding take_args drop_args read_groups starts_with
read_args args = (take_args args, read_groups (length args) (drop_args args))

abbrev pub first? {ℓ} : {A : Type ℓ} → List A → Option A
first? [] = none
first? (x ∷ xs) = some x

abbrev last_from : ℕ → Text → ℕ
last_from c [] = c
last_from c (d ∷ s) = last_from d s

abbrev pub pop_last : Text → Text
pop_last [] = []
pop_last (c ∷ []) = []
pop_last (c ∷ (d ∷ s)) = c ∷ pop_last (d ∷ s)

abbrev is_quote : ℕ → Bool
is_quote c = c == 0x22 || c == 0x27

-- The quotes that stand at both ends are taken off: `s.pop()`, then `s.remove(0)`, which panics
-- when nothing is left.
unfoldable pub remove_string_quotes : Text → Result Text
remove_string_quotes [] = ok []
remove_string_quotes (c ∷ s) =
    if is_quote c && last_from c s == c
    then elim (pop_last (c ∷ s)) [ [] ↦ panic | _ ∷ inner ↦ ok inner ]
    else ok (c ∷ s)

-- `u8::from_str` and the like: digits, with an optional plus, up to a bound.
unfoldable pub parse_digits : ℕ → ℕ → Text → Option ℕ
parse_digits bound acc [] = some acc
parse_digits bound acc (c ∷ s) =
    let acc' = acc * 10 + (c - b'0') in
    let rest = parse_digits bound acc' s in
    if leb b'0' c && leb c b'9' && leb acc' bound then rest else none

abbrev unsigned_digits : ℕ → Text → Option ℕ
unsigned_digits bound [] = none
unsigned_digits bound (c ∷ s) = parse_digits bound 0 (c ∷ s)

unfoldable pub parse_unsigned : ℕ → Text → Option ℕ
unfolding parse_digits
parse_unsigned bound [] = none
parse_unsigned bound (c ∷ s) =
    if c == b'+' then unsigned_digits bound s else unsigned_digits bound (c ∷ s)

abbrev pub u8_max : ℕ
u8_max = 255

-- `u64::MAX`, and `usize::MAX` on a machine of 64 bits.
abbrev pub u64_max : ℕ
u64_max = 2 ^ 64 - 1

unfoldable pub parse_u8 : Text → Option ℕ
unfolding parse_unsigned
parse_u8 = parse_unsigned u8_max

unfoldable pub parse_usize : Text → Option ℕ
unfolding parse_unsigned
parse_usize = parse_unsigned u64_max

-- `BookID::from_str`: a `NonZeroU64`.
unfoldable pub parse_book_id : Text → Option ℕ
unfolding parse_unsigned
parse_book_id s = elim (parse_unsigned u64_max s) [
  | none ↦ none
  | some n ↦ if n == 0 then none else some n
]

-- `args.next().ok_or_else(insuf)?`
abbrev pub next_arg : List Text → Result (Text × List Text)
next_arg [] = err insufficient_arguments
next_arg (v ∷ vs) = ok (v, vs)
