-- ===== src/Input/Words.antt =====
-- `CommandStringIter` of bookworm-input/src/user_input.rs, which cuts a command line into words,
-- and `CommandString::vals_to_string`, which writes words as a command line.
pub mod Fuel
pub mod Calls
pub mod RoundTrip
pub mod Spaces
use bookworm.Base.{
  ℕ, zero, suc, ◌+◌, Bool, true, false, ◌||◌, Option, none, some, List, [], ◌∷◌, ◌++◌, map, Text,
  length, drop, leb, ◌==◌, if◌then◌else◌, ◌>>=◌,
}

pub data Quoted : Type 0 where
  double single unquoted : Quoted

-- `Quoted::from`
unfoldable pub from_char : ℕ → Quoted
from_char c = if c == 0x22 then double else if c == 0x27 then single else unquoted

-- `==` on `Quoted`
abbrev pub same_quote : Quoted → Quoted → Bool
same_quote double double = true
same_quote single single = true
same_quote unquoted unquoted = true
same_quote _ _ = false

-- A word, with the flag that it was quoted or escaped.
abbrev pub Value : Type 0
Value = Bool × Text

pub record WordIter : Type 0 where
  pub text : Text
  pub quoted : Quoted
  pub start : ℕ
  pub complete : Bool
  pub was_escaped : Bool
  pub escaped : Bool
  pub sub_string : Text

-- One round of the loop of `next`: it goes on, or returns a word.
pub data Round : Type 0 where
  go_on : WordIter → Round
  give : WordIter → Value → Round

abbrev push_char : ℕ → WordIter → Round
push_char c w = go_on (record w { sub_string = w.sub_string ++ c ∷ [] })

on_space : ℕ → WordIter → Round
on_space end w =
    if same_quote w.quoted unquoted
    then (if end == 0
        then go_on (record w { start = w.start + 1 })
        else give (record w { start = w.start + (end + 1); was_escaped = false; sub_string = [] })
            (w.was_escaped, w.sub_string))
    else push_char 0x20 w

on_quote : ℕ → ℕ → WordIter → Round
on_quote c end w =
    if same_quote w.quoted (from_char c)
    then give (record w { quoted = unquoted; start = w.start + (end + 1); sub_string = [] })
        (true, w.sub_string)
    else if end == 0
    then go_on (record w { quoted = from_char c; start = w.start + 1 })
    else push_char c w

-- `end` counts from the start of the slice on which this call of `next` runs.
unfoldable pub round : ℕ → ℕ → WordIter → Round
unfolding on_space on_quote from_char
round c end w =
    if w.escaped
    then go_on
        (record w { was_escaped = true; escaped = false; sub_string = w.sub_string ++ c ∷ [] })
    else if c == 0x20
    then on_space end w
    else if c == 0x22 || c == 0x27
    then on_quote c end w
    else if c == 0x5c
    then go_on (record w { escaped = true })
    else push_char c w

-- Behind the loop: the last word, once.
unfoldable pub finish : WordIter → WordIter × Option Value
finish w = if w.complete then (w, none) else (
  record w { complete = true; sub_string = [] },
  some (w.was_escaped || (if same_quote w.quoted unquoted then false else true), w.sub_string),
)

-- What the loop does with the outcome of a round.
abbrev pub carry : (WordIter → WordIter × Option Value) → Round → WordIter × Option Value
carry rest (go_on w) = rest w
carry rest (give w v) = (w, some v)

-- The loop of `next`.
unfoldable pub scan : Text → ℕ → WordIter → WordIter × Option Value
scan [] end w = finish w
scan (c ∷ cs) end w = carry (scan cs (end + 1)) (round c end w)

unfoldable pub next : WordIter → WordIter × Option Value
unfolding scan round finish
next w = if leb (length w.text) w.start then (w, none) else scan (drop w.start w.text) 0 w

-- `get_values`
abbrev pub get_values : Text → WordIter
get_values s = record {
  text = s;
  quoted = unquoted;
  start = 0;
  complete = false;
  was_escaped = false;
  escaped = false;
  sub_string = [];
}

-- What `collect` does with the outcome of a call of `next`.
abbrev pub gather : (WordIter → Option (List Value)) → WordIter × Option Value → Option (List Value)
gather rest (w, none) = some []
gather rest (w, some v) = rest w >>= λ vs. some (v ∷ vs)

-- `collect`, with fuel: `none` means that the fuel ran out.
unfoldable pub collect : ℕ → WordIter → Option (List Value)
collect zero w = none
collect (suc fuel) w = gather (collect fuel) (next w)

-- `self.get_values().collect()`, with fuel for one call more than the text is long, and one.
unfoldable pub words : Text → Option (List Value)
unfolding collect next
words s = collect (length s + 2) (get_values s)

-- `replace('"', "\\\"")`
unfoldable pub escape : Text → Text
escape [] = []
escape (c ∷ s) = if c == 0x22 then 0x5c ∷ 0x22 ∷ escape s else c ∷ escape s

unfoldable pub value_to_string : Value → Text
unfolding escape
value_to_string (escaped, raw) = if escaped then 0x22 ∷ (escape raw ++ 0x22 ∷ []) else raw

-- `vals_to_string`, with `join(" ")`
unfoldable pub vals_to_string : List Value → Text
unfolding value_to_string
vals_to_string [] = []
vals_to_string (v ∷ []) = value_to_string v
vals_to_string (v ∷ (u ∷ vs)) = value_to_string v ++ 0x20 ∷ vals_to_string (u ∷ vs)
