-- ===== src/Input/Autocomplete.antt =====
-- bookworm-input/src/autocomplete.rs: `RingFilter`, the ring of completions, and `AutoCompleter`.
-- What `glob` finds and the order of paths (`sort`) are parameters.
pub mod Rotation
pub mod Ring
use bookworm.Base.{
  ℕ, ◌+◌, ◌%◌, Bool, true, ◌&&◌, Option, none, some, List, [], ◌∷◌, ◌++◌, Text, length, take, drop,
  byte_len, codes, leb, if◌then◌else◌, ◌>>=◌,
}

pub record RingFilter {ℓ} (S : Type ℓ) : Type ℓ where
  pub items : List S
  pub index : ℕ

module _ {ℓ} {S : Type ℓ} where
  unfoldable pub new : List S → RingFilter S
  new items = record { items = items; index = 0 }

  -- The `for` loop: the index after it, and the item that it returns.
  unfoldable pub scan : (S → Bool) → List S → ℕ → ℕ × Option S
  scan predicate [] index = (index, none)
  scan predicate (item ∷ rest) index =
      let later = scan predicate rest (index + 1) in
      if predicate item then (index + 1, some item) else later

  -- The items from the index on, and then those before it: `p1.iter().chain(p2.iter())`.
  abbrev pub rotate : ℕ → List S → List S
  rotate n items = drop n items ++ take n items

  unfoldable pub next_item_by : (S → Bool) → RingFilter S → RingFilter S × Option S
  unfolding scan
  next_item_by predicate r = elim r.items [
    | [] ↦ (r, none)
    | _ ∷ _ ↦
        let start = r.index % length r.items in
        let (index, found) = scan predicate (rotate start r.items) start in
        (record { items = r.items; index = index }, found)
  ]

pub record AutoCompleter : Type 0 where
  pub word_len : ℕ
  pub candidates : RingFilter Text

-- `filter_map(Result::ok)`
unfoldable pub readable : List (Option Text) → List Text
readable [] = []
readable (none ∷ entries) = readable entries
readable (some path ∷ entries) = path ∷ readable entries

-- `AutoCompleter::new`. A pattern may be refused (`none`), and reading an entry may fail.
unfoldable pub new_completer :
    (Text → Option (List (Option Text))) → (List Text → List Text) → Text → Option AutoCompleter
unfolding new readable
new_completer glob sort word = glob (word ++ codes "*") >>= λ entries.
    some (record { word_len = byte_len word; candidates = new (sort (readable entries)) })

-- `next_word_by`
unfoldable pub next_word_by : (Text → Bool) → AutoCompleter → AutoCompleter × Option Text
unfolding next_item_by
next_word_by predicate a =
    let (candidates, word) =
      next_item_by (λ path. leb a.word_len (byte_len path) && predicate path) a.candidates in
    (record a { candidates = candidates }, word)

unfoldable pub next_word : AutoCompleter → AutoCompleter × Option Text
unfolding next_word_by
next_word = next_word_by (λ _. true)
