-- ===== src/Records/Variant.antt =====
-- bookworm-records/src/variant.rs: a file of a book. What the readers of other crates find in a file
-- and the type of an ISBN are parameters.
use bookworm.Base.{
  ℕ, Option, none, some, List, [], ◌∷◌, ◌++◌, Text, codes, text_eq, to_ascii_lowercase, ◌==◌,
  if◌then◌else◌,
}

pub data BookType : Type 0 where
  epub mobi pdf : BookType

pub data BookError : Type 0 where
  file_error : BookError
  unsupported_extension : Text → BookError

pub data Identifier (I : Type 0) : Type 0 where
  isbn : I → Identifier I
  unknown : Text → Text → Identifier I

pub record BookVariant (I : Type 0) : Type 0 where
  pub book_type : BookType
  pub path : Text
  pub file_size : ℕ
  pub local_title : Option Text
  pub identifier : Option (Identifier I)
  pub language : Option Text
  pub additional_authors : Option (List Text)
  pub translators : Option (List Text)
  pub description : Option Text
  pub id : Option ℕ
  pub hash : List ℕ
  pub free_tags : List Text
  pub named_tags : List (Text × Text)

-- `BookType::try_from` of an extension that is Unicode.
unfoldable pub read_type : Text → Option BookType
unfolding text_eq to_ascii_lowercase
read_type s =
    let t = to_ascii_lowercase s in
    if text_eq t (codes "epub")
    then some epub
    else if text_eq t (codes "mobi")
    then some mobi
    else if text_eq t (codes "pdf")
    then some pdf
    else none

-- `trim_start_matches` of one character
unfoldable pub trim_start : ℕ → Text → Text
trim_start c [] = []
trim_start c (d ∷ s) = let rest = trim_start c s in if d == c then rest else d ∷ s

-- `find` and `split_at`: the text before the first such character, and the rest with it.
unfoldable pub split_first : ℕ → Text → Option (Text × Text)
split_first c [] = none
split_first c (d ∷ s) =
    let later = split_first c s in
    if d == c then some ([], d ∷ s) else elim later [ none ↦ none | some (a, b) ↦ some (d ∷ a, b) ]

-- `unravel_author`: `Last, First` is written `First Last`.
unfoldable pub unravel_author : Text → Text
unfolding split_first trim_start
unravel_author author = elim (split_first b',' author) [
  | none ↦ author
  | some (a, b) ↦ trim_start 0x20 (trim_start b',' b) ++ 0x20 ∷ a
]
