-- ===== src/Database/Cache.antt =====
-- `BookCache` of bookworm-database/src/cache.rs: the books in memory by their identifiers. A `HashMap`
-- is a list of pairs in an order that the code does not choose: the first pair is the one that
-- `keys().next()` gives. `C` is a name up to case, `UniCase`, and `unicase` makes one.
pub mod Inserting
pub mod Edits
pub mod Keys
pub mod Merging
pub mod Alike
pub mod Similar
use bookworm.Base.{
  ℕ, ◌≡◌, ◌↔◌, arith, text_eq, text_eq_iff, ◌&&◌, Bool, true, false, Option, none, some, List, [],
  ◌∷◌, ◌++◌, map, Text, to_ascii_lowercase, length, leb, if◌then◌else◌, Eq, nat_eq, text_key,
  insert_key, lookup_key, remove_key, insert_elem, has_elem, codes,
}
use bookworm.Records.Column.{ColumnIdentifier, named_tag}
use bookworm.Records.Series.{Floats}
use bookworm.Records.Book.{
  Book, RecordError, Outcome, edit_column, get_column, join_authors, merge_mut,
}

pub record BookCache (F I C : Type 0) : Type 0 where
  pub books : List (ℕ × Book F I)
  pub cols : List C
  pub capacity : Option ℕ

-- `Some(len) >= capacity`: `None` comes first in the order of `Option`.
abbrev pub at_capacity : ℕ → Option ℕ → Bool
at_capacity len none = true
at_capacity len (some c) = leb c len

-- The entry that `insert_book` removes to make space.
abbrev pub without_first : {F I : Type 0} → List (ℕ × Book F I) → List (ℕ × Book F I)
without_first [] = []
without_first ((k, b) ∷ books) = remove_key k ((k, b) ∷ books)

module _ {F I C : Type 0} where
  -- `insert_book`; `none` is the panic of `id()` on a placeholder.
  unfoldable pub insert_book : Book F I → BookCache F I C → Option (BookCache F I C)
  unfolding insert_key remove_key
  insert_book b cache = elim b.id [
    | none ↦ none
    | some n ↦ some (record cache {
      books = insert_key n b (
          if at_capacity (length cache.books) cache.capacity
          then without_first cache.books
          else cache.books);
    })
  ]

  unfoldable pub remove_books : List ℕ → BookCache F I C → BookCache F I C
  remove_books [] cache = cache
  remove_books (n ∷ ids) cache =
      remove_books ids (record cache { books = remove_key n cache.books })

  unfoldable pub get_books : List ℕ → BookCache F I C → List (Option (Book F I))
  get_books ids cache = map (λ n. lookup_key n cache.books) ids

-- `BookCache::default` and `from_values_unchecked`
abbrev pub default_columns : List Text
default_columns =
    codes "title" ∷ codes "authors" ∷ codes "series" ∷ codes "id" ∷ codes "description" ∷ []

module _ {F I C : Type 0} ⦃e : Eq C⦄ where
  unfoldable pub insert_columns : List C → BookCache F I C → BookCache F I C
  unfolding insert_elem
  insert_columns [] cache = cache
  insert_columns (c ∷ columns) cache =
      insert_columns columns (record cache { cols = insert_elem c cache.cols })

  unfoldable pub default : (Text → C) → BookCache F I C
  unfolding insert_columns
  default unicase =
      insert_columns (map unicase default_columns)
        (record { books = []; cols = []; capacity = some 32768 })

  unfoldable pub from_values_unchecked : List (ℕ × Book F I) → List C → BookCache F I C
  from_values_unchecked books cols = record { books = books; cols = cols; capacity = none }

  unfoldable pub clear : BookCache F I C → BookCache F I C
  clear cache = record cache { books = [] }

  unfoldable pub has_column : C → BookCache F I C → Bool
  unfolding has_elem
  has_column col cache = has_elem col cache.cols

-- The title and the authors of a book in lower case, if it has both.
abbrev pub Likeness : Type 0
Likeness = Text × Text

unfoldable pub likeness : {F I : Type 0} → Book F I → Option Likeness
unfolding to_ascii_lowercase join_authors
likeness b = elim b.title [
  | none ↦ none
  | some t ↦ elim b.authors [
    | none ↦ none
    | some a ↦ some (to_ascii_lowercase t, to_ascii_lowercase (join_authors a))
  ]
]

-- `==` of pairs of texts
abbrev pub same_likeness : Likeness → Likeness → Bool
same_likeness v w = text_eq v.0 w.0 && text_eq v.1 w.1

pub same_likeness_iff : (v w : Likeness) → (same_likeness v w ≡ true) ↔ (v ≡ w)
same_likeness_iff v w = ground (arith, text_eq_iff v.0 w.0, text_eq_iff v.1 w.1)

instance abbrev pub likeness_key : Eq Likeness
likeness_key = record { beq = same_likeness; beq_iff = same_likeness_iff }

module _ {F I : Type 0} where
  -- The first loop of `merge_similar_books`, over `ref_map`: the pairs of books to merge.
  unfoldable pub find_merges : List (ℕ × Book F I) → List (Likeness × ℕ) → List (ℕ × ℕ)
  unfolding likeness
  find_merges [] ref_map = []
  find_merges ((n, b) ∷ books) ref_map = elim (likeness b) [
    | none ↦ find_merges books ref_map
    | some val ↦ elim (lookup_key val ref_map) [
      | some m ↦ (m, n) ∷ find_merges books ref_map
      | none ↦ find_merges books (insert_key val n ref_map)
    ]
  ]

  -- One round of the second loop.
  unfoldable pub merge_pair : ℕ → ℕ → List (ℕ × Book F I) → List (ℕ × Book F I)
  unfolding merge_mut
  merge_pair m n books =
      let rest = remove_key n books in
      elim (lookup_key m rest) [
        | none ↦ rest
        | some b1 ↦ elim (lookup_key n books) [
          | none ↦ rest
          | some b2 ↦ insert_key m (merge_mut b1 b2) rest
        ]
      ]

  unfoldable pub merge_pairs : List (ℕ × ℕ) → List (ℕ × Book F I) → List (ℕ × Book F I)
  unfolding merge_pair
  merge_pairs [] books = books
  merge_pairs ((m, n) ∷ merges) books = merge_pairs merges (merge_pair m n books)

  -- `merge_similar_books`. A book stands under its own identifier, so `id()` is the key.
  unfoldable pub merge_similar_books : List (ℕ × Book F I) → List (ℕ × Book F I) × List (ℕ × ℕ)
  unfolding find_merges merge_pairs
  merge_similar_books books =
      let merges = find_merges books [] in (merge_pairs merges books, merges)
