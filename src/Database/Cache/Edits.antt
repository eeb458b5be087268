-- ===== src/Database/Cache/Edits.antt =====
-- `edit_book_with_id` of bookworm-database/src/cache.rs: the edits of a user, carried out on a book in the
-- cache. `C` is a name up to case, and `unicase` makes one.
pub mod Known
use bookworm.Base.{
  ℕ, Bool, true, false, Option, none, some, List, [], ◌∷◌, Text, Eq, nat_eq, insert_key, lookup_key,
  insert_elem,
}
use bookworm.Records.Column.{ColumnIdentifier, named_tag}
use bookworm.Records.Series.{Floats}
use bookworm.Records.Book.{Book, Outcome, ok, err, panic, edit_column, get_column}
use bookworm.Records.Book as Records
use bookworm.Input.Recorder.{apply_to}
use bookworm.Input.Edit.{Edit, delete, replace, append, sequence}
use bookworm.Database.Cache.{BookCache}

-- The book and the columns, and what is returned.
abbrev pub Edited : Type 0 → Type 0 → Type 0 → Type 0
Edited F I C = Book F I × List C × Outcome Bool

-- `cols.insert`, where the column is a named tag.
abbrev pub insert_name : {C : Type 0} ⦃e : Eq C⦄ → (Text → C) → ColumnIdentifier → List C → List C
insert_name unicase (named_tag x) cols = insert_elem (unicase x) cols
insert_name unicase c cols = cols

module _ {F I : Type 0} (floats : Floats F) where
  -- The edit of the book for an edit of the user: `some none` is `continue`, and `none` the panic of a
  -- replay.
  unfoldable pub book_edit : ColumnIdentifier → Edit → Book F I → Option (Option Records.Edit)
  unfolding get_column apply_to
  book_edit c delete b = some (some Records.delete)
  book_edit c (replace s) b = some (some (Records.replace s))
  book_edit c (append s) b = some (some (Records.append s))
  book_edit c (sequence es) b = elim (get_column floats c b) [
    | none ↦ some none
    | some col ↦ elim (apply_to es col) [
      | none ↦ none
      | some t ↦ some (some (Records.replace t.text))
    ]
  ]

module _ {F I C : Type 0} ⦃e : Eq C⦄ (floats : Floats F) (unicase : Text → C) where
  -- A round of the loop over the edits: the call of `edit_column`, and what follows it. `rest` is the
  -- rest of the loop.
  abbrev pub after_edit :
      ColumnIdentifier
      → Outcome (Book F I)
      → (Book F I → List C → Edited F I C)
      → Book F I
      → List C
      → Edited F I C
  after_edit c (ok b') rest b cols = rest b' (insert_name unicase c cols)
  after_edit c (err x) rest b cols = (b, cols, err x)
  after_edit c panic rest b cols = (b, cols, panic)

  abbrev pub edit_round :
      ColumnIdentifier
      → Option (Option Records.Edit)
      → (Book F I → List C → Edited F I C)
      → Book F I
      → List C
      → Edited F I C
  edit_round c none rest b cols = (b, cols, panic)
  edit_round c (some none) rest b cols = rest b cols
  edit_round c (some (some d)) rest b cols = after_edit c (edit_column floats c d b) rest b cols

  -- The loop, with the book and the columns that it leaves.
  unfoldable pub edit_book : List (ColumnIdentifier × Edit) → Book F I → List C → Edited F I C
  unfolding book_edit edit_column
  edit_book [] b cols = (b, cols, ok true)
  edit_book ((c, d) ∷ edits) b cols = edit_round c (book_edit floats c d b) (edit_book edits) b cols

  unfoldable pub edit_book_with_id :
      ℕ → List (ColumnIdentifier × Edit) → BookCache F I C → BookCache F I C × Outcome Bool
  unfolding edit_book insert_key
  edit_book_with_id n edits cache = elim (lookup_key n cache.books) [
    | none ↦ (cache, ok false)
    | some b ↦
        let after = edit_book edits b cache.cols in
        (record cache { books = insert_key n after.0 cache.books; cols = after.1 }, after.2)
  ]
