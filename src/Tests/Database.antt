-- ===== src/Tests/Database.antt =====
-- bookworm-database: the theorems at concrete inputs, and tests.
use bookworm.Base.{
  ℕ, ◌≤◌, ◌≡◌, refl, ap, Option, none, some, List, [], ◌∷◌, ◌++◌, Text, codes, length, take, drop,
  text_eq, ◌==◌, if◌then◌else◌, arith, lookup_key, nat_eq, get_or, text_key, true, has_elem,
  Bool-cases, inl, inr, sym, subst,
}
use mathlib.Core.List.{reverse}
use bookworm.Records.Column.{ColumnOrder, ascending, descending, ColumnIdentifier, title, named_tag}
use bookworm.Records.Book.{Book}
use bookworm.Database.Selection.{empty}
use bookworm.Database.Query.{Rules, Query, add_id, page_query}
use bookworm.Database.Paginator.{Paginator, window, update_window_size, scroll_down, new, ◌>>=◌}
use bookworm.Database.Paginator.Loading.{Answers, Holds, Ends}
use bookworm.Database.Paginator.Holding.{ShowsAt}
use bookworm.Database.Paginator.Down.{scroll_down-ShowsAt}
use bookworm.Database.Paginator.Sessions.{down, up, scrolls, update_window_size-scrolls}
use bookworm.Database.Cache.{BookCache, insert_book, find_merges, merge_similar_books}
use bookworm.Database.Cache.Alike.{put_alike, merge_similar_books-put_alike}
use bookworm.Database.Cache.Inserting.{insert_book_lem}
use bookworm.Records.Series.{Floats}
use bookworm.Input.Edit.{Edit, replace, sequence}
use bookworm.Input.Cursor.{push}
use bookworm.Database.Cache.Edits.{edit_book_with_id}
use bookworm.Database.Cache.Edits.Known.{IsKnown, edit_book_with_id-IsKnown}

-- A database of two books: what it holds behind and before a book, and its pages.
abbrev all_books : List ℕ
all_books = 5 ∷ 7 ∷ []

abbrev behind_book : ℕ → List ℕ
behind_book b = if b == 5 then 7 ∷ [] else []

abbrev before_book : ℕ → List ℕ
before_book b = if b == 7 then 5 ∷ [] else []

abbrev page_from : ColumnOrder → Option ℕ → List ℕ
page_from descending none = all_books
page_from descending (some b) = behind_book b
page_from ascending none = reverse all_books
page_from ascending (some b) = before_book b

abbrev two_books : Query ℕ ℕ → Option (List ℕ)
two_books q = some (take (get_or q.builder.limit 0) (page_from q.builder.order q.book))

no_rules : Rules
no_rules = []

behind_lem :
    (n : ℕ) (pre : List ℕ) (b : ℕ) (post : List ℕ)
    → all_books ≡ pre ++ b ∷ post
    → behind_book b ≡ post
behind_lem n [] b post h = ground arith
behind_lem n (x ∷ []) b post h = ground arith
behind_lem n (x ∷ (y ∷ [])) b post h = ground arith
behind_lem n (x ∷ (y ∷ (z ∷ pre))) b post h = ground arith

before_lem :
    (n : ℕ) (pre : List ℕ) (b : ℕ) (post : List ℕ)
    → all_books ≡ pre ++ b ∷ post
    → before_book b ≡ reverse pre
before_lem n [] b post h = ground arith
before_lem n (x ∷ []) b post h = ground arith
before_lem n (x ∷ (y ∷ [])) b post h = ground arith
before_lem n (x ∷ (y ∷ (z ∷ pre))) b post h = ground arith

two_books-Answers : Answers two_books (add_id no_rules) [] all_books
unfolding page_query
two_books-Answers = record {
  from_start = λ n. refl;
  from_end = λ n. refl;
  behind = λ n pre b post h. ap (λ l. some (take n l)) (behind_lem n pre b post h);
  before = λ n pre b post h. ap (λ l. some (take n l)) (before_lem n pre b post h);
}

update_window_size-scrolls_example :
    Ends two_books
      (add_id no_rules)
      []
      all_books
      (update_window_size two_books 1 (new 0 no_rules [])
        >>= scrolls two_books (down 3 ∷ (up 0 ∷ [])))
      (λ p. window p ≡ take 1 (drop 1 all_books))
update_window_size-scrolls_example =
    update_window_size-scrolls two_books no_rules [] all_books two_books-Answers 1 (omega arith) 0
      (down 3 ∷ (up 0 ∷ []))

-- The window is on the second book, and the first is not read yet.
abbrev second : Paginator ℕ ℕ
second = record {
  books = 7 ∷ [];
  window_size = 2;
  window_top = 0;
  sorting_rules = add_id no_rules;
  matching_rules = [];
  selected = empty;
}

second-Holds : Holds two_books (add_id no_rules) [] all_books second (5 ∷ []) []
second-Holds = record { whole = refl; anchored = λ e. cc; same_rules = refl; same_matches = refl }

scroll_down-ShowsAt_example :
    Ends two_books
      (add_id no_rules)
      []
      all_books
      (scroll_down two_books 1 second)
      (λ q. ShowsAt two_books (add_id no_rules) [] all_books q 0)
scroll_down-ShowsAt_example =
    scroll_down-ShowsAt two_books (add_id no_rules) [] all_books two_books-Answers 1 second 1
      (5 ∷ []) [] second-Holds refl

abbrev book : ℕ → Text → Book ℕ ℕ
book n t = record {
  id = some n;
  title = some t;
  authors = some (codes "Homer" ∷ []);
  series = none;
  description = none;
  variants = [];
  free_tags = [];
  named_tags = [];
}

abbrev three_books : List (ℕ × Book ℕ ℕ)
three_books =
    (1, book 1 (codes "Iliad"))
    ∷ ((2, book 2 (codes "ILIAD")) ∷ ((3, book 3 (codes "Odyssey")) ∷ []))

merge_similar_books-put_alike_example :
    (merge_similar_books three_books).0 ≡ put_alike three_books []
unfolding lookup_key
merge_similar_books-put_alike_example =
    merge_similar_books-put_alike three_books (refl, (refl, (refl, tt)))

alike_merged : (merge_similar_books three_books).1 ≡ (1, 2) ∷ []
unfolding merge_similar_books find_merges lookup_key text_eq
alike_merged = refl

abbrev full : BookCache ℕ ℕ ℕ
full = record { books = (1, book 1 (codes "Iliad")) ∷ []; cols = []; capacity = some 1 }

insert_book_lem_example :
    (after : BookCache ℕ ℕ ℕ) × (insert_book (book 3 (codes "Odyssey")) full ≡ some after)
    × (lookup_key 3 after.books ≡ some (book 3 (codes "Odyssey")))
    × (length after.books ≤ 1)
    × (after.capacity ≡ some 1)
insert_book_lem_example =
    insert_book_lem (book 3 (codes "Odyssey")) full 1 3 refl refl (omega arith) (omega arith)

no_floats : Floats ℕ
no_floats = record {
  parse = λ s. none;
  show = λ n. [];
  partial_cmp = λ i j. none;
  is_nan = λ i. true;
}

-- The columns are compared as texts.
abbrev tagged : Book ℕ ℕ
tagged = record (book 1 (codes "Iliad")) { named_tags = (codes "read", codes "no") ∷ [] }

abbrev kept : BookCache ℕ ℕ Text
kept = record { books = (1, tagged) ∷ []; cols = codes "read" ∷ []; capacity = some 8 }

tagged-Named : (k v : Text) → lookup_key k tagged.named_tags ≡ some v → has_elem k kept.cols ≡ true
unfolding lookup_key has_elem
tagged-Named k v h = elim (Bool-cases (text_eq (codes "read") k)) [
  | inl same ↦ rw same refl
  | inr other ↦ let missing = (rw other at h) in cc
]

kept-IsKnown : IsKnown (λ s. s) kept
unfolding lookup_key
kept-IsKnown n b there k v named = elim (Bool-cases (1 == n)) [
  | inl same ↦
      let found = (rw same at there) in
      let e : tagged ≡ b = cc in
      tagged-Named k v (subst (λ c. lookup_key k c.named_tags ≡ some v) (sym e) named)
  | inr other ↦ let missing = (rw other at there) in cc
]

abbrev two_edits : List (ColumnIdentifier × Edit)
two_edits =
    (named_tag (codes "read"), replace (codes "yes")) ∷ ((title, sequence (push b'!' ∷ [])) ∷ [])

edit_book_with_id-IsKnown_example :
    IsKnown (λ s. s) (edit_book_with_id no_floats (λ s. s) 1 two_edits kept).0
edit_book_with_id-IsKnown_example =
    edit_book_with_id-IsKnown no_floats (λ s. s) 1 two_edits kept kept-IsKnown
