-- ===== src/Database/Cache/Edits/Known.antt =====
-- The set of columns of a `BookCache` (bookworm-database/src/cache.rs) knows the named tags of its books.
use bookworm.Base.{
  ℕ, ◌≡◌, ◌≢◌, ◌⊎◌, refl, sym, subst, ap, ◌∙◌, Bool, true, false, Option, none, some, List, [], ◌∷◌,
  Text, Eq, nat_eq, text_key, text_eq, text_eq_iff, insert_key, lookup_key, insert_elem, has_elem,
  has_elem-insert_elem, lookup_key-insert_key, ◌==◌, arith, Bool-cases, inl, inr,
}
use bookworm.Records.Column.{
  ColumnIdentifier, title, author, series, id, variants, description, tags, exact_tag, named_tag,
  multi_map, multi_map_exact,
}
use bookworm.Records.Series.{Floats}
use bookworm.Records.Book.{Book, Outcome, ok, err, panic, edit_column, get_column}
use bookworm.Records.Book as Records
use bookworm.Records.Book.Columns.{Edits, Edits-frame, edit_column-Edits}
use bookworm.Input.Edit.{Edit}
use bookworm.Database.Cache.{BookCache}
use bookworm.Database.Cache.Edits.{
  Edited, insert_name, book_edit, after_edit, edit_round, edit_book, edit_book_with_id,
}

module _ {C : Type 0} ⦃e : Eq C⦄ (unicase : Text → C) where
  abbrev Has : List C → Text → Type 0
  Has cols k = has_elem (unicase k) cols ≡ true

  Has-insert_elem : (c : C) (k : Text) (cols : List C) → Has cols k → Has (insert_elem c cols) k
  Has-insert_elem c k cols h = has_elem-insert_elem c (unicase k) cols ∙ ground (arith, h)

  Has-insert_name :
      (c : ColumnIdentifier) (k : Text) (cols : List C)
      → Has cols k
      → Has (insert_name unicase c cols) k
  Has-insert_name (named_tag x) k cols h = Has-insert_elem (unicase x) k cols h
  Has-insert_name title k cols h = h
  Has-insert_name author k cols h = h
  Has-insert_name series k cols h = h
  Has-insert_name id k cols h = h
  Has-insert_name variants k cols h = h
  Has-insert_name description k cols h = h
  Has-insert_name tags k cols h = h
  Has-insert_name (exact_tag t) k cols h = h
  Has-insert_name (multi_map t) k cols h = h
  Has-insert_name (multi_map_exact t u) k cols h = h

  -- A column that is inserted, or another.
  insert_name_cases :
      (c : ColumnIdentifier) (k : Text) (cols : List C)
      → Has (insert_name unicase c cols) k ⊎ (named_tag k ≢ c)
  insert_name_cases (named_tag x) k cols = elim (Bool-cases (text_eq x k)) [
    | inl same ↦ inl (
        has_elem-insert_elem (unicase x) (unicase k) cols
        ∙ ground (arith, e.beq_iff (unicase x) (unicase k), ap unicase ((text_eq_iff x k).0 same)))
    | inr other ↦
        inr (λ h. let same : x ≡ k = cc in absurd (ground (arith, other, (text_eq_iff x k).1 same)))
  ]
  insert_name_cases title k cols = inr (λ h. cc)
  insert_name_cases author k cols = inr (λ h. cc)
  insert_name_cases series k cols = inr (λ h. cc)
  insert_name_cases id k cols = inr (λ h. cc)
  insert_name_cases variants k cols = inr (λ h. cc)
  insert_name_cases description k cols = inr (λ h. cc)
  insert_name_cases tags k cols = inr (λ h. cc)
  insert_name_cases (exact_tag t) k cols = inr (λ h. cc)
  insert_name_cases (multi_map t) k cols = inr (λ h. cc)
  insert_name_cases (multi_map_exact t u) k cols = inr (λ h. cc)

module _ {F I C : Type 0} ⦃e : Eq C⦄ (unicase : Text → C) where
  abbrev pub Named : Book F I → List C → Type 0
  Named b cols = (k v : Text) → lookup_key k b.named_tags ≡ some v → Has unicase cols k

  -- The name of every named tag of every book is among the columns.
  abbrev pub IsKnown : BookCache F I C → Type 0
  IsKnown cache = (n : ℕ) (b : Book F I) → lookup_key n cache.books ≡ some b → Named b cache.cols

module _ {F I C : Type 0} ⦃e : Eq C⦄ (floats : Floats F) (unicase : Text → C) where
  edit_column-Named :
      (c : ColumnIdentifier) (d : Records.Edit) (b b' : Book F I) (cols : List C)
      → edit_column floats c d b ≡ ok b'
      → Named unicase b cols
      → Named unicase b' (insert_name unicase c cols)
  unfolding get_column
  edit_column-Named c d b b' cols h p k v there = elim (insert_name_cases unicase c k cols) [
    | inl has ↦ has
    | inr other ↦
        let edits = subst (Edits floats c d b) h (edit_column-Edits floats c d b) in
        let frame = Edits-frame floats c d b b' edits (named_tag k) other in
        Has-insert_name unicase c k cols (p k v (sym frame ∙ there))
  ]

  -- What an edit keeps: the tags are known, and no column is forgotten.
  abbrev Keeps : List C → Edited F I C → Type 0
  Keeps cols r = Named unicase r.0 r.1 × ((k : Text) → Has unicase cols k → Has unicase r.1 k)

  after_edit-Keeps :
      (c : ColumnIdentifier) (o : Outcome (Book F I)) (rest : Book F I → List C → Edited F I C)
      (b : Book F I) (cols : List C)
      → ((b' : Book F I) → o ≡ ok b' → Named unicase b' (insert_name unicase c cols))
      → ((b' : Book F I) (cols' : List C) → Named unicase b' cols' → Keeps cols' (rest b' cols'))
      → Named unicase b cols
      → Keeps cols (after_edit floats unicase c o rest b cols)
  after_edit-Keeps c (ok b') rest b cols h r p =
      let kept = r b' (insert_name unicase c cols) (h b' refl) in
      (kept.0, λ k has. kept.1 k (Has-insert_name unicase c k cols has))
  after_edit-Keeps c (err x) rest b cols h r p = (p, λ k has. has)
  after_edit-Keeps c panic rest b cols h r p = (p, λ k has. has)

  edit_round-Keeps :
      (c : ColumnIdentifier) (o : Option (Option Records.Edit))
      (rest : Book F I → List C → Edited F I C) (b : Book F I) (cols : List C)
      → ((b' : Book F I) (cols' : List C) → Named unicase b' cols' → Keeps cols' (rest b' cols'))
      → Named unicase b cols
      → Keeps cols (edit_round floats unicase c o rest b cols)
  edit_round-Keeps c none rest b cols r p = (p, λ k has. has)
  edit_round-Keeps c (some none) rest b cols r p = r b cols p
  edit_round-Keeps c (some (some d)) rest b cols r p =
      after_edit-Keeps c (edit_column floats c d b) rest b cols
        (λ b' h. edit_column-Named c d b b' cols h p) r p

  edit_book-Keeps :
      (edits : List (ColumnIdentifier × Edit)) (b : Book F I) (cols : List C)
      → Named unicase b cols
      → Keeps cols (edit_book floats unicase edits b cols)
  unfolding edit_book
  edit_book-Keeps [] b cols p = (p, λ k h. h)
  edit_book-Keeps ((c, d) ∷ edits) b cols p =
      edit_round-Keeps c (book_edit floats c d b) (edit_book floats unicase edits) b cols
        (edit_book-Keeps edits) p

  put-IsKnown :
      (n : ℕ) (cache : BookCache F I C) (r : Edited F I C)
      → IsKnown unicase cache
      → Keeps cache.cols r
      → IsKnown unicase (record cache { books = insert_key n r.0 cache.books; cols = r.1 })
  put-IsKnown n cache r p kept m b there k v named =
      let found = sym (lookup_key-insert_key n m r.0 cache.books) ∙ there in
      elim (Bool-cases (n == m)) [
        | inl same ↦
            let now = (rw same at found) in
            let e : r.0 ≡ b = cc in
            kept.0 k v (subst (λ c. lookup_key k c.named_tags ≡ some v) (sym e) named)
        | inr other ↦ kept.1 k (p m b (rw other at found) k v named)
      ]

  -- After `edit_book_with_id`, whatever it returns, the names of all named tags are among the columns, if
  -- they were before. The equality of names may be any, such as that up to case.
  pub edit_book_with_id-IsKnown :
      (n : ℕ) (edits : List (ColumnIdentifier × Edit)) (cache : BookCache F I C)
      → IsKnown unicase cache
      → IsKnown unicase (edit_book_with_id floats unicase n edits cache).0
  unfolding edit_book_with_id
  edit_book_with_id-IsKnown n edits cache p =
      elim (lookup_key n cache.books)
          as (λ o.
            lookup_key n cache.books ≡ o
            → IsKnown unicase (
                let r : BookCache F I C × Outcome Bool = elim o [
                  | none ↦ (cache, ok false)
                  | some b ↦
                      let after = edit_book floats unicase edits b cache.cols in
                      (
                        record cache { books = insert_key n after.0 cache.books; cols = after.1 },
                        after.2,
                      )
                ] in
                r.0)) [
                  | none ↦ λ h. p
                  | some b ↦ λ h.
                      put-IsKnown n cache (edit_book floats unicase edits b cache.cols) p
                        (edit_book-Keeps edits b cache.cols (p n b h))
                ]
        refl
