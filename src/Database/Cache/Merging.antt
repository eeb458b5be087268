-- ===== src/Database/Cache/Merging.antt =====
-- `merge_similar_books` of bookworm-database/src/cache.rs against the reference.
use bookworm.Base.{
  ℕ, ◌≡◌, refl, sym, ap, ◌∙◌, subst, Option, none, some, List, [], ◌∷◌, ◌++◌, arith, ==_refl,
  nat_eq, insert_key, lookup_key, lookup_key-insert_key, Bool-cases, Option-cases, inl, inr,
}
use mathlib.Core.List.{append-nil, append_assoc}
use bookworm.Records.Book.{Book, or_else, merge_mut}
use bookworm.Database.Cache.{
  Likeness, likeness, same_likeness, same_likeness_iff, likeness_key, find_merges, merge_pair,
  merge_pairs, merge_similar_books,
}
use bookworm.Database.Cache.Keys.{
  Unique, Unique-first, lookup_key-append, Unique-middle, remove_key_middle, insert_key_found,
  insert_key-Unique,
}
use bookworm.Database.Cache.Similar.{
  Books, find_similar, absorb, put_book, put_books, find_similar-append, is_like-some, is_like-none,
  find_similar-lookup_key, likeness-merge_mut, find_similar-insert_key,
}

or_else-none : (o : Option ℕ) → or_else o none ≡ o
or_else-none none = refl
or_else-none (some n) = refl

module _ {F I : Type 0} where
  -- `ref_map` holds the first book of every likeness among the books seen.
  abbrev Refers : List (Likeness × ℕ) → Books F I → Type 0
  Refers ref_map books = (val : Likeness) → lookup_key val ref_map ≡ find_similar val books

  Refers-unlike :
      (ref_map : List (Likeness × ℕ)) (books : Books F I) (n : ℕ) (b : Book F I)
      → Refers ref_map books
      → likeness b ≡ none
      → Refers ref_map (books ++ (n, b) ∷ [])
  Refers-unlike ref_map books n b r h val =
      r val
      ∙ sym (
          find_similar-append val books n b
          ∙ rw (is_like-none val b h) (or_else-none (find_similar val books)))

  Refers-new :
      (ref_map : List (Likeness × ℕ)) (books : Books F I) (n : ℕ) (b : Book F I) (v : Likeness)
      → Refers ref_map books
      → likeness b ≡ some v
      → lookup_key v ref_map ≡ none
      → Refers (insert_key v n ref_map) (books ++ (n, b) ∷ [])
  Refers-new ref_map books n b v r h e val =
      lookup_key-insert_key v val n ref_map
      ∙ rw (find_similar-append val books n b, is_like-some val v b h, sym (r val))
          (elim (Bool-cases (same_likeness v val)) [
            | inl alike ↦ rw (alike, sym ((same_likeness_iff v val).0 alike), e) refl
            | inr other ↦ rw other (sym (or_else-none (lookup_key val ref_map)))
          ])

  absorb-found :
      (m : ℕ) (b b1 : Book F I) (books : Books F I)
      → lookup_key m books ≡ some b1
      → absorb m b books ≡ insert_key m (merge_mut b1 b) books
  absorb-found m b b1 books h =
      ap (λ o. elim o [ none ↦ books | some c ↦ insert_key m (merge_mut c b) books ]) h

  lookup_key-same : (k : ℕ) (c : Book F I) (l : Books F I) → lookup_key k ((k, c) ∷ l) ≡ some c
  unfolding lookup_key
  lookup_key-same k c l = rw (==_refl k) refl

  merge_pair-absorb :
      (m n : ℕ) (b b1 : Book F I) (done books : Books F I)
      → Unique (done ++ (n, b) ∷ books)
      → lookup_key m done ≡ some b1
      → merge_pair m n (done ++ (n, b) ∷ books) ≡ absorb m b done ++ books
  unfolding merge_pair
  merge_pair-absorb m n b b1 done books u h =
      let (before, behind, _) = Unique-middle done n b books u in
      ap (λ rest. merged rest (lookup_key m rest) (lookup_key n (done ++ (n, b) ∷ books)))
        (remove_key_middle done n b books before behind)
      ∙ ap (λ o. merged (done ++ books) o (lookup_key n (done ++ (n, b) ∷ books)))
          (lookup_key-append m done books ∙ ap (λ o. or_else o (lookup_key m books)) h)
      ∙ ap (merged (done ++ books) (some b1)) (
          lookup_key-append n done ((n, b) ∷ books)
          ∙ ap (λ o. or_else o (lookup_key n ((n, b) ∷ books))) before
          ∙ lookup_key-same n b books)
      ∙ insert_key_found m (merge_mut b1 b) b1 done books h
      ∙ ap (λ l. l ++ books) (sym (absorb-found m b b1 done h))
    where
      merged : Books F I → Option (Book F I) → Option (Book F I) → Books F I
      merged rest b1 b2 = elim b1 [
        | none ↦ rest
        | some a ↦ elim b2 [ none ↦ rest | some c ↦ insert_key m (merge_mut a c) rest ]
      ]

  Unique-absorb :
      (m n : ℕ) (b b1 : Book F I) (done books : Books F I)
      → Unique (done ++ (n, b) ∷ books)
      → lookup_key m done ≡ some b1
      → Unique (absorb m b done ++ books)
  Unique-absorb m n b b1 done books u h =
      subst (λ l. Unique (l ++ books)) (sym (absorb-found m b b1 done h))
        (insert_key-Unique m (merge_mut b1 b) b1 done books h (Unique-middle done n b books u).2)

  Refers-absorb :
      (m : ℕ) (b b1 : Book F I) (v : Likeness) (done : Books F I) (ref_map : List (Likeness × ℕ))
      → lookup_key m done ≡ some b1
      → likeness b1 ≡ some v
      → Refers ref_map done
      → Refers ref_map (absorb m b done)
  Refers-absorb m b b1 v done ref_map h e r val =
      r val
      ∙ sym (
          ap (find_similar val) (absorb-found m b b1 done h)
          ∙ find_similar-insert_key val m b1 (merge_mut b1 b) done h
              (likeness-merge_mut b1 b v e ∙ sym e))

  find_merges-unlike :
      (n : ℕ) (b : Book F I) (books : Books F I) (ref_map : List (Likeness × ℕ))
      → likeness b ≡ none
      → find_merges ((n, b) ∷ books) ref_map ≡ find_merges books ref_map
  unfolding find_merges
  find_merges-unlike n b books ref_map h = ground arith

  find_merges-first :
      (n : ℕ) (b : Book F I) (books : Books F I) (ref_map : List (Likeness × ℕ)) (v : Likeness)
      → likeness b ≡ some v
      → lookup_key v ref_map ≡ none
      → find_merges ((n, b) ∷ books) ref_map ≡ find_merges books (insert_key v n ref_map)
  unfolding find_merges
  find_merges-first n b books ref_map v h e = ground arith

  find_merges-found :
      (n m : ℕ) (b : Book F I) (books : Books F I) (ref_map : List (Likeness × ℕ)) (v : Likeness)
      → likeness b ≡ some v
      → lookup_key v ref_map ≡ some m
      → find_merges ((n, b) ∷ books) ref_map ≡ (m, n) ∷ find_merges books ref_map
  unfolding find_merges
  find_merges-found n m b books ref_map v h e = ground arith

  put_book-unlike :
      (n : ℕ) (b : Book F I) (done : Books F I)
      → likeness b ≡ none
      → put_book n b done ≡ done ++ (n, b) ∷ []
  unfolding put_book
  put_book-unlike n b done h = ground arith

  put_book-first :
      (n : ℕ) (b : Book F I) (done : Books F I) (v : Likeness)
      → likeness b ≡ some v
      → find_similar v done ≡ none
      → put_book n b done ≡ done ++ (n, b) ∷ []
  unfolding put_book
  put_book-first n b done v h e = ground arith

  put_book-found :
      (n m : ℕ) (b : Book F I) (done : Books F I) (v : Likeness)
      → likeness b ≡ some v
      → find_similar v done ≡ some m
      → put_book n b done ≡ absorb m b done
  unfolding put_book
  put_book-found n m b done v h e = ground arith

  merge_pairs-put_books :
      (books done : Books F I) (ref_map : List (Likeness × ℕ))
      → Unique (done ++ books)
      → Refers ref_map done
      → merge_pairs (find_merges books ref_map) (done ++ books) ≡ put_books books done
  unfolding find_merges merge_pairs
  merge_pairs-put_books [] done ref_map u r = append-nil done
  merge_pairs-put_books ((n, b) ∷ books) done ref_map u r = elim (Option-cases (likeness b)) [
    | inl unlike ↦
        behind (find_merges-unlike n b books ref_map unlike) (put_book-unlike n b done unlike) (
          merge_pairs-put_books books (done ++ (n, b) ∷ []) ref_map (subst Unique moved u)
            (Refers-unlike ref_map done n b r unlike))
    | inr (v, e) ↦ elim (Option-cases (lookup_key v ref_map)) [
      | inl first ↦
          behind (find_merges-first n b books ref_map v e first)
            (put_book-first n b done v e (sym (r v) ∙ first))
            (merge_pairs-put_books books (done ++ (n, b) ∷ []) (insert_key v n ref_map)
              (subst Unique moved u) (Refers-new ref_map done n b v r e first))
      | inr (m, found) ↦
          let (b1, there, like) =
            find_similar-lookup_key v done m (Unique-first done ((n, b) ∷ books) u)
              (sym (r v) ∙ found) in
          ap (λ l. merge_pairs l (done ++ (n, b) ∷ books))
            (find_merges-found n m b books ref_map v e found)
          ∙ ap (merge_pairs (find_merges books ref_map))
              (merge_pair-absorb m n b b1 done books u there)
          ∙ merge_pairs-put_books books (absorb m b done) ref_map
              (Unique-absorb m n b b1 done books u there)
              (Refers-absorb m b b1 v done ref_map there like r)
          ∙ ap (put_books books) (sym (put_book-found n m b done v e (sym (r v) ∙ found)))
    ]
  ]
    where
      moved : done ++ (n, b) ∷ books ≡ (done ++ (n, b) ∷ []) ++ books
      moved = sym (append_assoc done ((n, b) ∷ []) books)

      behind :
          {all merges : List (ℕ × ℕ)} {put : Books F I}
          → all ≡ merges
          → put ≡ done ++ (n, b) ∷ []
          → merge_pairs merges ((done ++ (n, b) ∷ []) ++ books)
            ≡ put_books books (done ++ (n, b) ∷ [])
          → merge_pairs all (done ++ (n, b) ∷ books) ≡ put_books books put
      behind {merges = merges} f g e =
          ap (λ l. merge_pairs l (done ++ (n, b) ∷ books)) f
          ∙ ap (merge_pairs merges) moved
          ∙ e
          ∙ ap (put_books books) (sym g)

  -- Of books under different identifiers, `merge_similar_books` leaves what the reference makes: every
  -- book whose title and authors are, up to case, those of an earlier one is merged into the first
  -- such book, and the others stay, in their order.
  pub merge_similar_books-put_books :
      (books : Books F I) → Unique books → (merge_similar_books books).0 ≡ put_books books []
  unfolding merge_similar_books find_similar lookup_key
  merge_similar_books-put_books books u = merge_pairs-put_books books [] [] u (λ val. refl)
