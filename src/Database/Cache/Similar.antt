-- ===== src/Database/Cache/Similar.antt =====
-- The reference for `merge_similar_books` of bookworm-database/src/cache.rs: the books are put into a list
-- one by one.
use bookworm.Base.{
  ℕ, ◌≡◌, ap, Bool, true, false, Option, none, some, List, [], ◌∷◌, ◌++◌, if◌then◌else◌, arith,
  ==_iff, ==_refl, nat_eq, insert_key, lookup_key, Bool-cases, inl, inr,
}
use bookworm.Records.Book.{Book, or_else, merge_mut}
use bookworm.Database.Cache.{Likeness, likeness, same_likeness, same_likeness_iff, likeness_key}
use bookworm.Database.Cache.Keys.{Unique}

abbrev pub Books : Type 0 → Type 0 → Type 0
Books F I = List (ℕ × Book F I)

module _ {F I : Type 0} where
  -- Whether a book has this title and these authors, up to case.
  abbrev pub is_like : Likeness → Book F I → Bool
  is_like val b = elim (likeness b) [ none ↦ false | some v ↦ same_likeness v val ]

  -- The identifier of the first such book.
  unfoldable pub find_similar : Likeness → Books F I → Option ℕ
  find_similar val [] = none
  find_similar val ((n, b) ∷ books) = if is_like val b then some n else find_similar val books

  abbrev pub absorb : ℕ → Book F I → Books F I → Books F I
  absorb m b books = elim (lookup_key m books) [
    | none ↦ books
    | some b1 ↦ insert_key m (merge_mut b1 b) books
  ]

  -- A book is merged into the first that is like it, or stands behind all.
  unfoldable pub put_book : ℕ → Book F I → Books F I → Books F I
  put_book n b books = elim (likeness b) [
    | none ↦ books ++ (n, b) ∷ []
    | some val ↦ elim (find_similar val books) [
      | none ↦ books ++ (n, b) ∷ []
      | some m ↦ absorb m b books
    ]
  ]

  abbrev pub put_books : Books F I → Books F I → Books F I
  put_books [] done = done
  put_books ((n, b) ∷ books) done = put_books books (put_book n b done)

  pub find_similar-append :
      (val : Likeness) (books : Books F I) (n : ℕ) (b : Book F I)
      → find_similar val (books ++ (n, b) ∷ [])
        ≡ or_else (find_similar val books) (if is_like val b then some n else none)
  unfolding find_similar
  find_similar-append val [] n b = ground arith
  find_similar-append val ((j, c) ∷ books) n b = ground (arith, find_similar-append val books n b)

  is_like-likeness : (val : Likeness) (b : Book F I) → is_like val b ≡ true → likeness b ≡ some val
  is_like-likeness val b h =
      elim (likeness b)
          as (λ o. elim o [ none ↦ false | some v ↦ same_likeness v val ] ≡ true → o ≡ some val) [
            | none ↦ λ e. cc
            | some v ↦ λ e. ap some ((same_likeness_iff v val).0 e)
          ]
        h

  pub is_like-some :
      (val v : Likeness) (b : Book F I) → likeness b ≡ some v → is_like val b ≡ same_likeness v val
  is_like-some val v b h = ap (λ o. elim o [ none ↦ false | some w ↦ same_likeness w val ]) h

  pub is_like-none : (val : Likeness) (b : Book F I) → likeness b ≡ none → is_like val b ≡ false
  is_like-none val b h = ap (λ o. elim o [ none ↦ false | some w ↦ same_likeness w val ]) h

  -- What is found is there, and is like what was sought.
  pub find_similar-lookup_key :
      (val : Likeness) (books : Books F I) (m : ℕ)
      → Unique books
      → find_similar val books ≡ some m
      → (b1 : Book F I) × (lookup_key m books ≡ some b1) × (likeness b1 ≡ some val)
  unfolding find_similar lookup_key
  find_similar-lookup_key val [] m u h = cc
  find_similar-lookup_key val ((n, b) ∷ books) m u h = elim (Bool-cases (is_like val b)) [
    | inl alike ↦ (b, ground (arith, ==_refl m), is_like-likeness val b alike)
    | inr other ↦
        let (b1, e, l) = find_similar-lookup_key val books m u.1 (rw other at h) in
        (b1, ground (arith, ==_iff n m, u.0), l)
  ]

  -- Merging keeps the likeness of a book that has one.
  pub likeness-merge_mut :
      (b1 b : Book F I) (val : Likeness)
      → likeness b1 ≡ some val
      → likeness (merge_mut b1 b) ≡ some val
  unfolding likeness merge_mut
  likeness-merge_mut b1 b val h = ground (arith, h)

  pub find_similar-insert_key :
      (val : Likeness) (m : ℕ) (b1 b2 : Book F I) (books : Books F I)
      → lookup_key m books ≡ some b1
      → likeness b2 ≡ likeness b1
      → find_similar val (insert_key m b2 books) ≡ find_similar val books
  unfolding find_similar insert_key lookup_key
  find_similar-insert_key val m b1 b2 [] h e = cc
  find_similar-insert_key val m b1 b2 ((n, b) ∷ books) h e =
      ground (arith, ==_iff n m, find_similar-insert_key val m b1 b2 books)
