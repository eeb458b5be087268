-- ===== src/Database/Cache/Inserting.antt =====
-- `insert_book` of bookworm-database/src/cache.rs: what the cache holds afterwards.
use bookworm.Base.{
  subst, sym, refl, ◌∙◌, ℕ, ◌≡◌, ◌≤◌, ◌<◌, ◌+◌, ==_refl, some, List, [], ◌∷◌, length, if◌then◌else◌,
  arith, insert_key, lookup_key, remove_key, lookup_key-insert_key, nat_eq,
}
use bookworm.Records.Book.{Book}
use bookworm.Database.Cache.{BookCache, at_capacity, without_first, insert_book}

module _ {V : Type 0} where
  length-remove_key : (k : ℕ) (m : List (ℕ × V)) → length (remove_key k m) ≤ length m
  unfolding remove_key
  length-remove_key k [] = ground arith
  length-remove_key k ((j, v) ∷ m) = ground (arith, length-remove_key k m)

  length-insert_key : (k : ℕ) (v : V) (m : List (ℕ × V)) → length (insert_key k v m) ≤ length m + 1
  unfolding insert_key
  length-insert_key k v [] = ground arith
  length-insert_key k v ((j, w) ∷ m) = ground (arith, length-insert_key k v m)

module _ {F I : Type 0} where
  room :
      (c : ℕ) (m : List (ℕ × Book F I))
      → 0 < c
      → length m ≤ c
      → length (if at_capacity (length m) (some c) then without_first m else m) < c
  unfolding remove_key
  room c [] p q = ground arith
  room c ((k, b) ∷ m) p q = ground (arith, ==_refl k, length-remove_key k m)

  -- Let a cache with a capacity `c`, which is not 0, hold at most `c` books. After `insert_book` of a book
  -- with an identifier `n` it still does, and the book is under `n`.
  pub insert_book_lem :
      {C : Type 0} (b : Book F I) (cache : BookCache F I C) (c n : ℕ)
      → b.id ≡ some n
      → cache.capacity ≡ some c
      → 0 < c
      → length cache.books ≤ c
      → (after : BookCache F I C) × (insert_book b cache ≡ some after)
        × (lookup_key n after.books ≡ some b)
        × (length after.books ≤ c)
        × (after.capacity ≡ some c)
  unfolding insert_book
  insert_book_lem b cache c n h e p q =
      let less =
        (if at_capacity (length cache.books) cache.capacity
          then without_first cache.books
          else cache.books) in
      let small =
        subst
          (λ o.
            length (
              if at_capacity (length cache.books) o then without_first cache.books else cache.books)
            < c)
          (sym e) (room c cache.books p q) in
      (
        record cache { books = insert_key n b less },
        rw h refl,
        lookup_key-insert_key n n b less ∙ rw (==_refl n) refl,
        omega (arith, length-insert_key n b less, small),
        e,
      )
