-- ===== src/Database/Cache/Keys.antt =====
-- Maps from identifiers, as the lists of pairs of which `BookCache` (bookworm-database/src/cache.rs) has
-- one.
use bookworm.Base.{
  ℕ, ◌≡◌, refl, ◌∙◌, none, some, List, [], ◌∷◌, ◌++◌, arith, ◌==◌, ==_iff, ==_refl, nat_eq,
  insert_key, lookup_key, remove_key, lookup_key-insert_key, Bool-cases, inl, inr,
}
use bookworm.Records.Book.{or_else}

module _ {V : Type 0} where
  abbrev pub Unique : List (ℕ × V) → Type 0
  Unique [] = Unit
  Unique ((k, v) ∷ m) = (lookup_key k m ≡ none) × Unique m

  pub lookup_key-append :
      (k : ℕ) (m m' : List (ℕ × V))
      → lookup_key k (m ++ m') ≡ or_else (lookup_key k m) (lookup_key k m')
  unfolding lookup_key
  lookup_key-append k [] m' = refl
  lookup_key-append k ((j, v) ∷ m) m' = ground (arith, lookup_key-append k m m')

  -- A key in the middle is in no other place.
  pub Unique-middle :
      (m : List (ℕ × V)) (k : ℕ) (v : V) (m' : List (ℕ × V))
      → Unique (m ++ (k, v) ∷ m')
      → (lookup_key k m ≡ none) × (lookup_key k m' ≡ none) × Unique (m ++ m')
  unfolding lookup_key
  Unique-middle [] k v m' h = (refl, h.0, h.1)
  Unique-middle ((j, w) ∷ m) k v m' h =
      let (a, b, c) = Unique-middle m k v m' h.1 in
      (
        ground (arith, ==_iff j k, ==_refl k, h.0, lookup_key-append j m ((k, v) ∷ m')),
        b,
        (ground (arith, h.0, lookup_key-append j m ((k, v) ∷ m'), lookup_key-append j m m'), c),
      )

  pub Unique-first : (m m' : List (ℕ × V)) → Unique (m ++ m') → Unique m
  unfolding lookup_key
  Unique-first [] m' h = tt
  Unique-first ((j, w) ∷ m) m' h =
      (ground (arith, h.0, lookup_key-append j m m'), Unique-first m m' h.1)

  remove_key_missing : (k : ℕ) (m : List (ℕ × V)) → lookup_key k m ≡ none → remove_key k m ≡ m
  unfolding lookup_key remove_key
  remove_key_missing k [] h = refl
  remove_key_missing k ((j, w) ∷ m) h = ground (arith, remove_key_missing k m)

  remove_key-append :
      (k : ℕ) (m m' : List (ℕ × V)) → remove_key k (m ++ m') ≡ remove_key k m ++ remove_key k m'
  unfolding remove_key
  remove_key-append k [] m' = refl
  remove_key-append k ((j, w) ∷ m) m' = ground (arith, remove_key-append k m m')

  pub remove_key_middle :
      (m : List (ℕ × V)) (k : ℕ) (v : V) (m' : List (ℕ × V))
      → lookup_key k m ≡ none
      → lookup_key k m' ≡ none
      → remove_key k (m ++ (k, v) ∷ m') ≡ m ++ m'
  unfolding remove_key
  remove_key_middle m k v m' h h' =
      remove_key-append k m ((k, v) ∷ m')
      ∙ rw (==_refl k, remove_key_missing k m h, remove_key_missing k m' h') refl

  pub insert_key_found :
      (k : ℕ) (v w : V) (m m' : List (ℕ × V))
      → lookup_key k m ≡ some w
      → insert_key k v (m ++ m') ≡ insert_key k v m ++ m'
  unfolding lookup_key insert_key
  insert_key_found k v w [] m' h = cc
  insert_key_found k v w ((j, u) ∷ m) m' h = ground (arith, insert_key_found k v w m m')

  pub insert_key-Unique :
      (k : ℕ) (v w : V) (m m' : List (ℕ × V))
      → lookup_key k m ≡ some w
      → Unique (m ++ m')
      → Unique (insert_key k v m ++ m')
  unfolding insert_key lookup_key
  insert_key-Unique k v w [] m' h u = cc
  insert_key-Unique k v w ((j, x) ∷ m) m' h u = elim (Bool-cases (j == k)) [
    | inl same ↦ rw same (rw ((==_iff j k).0 same) at u.0, u.1)
    | inr other ↦ rw other (
      ground (
        arith,
        ==_iff k j,
        ==_iff j k,
        u.0,
        lookup_key-append j m m',
        lookup_key-append j (insert_key k v m) m',
        lookup_key-insert_key k j v m,
      ),
      insert_key-Unique k v w m m' (rw other at h) u.1,
    )
  ]
