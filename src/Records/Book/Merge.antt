-- ===== src/Records/Book/Merge.antt =====
-- Merging books: `merge_mut` of bookworm-records/src/book.rs.
use bookworm.Base.{
  All, map, sym, ◌++◌, ◌≡◌, refl, ap, ◌∙◌, Option, none, some, List, [], ◌∷◌, Text, arith, text_key,
  text_eq, text_eq_iff, Bool-cases, inl, inr, if◌then◌else◌, insert_key, lookup_key,
  lookup_key-insert_key,
}
use mathlib.Core.List.{append-nil, append_assoc}
use bookworm.Records.Book.{Book, or_else, extend_map, merge_mut}

-- What is found in a map after it was extended.
abbrev newest : Text → List (Text × Text) → Option Text → Option Text
newest k [] old = old
newest k ((j, v) ∷ new) old = newest k new (if text_eq j k then some v else old)

lookup_key-extend_newest :
    (k : Text) (m new : List (Text × Text))
    → lookup_key k (extend_map m new) ≡ newest k new (lookup_key k m)
unfolding extend_map
lookup_key-extend_newest k m [] = refl
lookup_key-extend_newest k m ((j, v) ∷ new) =
    lookup_key-extend_newest k (insert_key j v m) new
    ∙ ap (newest k new) (lookup_key-insert_key j k v m)

newest_other :
    (k : Text) (new : List (Text × Text)) (old : Option Text)
    → newest k new old ≡ or_else (newest k new none) old
newest_other k [] old = refl
newest_other k ((j, v) ∷ new) old =
    ground (arith, newest_other k new (some v), newest_other k new old, newest_other k new none)

-- The keys of a map are distinct.
abbrev pub IsMap : List (Text × Text) → Type 0
IsMap [] = Unit
IsMap ((k, v) ∷ m) = (lookup_key k m ≡ none) × IsMap m

insert_key-IsMap : (k v : Text) (m : List (Text × Text)) → IsMap m → IsMap (insert_key k v m)
unfolding insert_key
insert_key-IsMap k v [] h = (unfold lookup_key in refl, tt)
insert_key-IsMap k v ((j, w) ∷ m) h = elim (Bool-cases (text_eq j k)) [
  | inl same ↦ rw same (rw ((text_eq_iff j k).0 same) at h.0, h.1)
  | inr other ↦ rw other (
    lookup_key-insert_key k j v m ∙ ground (arith, text_eq_iff j k, text_eq_iff k j, h.0),
    insert_key-IsMap k v m h.1,
  )
]

extend_map-IsMap : (m new : List (Text × Text)) → IsMap m → IsMap (extend_map m new)
unfolding extend_map
extend_map-IsMap m [] h = h
extend_map-IsMap m ((k, v) ∷ new) h =
    extend_map-IsMap (insert_key k v m) new (insert_key-IsMap k v m h)

newest_map : (k : Text) (m : List (Text × Text)) → IsMap m → newest k m none ≡ lookup_key k m
unfolding lookup_key
newest_map k [] h = refl
newest_map k ((j, v) ∷ m) h =
    ground (arith, text_eq_iff j k, newest_other k m (some v), newest_map k m h.1)

-- The new texts go before the old ones.
lookup_key-extend_map :
    (k : Text) (m new : List (Text × Text))
    → IsMap new
    → lookup_key k (extend_map m new) ≡ or_else (lookup_key k new) (lookup_key k m)
lookup_key-extend_map k m new h =
    lookup_key-extend_newest k m new
    ∙ newest_other k new (lookup_key k m)
    ∙ ap (λ o. or_else o (lookup_key k m)) (newest_map k new h)

or_else_assoc : {A : Type 0} (x y z : Option A) → or_else (or_else x y) z ≡ or_else x (or_else y z)
or_else_assoc none y z = refl
or_else_assoc (some a) y z = refl

-- The same but for the order of the named tags: under each name the same text.
pub record SameBook {F I : Type 0} (a b : Book F I) : Type 0 where
  pub same_id : a.id ≡ b.id
  pub same_title : a.title ≡ b.title
  pub same_authors : a.authors ≡ b.authors
  pub same_series : a.series ≡ b.series
  pub same_description : a.description ≡ b.description
  pub same_variants : a.variants ≡ b.variants
  pub same_free_tags : a.free_tags ≡ b.free_tags
  pub same_named_tags : (k : Text) → lookup_key k a.named_tags ≡ lookup_key k b.named_tags

-- Merging three books in either grouping gives the same book.
merge_mut_assoc :
    {F I : Type 0} (a b c : Book F I)
    → IsMap b.named_tags
    → IsMap c.named_tags
    → SameBook (merge_mut (merge_mut a b) c) (merge_mut a (merge_mut b c))
unfolding merge_mut
merge_mut_assoc a b c h k = record {
  same_id = refl;
  same_title = or_else_assoc a.title b.title c.title;
  same_authors = or_else_assoc a.authors b.authors c.authors;
  same_series = or_else_assoc a.series b.series c.series;
  same_description = refl;
  same_variants = append_assoc a.variants b.variants c.variants;
  same_free_tags = refl;
  same_named_tags = λ key.
      rw
        (
          lookup_key-extend_map key (extend_map a.named_tags b.named_tags) c.named_tags k,
          lookup_key-extend_map key a.named_tags b.named_tags h,
          lookup_key-extend_map key a.named_tags (extend_map b.named_tags c.named_tags)
              (extend_map-IsMap b.named_tags c.named_tags h),
          lookup_key-extend_map key b.named_tags c.named_tags k,
          or_else_assoc (lookup_key key c.named_tags) (lookup_key key b.named_tags)
              (lookup_key key a.named_tags),
        )
        refl;
}

-- Books are merged into a first one, one after the other.
abbrev pub merge_all : {F I : Type 0} → Book F I → List (Book F I) → Book F I
merge_all b [] = b
merge_all b (c ∷ bs) = merge_all (merge_mut b c) bs

-- The first value that is there, and the last.
abbrev pub first_there : {A : Type 0} → Option A → List (Option A) → Option A
first_there (some a) os = some a
first_there none [] = none
first_there none (o ∷ os) = first_there o os

abbrev pub last_there : {A : Type 0} → Option A → List (Option A) → Option A
last_there o [] = o
last_there o (p ∷ os) = or_else (last_there p os) o

abbrev pub join : {A : Type 0} → List (List A) → List A
join [] = []
join (l ∷ ls) = l ++ join ls

-- What a book is that was merged from others: it has the title, the authors and the series of the
-- first book that has them, the identifier, the description and the free tags of the first book,
-- the files of all, and under each name the named tag of the last book that has it.
pub record Merged {F I : Type 0} (b : Book F I) (bs : List (Book F I)) (a : Book F I) : Type 0 where
  pub first_title : a.title ≡ first_there b.title (map (λ c. c.title) bs)
  pub first_authors : a.authors ≡ first_there b.authors (map (λ c. c.authors) bs)
  pub first_series : a.series ≡ first_there b.series (map (λ c. c.series) bs)
  pub own_id : a.id ≡ b.id
  pub own_description : a.description ≡ b.description
  pub own_free_tags : a.free_tags ≡ b.free_tags
  pub all_variants : a.variants ≡ b.variants ++ join (map (λ c. c.variants) bs)
  pub last_named_tags :
      (k : Text)
      → lookup_key k a.named_tags
        ≡ last_there (lookup_key k b.named_tags) (map (λ c. lookup_key k c.named_tags) bs)

first_there-or_else :
    {A : Type 0} (o p : Option A) (os : List (Option A))
    → first_there (or_else o p) os ≡ first_there o (p ∷ os)
first_there-or_else none p os = refl
first_there-or_else (some a) p os = refl

last_there-or_else :
    {A : Type 0} (o p : Option A) (os : List (Option A))
    → last_there (or_else p o) os ≡ last_there o (p ∷ os)
last_there-or_else o p [] = refl
last_there-or_else o p (q ∷ os) = sym (or_else_assoc (last_there q os) p o)

-- Merging books into a first one, one after the other, gives what `Merged` says, if the names of the
-- tags of each book are distinct.
pub merge_all-Merged :
    {F I : Type 0} (b : Book F I) (bs : List (Book F I))
    → All (λ c. IsMap c.named_tags) bs
    → Merged b bs (merge_all b bs)
unfolding merge_mut
merge_all-Merged b [] h = record {
  first_title = alone b.title;
  first_authors = alone b.authors;
  first_series = alone b.series;
  own_id = refl;
  own_description = refl;
  own_free_tags = refl;
  all_variants = sym (append-nil b.variants);
  last_named_tags = λ k. refl;
}
  where
    alone : {A : Type 0} (o : Option A) → o ≡ first_there o []
    alone none = refl
    alone (some a) = refl
merge_all-Merged b (c ∷ bs) h =
    let m = merge_all-Merged (merge_mut b c) bs h.1 in
    record {
      first_title = m.first_title ∙ first_there-or_else b.title c.title (map (λ d. d.title) bs);
      first_authors =
          m.first_authors ∙ first_there-or_else b.authors c.authors (map (λ d. d.authors) bs);
      first_series =
          m.first_series ∙ first_there-or_else b.series c.series (map (λ d. d.series) bs);
      own_id = m.own_id;
      own_description = m.own_description;
      own_free_tags = m.own_free_tags;
      all_variants =
          m.all_variants ∙ append_assoc b.variants c.variants (join (map (λ d. d.variants) bs));
      last_named_tags = λ k.
          m.last_named_tags k
          ∙ ap (λ o. last_there o (map (λ d. lookup_key k d.named_tags) bs))
              (lookup_key-extend_map k b.named_tags c.named_tags h.0)
          ∙ last_there-or_else (lookup_key k b.named_tags) (lookup_key k c.named_tags)
              (map (λ d. lookup_key k d.named_tags) bs);
    }
