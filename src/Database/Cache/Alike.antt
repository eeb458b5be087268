-- ===== src/Database/Cache/Alike.antt =====
-- `merge_similar_books` of bookworm-database/src/cache.rs against a pass that compares the books themselves.
use bookworm.Base.{
  ℕ, ◌+◌, ◌≡◌, refl, sym, ap, ◌∙◌, Bool, true, false, ◌&&◌, ◌||◌, ◌==◌, leb, Option, none, some,
  List, [], ◌∷◌, ◌++◌, Text, text_eq, to_ascii_lowercase, if◌then◌else◌, arith, Option-cases, inl,
  inr,
}
use bookworm.Records.Book.{Book, join_authors, option_map}
use bookworm.Database.Cache.{Likeness, likeness, same_likeness, merge_similar_books}
use bookworm.Database.Cache.Keys.{Unique}
use bookworm.Database.Cache.Similar.{Books, is_like, find_similar, absorb, put_book, put_books}
use bookworm.Database.Cache.Merging.{merge_similar_books-put_books}

-- Two characters are the same, up to the case of the letters of ASCII.
abbrev is_upper : ℕ → Bool
is_upper c = leb b'A' c && leb c b'Z'

abbrev pub same_letter : ℕ → ℕ → Bool
same_letter c d = c == d || (is_upper c && c + 32 == d) || (is_upper d && d + 32 == c)

unfoldable pub same_letters : Text → Text → Bool
same_letters [] [] = true
same_letters [] (d ∷ t) = false
same_letters (c ∷ s) [] = false
same_letters (c ∷ s) (d ∷ t) = same_letter c d && same_letters s t

same_letters_lem :
    (s t : Text) → text_eq (to_ascii_lowercase s) (to_ascii_lowercase t) ≡ same_letters s t
unfolding text_eq to_ascii_lowercase same_letters
same_letters_lem [] [] = refl
same_letters_lem [] (d ∷ t) = refl
same_letters_lem (c ∷ s) [] = refl
same_letters_lem (c ∷ s) (d ∷ t) = ground (arith, same_letters_lem s t)

-- Two texts that are there.
abbrev pub same_field : Option Text → Option Text → Bool
same_field (some s) (some t) = same_letters s t
same_field (some s) none = false
same_field none o = false

abbrev likeness_of : Option Text → Option (List Text) → Option Likeness
likeness_of title authors = elim title [
  | none ↦ none
  | some t ↦ elim authors [
    | none ↦ none
    | some a ↦ some (to_ascii_lowercase t, to_ascii_lowercase (join_authors a))
  ]
]

abbrev both_same : Option Likeness → Option Likeness → Bool
both_same (some v) (some w) = same_likeness v w
both_same (some v) none = false
both_same none o = false

same_fields :
    (title title' : Option Text) (authors authors' : Option (List Text))
    → both_same (likeness_of title authors) (likeness_of title' authors') ≡ (
        same_field title title'
        && same_field (option_map join_authors authors) (option_map join_authors authors'))
same_fields none title' authors authors' = refl
same_fields (some t) none none authors' = refl
same_fields (some t) none (some a) authors' = refl
same_fields (some t) (some t') none authors' = ground arith
same_fields (some t) (some t') (some a) none = ground arith
same_fields (some t) (some t') (some a) (some a') =
    rw (same_letters_lem t t', same_letters_lem (join_authors a) (join_authors a')) refl

is_like-both_same :
    (val : Likeness) (o : Option Likeness)
    → (elim o [ none ↦ false | some v ↦ same_likeness v val ]) ≡ both_same o (some val)
is_like-both_same val none = refl
is_like-both_same val (some v) = refl

both_same-none : (o : Option Likeness) → both_same o none ≡ false
both_same-none none = refl
both_same-none (some v) = refl

module _ {F I : Type 0} where
  -- Two books have titles and authors, and they are the same up to the case of letters of ASCII;
  -- the authors are compared as one text, with commas between them.
  abbrev pub alike : Book F I → Book F I → Bool
  alike b c =
      same_field b.title c.title
      && same_field (option_map join_authors b.authors) (option_map join_authors c.authors)

  unfoldable pub find_alike : Book F I → Books F I → Option ℕ
  find_alike b [] = none
  find_alike b ((n, c) ∷ books) = if alike c b then some n else find_alike b books

  -- Each book is merged into the first that is like it, or stands behind all.
  abbrev pub put_alike : Books F I → Books F I → Books F I
  put_alike [] done = done
  put_alike ((n, b) ∷ books) done =
      put_alike books
        (elim (find_alike b done) [ none ↦ done ++ (n, b) ∷ [] | some m ↦ absorb m b done ])

  both_same-alike : (b c : Book F I) → both_same (likeness b) (likeness c) ≡ alike b c
  unfolding likeness
  both_same-alike b c = same_fields b.title c.title b.authors c.authors

  is_like-alike :
      (val : Likeness) (b c : Book F I) → likeness b ≡ some val → is_like val c ≡ alike c b
  is_like-alike val b c h =
      is_like-both_same val (likeness c) ∙ ap (both_same (likeness c)) (sym h) ∙ both_same-alike c b

  find_similar-alike :
      (val : Likeness) (b : Book F I) (books : Books F I)
      → likeness b ≡ some val
      → find_similar val books ≡ find_alike b books
  unfolding find_similar find_alike
  find_similar-alike val b [] h = refl
  find_similar-alike val b ((n, c) ∷ books) h =
      rw (is_like-alike val b c h, find_similar-alike val b books h) refl

  find_alike-unlike :
      (b : Book F I) (books : Books F I) → likeness b ≡ none → find_alike b books ≡ none
  unfolding find_alike
  find_alike-unlike b [] h = refl
  find_alike-unlike b ((n, c) ∷ books) h =
      let different : alike c b ≡ false =
        sym (both_same-alike c b) ∙ ap (both_same (likeness c)) h ∙ both_same-none (likeness c) in
      rw different (find_alike-unlike b books h)

  -- The body of `put_book`.
  abbrev placed : ℕ → Book F I → Books F I → Option Likeness → Books F I
  placed n b done o = elim o [
    | none ↦ done ++ (n, b) ∷ []
    | some val ↦ elim (find_similar val done) [
      | none ↦ done ++ (n, b) ∷ []
      | some m ↦ absorb m b done
    ]
  ]

  put_book-alike :
      (n : ℕ) (b : Book F I) (done : Books F I)
      → put_book n b done
        ≡ (elim (find_alike b done) [ none ↦ done ++ (n, b) ∷ [] | some m ↦ absorb m b done ])
  unfolding put_book
  put_book-alike n b done = elim (Option-cases (likeness b)) [
    | inl unlike ↦
        ap (placed n b done) unlike
        ∙ ap (λ o. elim o [ none ↦ done ++ (n, b) ∷ [] | some m ↦ absorb m b done ])
            (sym (find_alike-unlike b done unlike))
    | inr (val, e) ↦
        ap (placed n b done) e
        ∙ ap (λ o. elim o [ none ↦ done ++ (n, b) ∷ [] | some m ↦ absorb m b done ])
            (find_similar-alike val b done e)
  ]

  put_books-alike : (books done : Books F I) → put_books books done ≡ put_alike books done
  put_books-alike [] done = refl
  put_books-alike ((n, b) ∷ books) done =
      ap (put_books books) (put_book-alike n b done) ∙ put_books-alike books _

  -- Of books under different identifiers, `merge_similar_books` leaves what one pass leaves that compares
  -- the books themselves: every book that has a title and authors, which are those of an earlier one
  -- up to the case of letters of ASCII, is merged into the first such book, and the others stay, in
  -- their order. Authors are compared as one text, with commas between them.
  pub merge_similar_books-put_alike :
      (books : Books F I) → Unique books → (merge_similar_books books).0 ≡ put_alike books []
  merge_similar_books-put_alike books u =
      merge_similar_books-put_books books u ∙ put_books-alike books []
