-- ===== src/Database/Paginator/Loading.antt =====
-- What a `Paginator` (bookworm-database/src/paginator.rs) reads of the sorted list of all books that
-- match, and how the books that it holds grow.
use bookworm.Base.{
  ℕ, zero, suc, ◌-◌, ◌≡◌, refl, sym, ap, ◌∙◌, inl, inr, false, Option, none, some, List, [], ◌∷◌,
  ◌++◌, length, take, first?, last?, take_last, drop_past, last-cases, first-cases,
  reverse-take-reverse, is_empty, ◌==◌, if◌then◌else◌, arith,
}
use mathlib.Core.List.{reverse, append_assoc, append-nil}
use bookworm.Records.Column.{ColumnOrder, ascending, descending}
use bookworm.Database.Query.{Rules, Query, page_query}
use bookworm.Database.Paginator.{
  Paginator, done, failed, panicked, Run, ◌>>=◌, load_books_after_end, load_books_before_start,
}

suc-ne-zero : (n : ℕ) → (suc n == 0) ≡ false
suc-ne-zero n = ground arith

module _ {B M : Type 0} (ask : Query B M → Option (List B)) (rules : Rules) (matches : List M)
    (all : List B) where
  abbrev page : ColumnOrder → ℕ → Option B → Option (List B)
  page order limit book =
      ask (record { builder = page_query rules order limit; book = book; match_rules = matches })

  -- What the paginator asks of its database. All books that match stand in a sorted list; a page
  -- holds the first of them, or those right behind a book, or, in the other direction, the last or
  -- those right before it.
  pub record Answers : Type 0 where
    pub from_start : (n : ℕ) → page descending n none ≡ some (take n all)
    pub from_end : (n : ℕ) → page ascending n none ≡ some (take n (reverse all))
    pub behind :
        (n : ℕ) (pre : List B) (b : B) (post : List B)
        → all ≡ pre ++ b ∷ post
        → page descending n (some b) ≡ some (take n post)
    pub before :
        (n : ℕ) (pre : List B) (b : B) (post : List B)
        → all ≡ pre ++ b ∷ post
        → page ascending n (some b) ≡ some (take n (reverse pre))

  -- The books of a paginator are a piece of the list; where it has none, it stands at the start.
  pub record Holds (p : Paginator B M) (pre post : List B) : Type 0 where
    pub whole : all ≡ pre ++ (p.books ++ post)
    pub anchored : p.books ≡ [] → pre ≡ []
    pub same_rules : p.sorting_rules ≡ rules
    pub same_matches : p.matching_rules ≡ matches

  abbrev pub Ends : Run B M → (Paginator B M → Type 0) → Type 0
  Ends (p, done) P = P p
  Ends (p, failed) P = ⊥
  Ends (p, panicked) P = ⊥

  pub Ends-bind :
      (r : Run B M) (f : Paginator B M → Run B M) (P Q : Paginator B M → Type 0)
      → Ends r P
      → ((p : Paginator B M) → P p → Ends (f p) Q)
      → Ends (r >>= f) Q
  Ends-bind (p, done) f P Q h k = k p h
  Ends-bind (p, failed) f P Q h k = h
  Ends-bind (p, panicked) f P Q h k = h

  pub Ends_map :
      (r : Run B M) (P Q : Paginator B M → Type 0)
      → Ends r P
      → ((p : Paginator B M) → P p → Q p)
      → Ends r Q
  Ends_map (p, done) P Q h k = k p h
  Ends_map (p, failed) P Q h k = h
  Ends_map (p, panicked) P Q h k = h

  -- A field that a run does not change.
  pub Ends-kept :
      {X : Type 0} (f : Paginator B M → X) (r : Run B M) (P : Paginator B M → Type 0) (x : X)
      → Ends r P
      → f r.0 ≡ x
      → Ends r (λ q. P q × (f q ≡ x))
  Ends-kept f (p, done) P x h k = (h, k)
  Ends-kept f (p, failed) P x h k = h
  Ends-kept f (p, panicked) P x h k = h

  pub asked :
      (order : ColumnOrder) (n : ℕ) (b b' : Option B) (r : Rules) (ms : List M)
      → r ≡ rules
      → ms ≡ matches
      → b ≡ b'
      → ask (record { builder = page_query r order n; book = b; match_rules = ms })
        ≡ page order n b'
  asked order n b b' r ms e e' e'' = rw (e, e', e'') refl

  abbrev prepended : List B → Paginator B M → Run B M
  prepended l p = (record p { books = l ++ p.books }, done)

  abbrev unless_empty : List B → Paginator B M → Run B M
  unless_empty l p = if is_empty l then (p, done) else prepended (reverse l) p

  unless_empty_lem : (l : List B) (p : Paginator B M) → unless_empty l p ≡ prepended (reverse l) p
  unless_empty_lem [] p = refl
  unless_empty_lem (x ∷ l) p = refl

  module _ (a : Answers) (p : Paginator B M) (pre post : List B) (h : Holds p pre post) where
    answer_after :
        (n : ℕ)
        → ask (record {
          builder = page_query p.sorting_rules descending n;
          book = last? p.books;
          match_rules = p.matching_rules;
        })
          ≡ some (take n post)
    answer_after n = elim (last-cases p.books) [
      | inl e ↦
          asked descending n (last? p.books) none p.sorting_rules p.matching_rules h.same_rules
            h.same_matches (ap last? e)
          ∙ a.from_start n
          ∙ ap (λ l. some (take n l)) (h.whole ∙ rw (h.anchored e, e) refl)
      | inr (init, x, e, l) ↦
          asked descending n (last? p.books) (some x) p.sorting_rules p.matching_rules h.same_rules
            h.same_matches l
          ∙ a.behind n (pre ++ init) x post
              (h.whole ∙ rw (e, append_assoc) (sym (append_assoc pre init (x ∷ post))))
    ]

    pub loaded_after :
        (n : ℕ)
        → Ends (load_books_after_end ask n p) (λ q. q ≡ record p { books = p.books ++ take n post })
    unfolding load_books_after_end
    loaded_after zero = ap (λ l. record p { books = l }) (sym (append-nil p.books))
    loaded_after (suc n) = rw (suc-ne-zero n, answer_after (suc n)) refl

    module _ (covered : p.books ≡ [] → all ≡ []) where
      answer_before :
          (n : ℕ)
          → ask (record {
            builder = page_query p.sorting_rules ascending n;
            book = first? p.books;
            match_rules = p.matching_rules;
          })
            ≡ some (take n (reverse pre))
      answer_before n = elim (first-cases p.books) [
        | inl e ↦
            asked ascending n (first? p.books) none p.sorting_rules p.matching_rules h.same_rules
              h.same_matches (ap first? e)
            ∙ a.from_end n
            ∙ ap (λ l. some (take n (reverse l))) (covered e ∙ sym (h.anchored e))
        | inr (x, rest, e) ↦
            asked ascending n (first? p.books) (some x) p.sorting_rules p.matching_rules
              h.same_rules h.same_matches (ap first? e)
            ∙ a.before n pre x (rest ++ post) (h.whole ∙ ap (λ l. pre ++ (l ++ post)) e)
      ]

      pub loaded_before :
          (n : ℕ)
          → Ends
              (load_books_before_start ask n p)
              (λ q. q ≡ record p { books = take_last n pre ++ p.books })
      unfolding load_books_before_start
      loaded_before zero =
          ap (λ l. record p { books = l ++ p.books })
            (sym (drop_past (length pre - 0) pre (omega arith)))
      loaded_before (suc n) =
          rw (suc-ne-zero n, answer_before (suc n))
            (rw (unless_empty_lem (take (suc n) (reverse pre)) p, reverse-take-reverse (suc n) pre)
              refl)
