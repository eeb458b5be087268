-- ===== src/Database/Paginator/Fields.antt =====
-- What the methods of `Paginator` (bookworm-database/src/paginator.rs) that load and scroll leave alone: the
-- fields other than the books and the top of the window.
use bookworm.Base.{
  ℕ, ◌+◌, ◌-◌, ◌≡◌, refl, ◌∙◌, Bool, true, false, Option, none, some, List, [], ◌∷◌, ◌++◌, length,
  ltb, ◌==◌, is_empty, first?, if◌then◌else◌,
}
use mathlib.Core.List.{reverse}
use bookworm.Records.Column.{ascending}
use bookworm.Database.Query.{Query, page_query}
use bookworm.Database.Paginator.{
  Paginator, done, failed, panicked, Run, ◌>>=◌, at_top, lower, load_books_after_end,
  load_books_before_start, settle_down, scroll_down, settle_up, scroll_up,
}

module _ {B M X : Type 0} (ask : Query B M → Option (List B)) (f : Paginator B M → X)
    (same : (p : Paginator B M) (books : List B) (top : ℕ)
      → f (record p { books = books; window_top = top }) ≡ f p) where
  abbrev pub Kept : Run B M → X → Type 0
  Kept r x = f r.0 ≡ x

  pub Kept-bind :
      (r : Run B M) (g : Paginator B M → Run B M) (x : X)
      → Kept r x
      → ((p : Paginator B M) → f p ≡ x → Kept (g p) x)
      → Kept (r >>= g) x
  Kept-bind (p, done) g x h k = k p h
  Kept-bind (p, failed) g x h k = h
  Kept-bind (p, panicked) g x h k = h

  pub Kept-if :
      (b : Bool) (r r' : Run B M) (x : X) → Kept r x → Kept r' x → Kept (if b then r else r') x
  Kept-if true r r' x h k = h
  Kept-if false r r' x h k = k

  Kept-answer_after :
      (p : Paginator B M) (o : Option (List B))
      → Kept
          (elim o [
            | none ↦ (p, failed)
            | some books ↦ (record p { books = p.books ++ books }, done)
          ])
          (f p)
  Kept-answer_after p none = refl
  Kept-answer_after p (some books) = same p (p.books ++ books) p.window_top

  pub Kept-after : (n : ℕ) (p : Paginator B M) → Kept (load_books_after_end ask n p) (f p)
  unfolding load_books_after_end
  Kept-after n p = Kept-if (n == 0) _ _ (f p) refl (Kept-answer_after p _)

  abbrev answer_before : Paginator B M → Option (List B) → Run B M
  answer_before p o = elim o [
    | none ↦ (p, failed)
    | some books ↦
        if is_empty books then (p, done) else (record p { books = reverse books ++ p.books }, done)
  ]

  Kept-answer_before : (p : Paginator B M) (o : Option (List B)) → Kept (answer_before p o) (f p)
  Kept-answer_before p none = refl
  Kept-answer_before p (some []) = refl
  Kept-answer_before p (some (b ∷ bs)) = same p (reverse (b ∷ bs) ++ p.books) p.window_top

  pub Kept-before : (n : ℕ) (p : Paginator B M) → Kept (load_books_before_start ask n p) (f p)
  unfolding load_books_before_start
  Kept-before n p =
      let o = ask (record {
        builder = page_query p.sorting_rules ascending n;
        book = first? p.books;
        match_rules = p.matching_rules;
      }) in
      Kept-if (n == 0) (p, done) (answer_before p o) (f p) refl (Kept-answer_before p o)

  Kept-settle_down : (p : Paginator B M) → Kept (settle_down ask p) (f p)
  unfolding settle_down
  Kept-settle_down p =
      Kept-if (ltb (length p.books) p.window_size) _ _ (f p)
        (Kept-bind (load_books_before_start ask (p.window_size - length p.books) p) (at_top 0) (f p)
          (Kept-before (p.window_size - length p.books) p) (λ q h. same q q.books 0 ∙ h))
        (same p p.books (length p.books - p.window_size))

  pub Kept-down : (n : ℕ) (p : Paginator B M) → Kept (scroll_down ask n p) (f p)
  unfolding scroll_down
  Kept-down n p =
      Kept-if (ltb (p.window_top + p.window_size + n) (length p.books)) _ _ (f p)
        (same p p.books (p.window_top + n))
        (Kept-bind (load_books_after_end ask (p.window_top + p.window_size + n - length p.books) p)
          (settle_down ask) (f p) (Kept-after (p.window_top + p.window_size + n - length p.books) p)
          (λ q h. Kept-settle_down q ∙ h))

  Kept-settle_up : (p : Paginator B M) → Kept (settle_up ask p) (f p)
  unfolding settle_up
  Kept-settle_up p = Kept-if (ltb (p.window_top + p.window_size) (length p.books)) _ _ (f p) refl (
      Kept-bind (load_books_after_end ask (p.window_top + p.window_size - length p.books) p) lower
        (f p) (Kept-after (p.window_top + p.window_size - length p.books) p)
        (λ q h. same q q.books _ ∙ h))

  pub Kept-up : (n : ℕ) (p : Paginator B M) → Kept (scroll_up ask n p) (f p)
  unfolding scroll_up
  Kept-up n p =
      Kept-bind _ (settle_up ask) (f p)
        (Kept-if (ltb p.window_top n) _ _ (f p)
          (Kept-bind (load_books_before_start ask (n - p.window_top) p) (at_top 0) (f p)
            (Kept-before (n - p.window_top) p) (λ q h. same q q.books 0 ∙ h))
          (same p p.books (p.window_top - n)))
        (λ q h. Kept-settle_up q ∙ h)
