-- ===== src/Database/Paginator/Holding.antt =====
-- Which piece of the sorted list a `Paginator` (bookworm-database/src/paginator.rs) holds, and what of it
-- the window shows.
use bookworm.Base.{
  ℕ, ◌+◌, ◌-◌, ◌≤◌, min, ◌≡◌, refl, sym, ap, ◌∙◌, ◌⊎◌, inl, inr, true, Option, List, [], ◌∷◌, ◌++◌,
  length, take, drop, take_last, drop_last, length-append, length-take, length-drop,
  take-append-drop, take_past, take_all, drop-append_le, drop-append_add, take-append_le, leb,
  arith, Bool-cases,
}
use mathlib.Core.List.{append_assoc, append-nil}
use bookworm.Database.Query.{Rules, Query}
use bookworm.Database.Paginator.{Paginator, window}
use bookworm.Database.Paginator.Loading.{Holds}

take-min {ℓ} : {A : Type ℓ} (n : ℕ) (xs : List A) → take (min n (length xs)) xs ≡ take n xs
take-min n xs = elim (Bool-cases (leb n (length xs))) [
  | inl le ↦ ap (λ k. take k xs) (let e : min n (length xs) ≡ n = ground arith in e)
  | inr past ↦
      ap (λ k. take k xs) (let e : min n (length xs) ≡ length xs = ground arith in e)
      ∙ take_all xs
      ∙ sym (take_past n xs (ground arith))
]

pub nil_of_length {ℓ} : {A : Type ℓ} (xs : List A) → length xs ≡ 0 → xs ≡ []
nil_of_length [] e = refl
nil_of_length (x ∷ xs) e = absurd (omega arith)

module _ {B M : Type 0} (ask : Query B M → Option (List B)) (rules : Rules) (matches : List M)
    (all : List B) where
  abbrev pub H : Paginator B M → List B → List B → Type 0
  H = Holds ask rules matches all

  pub length_all :
      (p : Paginator B M) (pre post : List B)
      → H p pre post
      → length all ≡ length pre + (length p.books + length post)
  length_all p pre post h =
      ap length h.whole
      ∙ length-append pre (p.books ++ post)
      ∙ ap (λ n. length pre + n) (length-append p.books post)

  pub Holds_after :
      (p : Paginator B M) (pre post : List B)
      → H p pre post
      → (k : ℕ) → H (record p { books = p.books ++ take k post }) pre (drop k post)
  Holds_after p pre post h k = record {
    whole =
        h.whole
        ∙ ap (λ l. pre ++ l)
            (ap (λ l. p.books ++ l) (sym (take-append-drop k post))
              ∙ sym (append_assoc p.books (take k post) (drop k post)));
    anchored = λ e.
        h.anchored
          (nil_of_length p.books (omega (arith, ap length e, length-append p.books (take k post))));
    same_rules = h.same_rules;
    same_matches = h.same_matches;
  }

  pub Holds_before :
      (p : Paginator B M) (pre post : List B)
      → H p pre post
      → (j : ℕ) → H (record p { books = take_last j pre ++ p.books }) (drop_last j pre) post
  Holds_before p pre post h j = record {
    whole =
        let a = drop_last j pre in
        let b = take_last j pre in
        h.whole
        ∙ ap (λ l. l ++ (p.books ++ post)) (sym (take-append-drop (length pre - j) pre))
        ∙ append_assoc a b (p.books ++ post)
        ∙ ap (λ l. a ++ l) (sym (append_assoc b p.books post));
    anchored = λ e.
        let empty = h.anchored (
          nil_of_length p.books
            (omega (arith, ap length e, length-append (take_last j pre) p.books))) in
        nil_of_length (drop_last j pre)
          (omega (arith, length-take (length pre - j) pre, ap length empty));
    same_rules = h.same_rules;
    same_matches = h.same_matches;
  }

  pub Holds_top :
      (p : Paginator B M) (pre post : List B)
      → H p pre post
      → (t : ℕ) → H (record p { window_top = t }) pre post
  Holds_top p pre post h t = record {
    whole = h.whole;
    anchored = h.anchored;
    same_rules = h.same_rules;
    same_matches = h.same_matches;
  }

  -- The window stands `offset` books below the start, and it is full unless it holds all books.
  pub record ShowsAt (p : Paginator B M) (offset : ℕ) : Type 0 where
    pub pre : List B
    pub post : List B
    pub held : Holds ask rules matches all p pre post
    pub place : offset ≡ length pre + p.window_top
    pub full :
        (p.window_top + p.window_size ≤ length p.books)
        ⊎ ((pre ≡ []) × (post ≡ []) × (p.window_top ≡ 0))

  -- The furthest offset at which the window is full, or 0.
  abbrev pub last_offset : ℕ → ℕ
  last_offset size = length all - size

  shifted :
      (p : Paginator B M) (offset : ℕ) (pre post : List B)
      → H p pre post
      → offset ≡ length pre + p.window_top
      → drop offset all ≡ drop p.window_top (p.books ++ post)
  shifted p offset pre post h e =
      ap (λ n. drop n all) e
      ∙ ap (drop (length pre + p.window_top)) h.whole
      ∙ drop-append_add p.window_top pre (p.books ++ post)

  -- What is on screen: the books from the offset on, as many as the window has lines.
  pub window-ShowsAt :
      (p : Paginator B M) (offset : ℕ)
      → ShowsAt p offset
      → window p ≡ take p.window_size (drop offset all)
  unfolding window
  window-ShowsAt p offset s = elim s.full [
    | inl f ↦
        let inside = drop-append_le p.window_top p.books s.post (omega arith) in
        let size : min (p.window_top + p.window_size) (length p.books) - p.window_top
            ≡ p.window_size =
          omega arith in
        let test : leb p.window_top (min (p.window_top + p.window_size) (length p.books)) ≡ true =
          ground arith in
        rw (test, size)
          (sym (
              take-append_le p.window_size (drop p.window_top p.books) s.post
                (omega (arith, length-drop p.window_top p.books)))
            ∙ ap (take p.window_size)
                (sym inside ∙ sym (shifted p offset s.pre s.post s.held s.place)))
    | inr (no_pre, no_post, top) ↦
        let size : min (p.window_top + p.window_size) (length p.books) - p.window_top
            ≡ min p.window_size (length p.books) =
          omega arith in
        let test : leb p.window_top (min (p.window_top + p.window_size) (length p.books)) ≡ true =
          ground arith in
        let held : drop offset all ≡ p.books =
          shifted p offset s.pre s.post s.held s.place
          ∙ ap (λ n. drop n (p.books ++ s.post)) top
          ∙ ap (λ l. p.books ++ l) no_post
          ∙ append-nil p.books in
        rw (test, size)
          (ap (λ n. take (min p.window_size (length p.books)) (drop n p.books)) top
            ∙ take-min p.window_size p.books
            ∙ sym (ap (take p.window_size) held))
  ]
