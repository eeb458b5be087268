-- ===== src/Database/View/Scopes.antt =====
-- The scopes of `BookView` (bookworm-database/src/bookview.rs): what the matchers of a new one pass.
use bookworm.Base.{
  ◌≡◌, refl, sym, ap, ◌∙◌, Bool, ◌&&◌, Option, none, some, List, [], ◌∷◌, ◌++◌, last?, get_or, Text,
  text_eq, arith,
}
use mathlib.Core.List.{append-nil, append_assoc}
use bookworm.Database.Selection.{Books, matches_all}
use bookworm.Records.Book.{Book}
use bookworm.Records.Series.{Floats}
use bookworm.Database.Search.{
  Search, Matcher, regex_matcher, exact_substring_matcher, exact_string_matcher, default_matcher,
  into_matcher, is_match, any_of,
}
use bookworm.Database.Search.Texts.{column_of, takes, texts, is_match-any_of}
use bookworm.Database.View.Searches.{all_by_mode, all-new_matchers}
use bookworm.Database.Paginator.{Paginator, new}
use bookworm.Database.View.{
  BookView, active_cursor, all_matchers, new_matchers, create_paginator, push_scope,
}

-- All searches that were pushed.
abbrev pub flat : List (List Search) → List Search
flat [] = []
flat (s ∷ ss) = s ++ flat ss

module _ {B R : Type 0} (compile : Text → Option R) (escape : Text → Text) where
  last?-snoc :
      (ps : List (Paginator B (Matcher R))) (p : Paginator B (Matcher R))
      → last? (ps ++ p ∷ []) ≡ some p
  last?-snoc [] p = refl
  last?-snoc (q ∷ []) p = refl
  last?-snoc (q ∷ (r ∷ ps)) p = last?-snoc (r ∷ ps) p

  all_matchers-snoc :
      (ps : List (Paginator B (Matcher R))) (p : Paginator B (Matcher R))
      → all_matchers (ps ++ p ∷ []) ≡ all_matchers ps ++ p.matching_rules
  unfolding all_matchers
  all_matchers-snoc [] p = append-nil p.matching_rules
  all_matchers-snoc (q ∷ ps) p =
      ap (λ l. q.matching_rules ++ l) (all_matchers-snoc ps p)
      ∙ sym (append_assoc q.matching_rules (all_matchers ps) p.matching_rules)

  -- Scopes are pushed one by one.
  abbrev pub push_scopes : List (List Search) → BookView B (Matcher R) → BookView B (Matcher R)
  push_scopes [] v = v
  push_scopes (s ∷ ss) v = push_scopes ss (push_scope compile escape s v)

  module _ (k : Books B (Matcher R)) where
    matches_all-append :
        (ms ns : List (Matcher R)) (b : B)
        → matches_all k (ms ++ ns) b ≡ (matches_all k ms b && matches_all k ns b)
    unfolding matches_all
    matches_all-append [] ns b = ground arith
    matches_all-append (m ∷ ms) ns b = ground (arith, matches_all-append ms ns b)

    pushed_matchers :
        (s : List Search) (v : BookView B (Matcher R)) (b : B)
        → matches_all k (all_matchers (push_scope compile escape s v).scopes) b ≡ (
            matches_all k (all_matchers v.scopes) b
            && matches_all k (new_matchers compile escape s) b)
    unfolding push_scope create_paginator new
    pushed_matchers s v b =
        let scope = create_paginator compile escape s v in
        ap (λ l. matches_all k l b) (all_matchers-snoc v.scopes scope)
        ∙ ground (
          arith,
          matches_all-append (all_matchers v.scopes) scope.matching_rules b,
          matches_all-append (all_matchers v.scopes) (new_matchers compile escape s) b,
        )

    active_matchers :
        (s : List Search) (v : BookView B (Matcher R)) (b : B)
        → matches_all k (active_cursor (push_scope compile escape s v)).matching_rules b ≡ (
            matches_all k (all_matchers v.scopes) b
            && matches_all k (new_matchers compile escape s) b)
    unfolding push_scope active_cursor create_paginator new
    active_matchers s v b =
        ap (λ o. matches_all k (get_or o v.root_cursor).matching_rules b)
          (last?-snoc v.scopes (create_paginator compile escape s v))
        ∙ matches_all-append (all_matchers v.scopes) (new_matchers compile escape s) b

    in_front :
        (o : Option (Matcher R)) (ms ns : List (Matcher R))
        → (elim o [ none ↦ ms ++ ns | some m ↦ m ∷ (ms ++ ns) ])
          ≡ (elim o [ none ↦ ms | some m ↦ m ∷ ms ]) ++ ns
    in_front none ms ns = refl
    in_front (some m) ms ns = refl

    new_matchers-append :
        (s s' : List Search)
        → new_matchers compile escape (s ++ s')
          ≡ new_matchers compile escape s ++ new_matchers compile escape s'
    unfolding new_matchers
    new_matchers-append [] s' = refl
    new_matchers-append (x ∷ s) s' =
        ap (λ l. elim (into_matcher compile escape x) [ none ↦ l | some m ↦ m ∷ l ])
          (new_matchers-append s s')
        ∙ in_front (into_matcher compile escape x) (new_matchers compile escape s)
            (new_matchers compile escape s')

    scopes_matchers :
        (s : List Search) (ss : List (List Search)) (v : BookView B (Matcher R)) (b : B)
        → matches_all k (active_cursor (push_scopes (s ∷ ss) v)).matching_rules b ≡ (
            matches_all k (all_matchers v.scopes) b
            && matches_all k (new_matchers compile escape (flat (s ∷ ss))) b)
    scopes_matchers s [] v b =
        active_matchers s v b
        ∙ ap
            (λ l.
              matches_all k (all_matchers v.scopes) b
              && matches_all k (new_matchers compile escape l) b)
            (sym (append-nil s))
    scopes_matchers s (s' ∷ ss) v b =
        scopes_matchers s' ss (push_scope compile escape s v) b
        ∙ ground (
          arith,
          pushed_matchers s v b,
          ap (λ l. matches_all k l b) (new_matchers-append s (flat (s' ∷ ss))),
          matches_all-append (new_matchers compile escape s)
              (new_matchers compile escape (flat (s' ∷ ss))) b,
        )

module _ {R F I : Type 0} (compile : Text → Option R) (escape : Text → Text)
    (find : R → Text → Bool) (best_match : Text → Text → Bool) (floats : Floats F)
    (k : Books (Book F I) (Matcher R))
    (same : (m : Matcher R) (b : Book F I)
      → k.is_match m b ≡ is_match find best_match floats m b) where
  -- Whether a book is what all searches look for: some text of the column is matched by the pattern, is
  -- the text, or is like the text. A pattern that does not compile asks for nothing.
  abbrev pub finds : List Search → Book F I → Bool
  finds searches b =
      all_by_mode compile escape (λ c r. any_of (find r) (texts floats c b))
        (λ c s. any_of (text_eq s) (texts floats c b))
        (λ c s. any_of (best_match s) (texts floats c b)) searches

  -- The matchers of the innermost of some scopes, pushed on a view without scopes, pass exactly the books
  -- that are what all searches of all of them look for, but for the searches that do not compile, which
  -- are left out. A search looks at the text of its column, empty where there is none, or at the free
  -- tags of a book and the empty text.
  pub push_scopes-matches_all :
      (s : List Search) (ss : List (List Search)) (v : BookView (Book F I) (Matcher R))
      (b : Book F I)
      → v.scopes ≡ []
      → matches_all k (active_cursor (push_scopes compile escape (s ∷ ss) v)).matching_rules b
        ≡ finds (flat (s ∷ ss)) b
  unfolding all_matchers matches_all
  push_scopes-matches_all s ss v b h =
      scopes_matchers compile escape k s ss v b
      ∙ ap
          (λ l.
            matches_all k (all_matchers l) b
            && matches_all k (new_matchers compile escape (flat (s ∷ ss))) b)
          h
      ∙ all-new_matchers compile escape (λ c r. any_of (find r) (texts floats c b))
          (λ c t. any_of (text_eq t) (texts floats c b))
          (λ c t. any_of (best_match t) (texts floats c b)) (λ m. k.is_match m b)
          (λ c r. matched (regex_matcher c r)) (λ c r. matched (exact_substring_matcher c r))
          (λ c t. matched (exact_string_matcher c t)) (λ c t. matched (default_matcher c t))
          (λ ms. matches_all k ms b) refl (λ m ms. refl) (flat (s ∷ ss))
    where
      matched :
          (m : Matcher R)
          → k.is_match m b ≡ any_of (takes find best_match m) (texts floats (column_of m) b)
      matched m = same m b ∙ is_match-any_of find best_match floats m b
