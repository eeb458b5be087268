-- ===== src/Database/View/Searches.antt =====
-- What holds of all matchers that `create_paginator` of `BookView` (bookworm-database/src/bookview.rs) makes of
-- searches, said of the searches.
use bookworm.Base.{◌≡◌, refl, ap, ◌∙◌, Bool, true, ◌&&◌, Option, none, some, List, [], ◌∷◌, Text}
use bookworm.Records.Column.{ColumnIdentifier}
use bookworm.Records.Book.{option_map}
use bookworm.Database.Search.{
  Search, SearchMode, regex, exact_substring, default, exact_string, Matcher, regex_matcher,
  exact_substring_matcher, exact_string_matcher, default_matcher, into_matcher,
}
use bookworm.Database.View.{new_matchers}

abbrev pub all_of : (Search → Bool) → List Search → Bool
all_of test [] = true
all_of test (s ∷ searches) = test s && all_of test searches

abbrev judged : {R : Type 0} → (Matcher R → Bool) → Option (Matcher R) → Bool
judged test none = true
judged test (some m) = test m

module _ {R : Type 0} (compile : Text → Option R) (escape : Text → Text) where
  -- A test of a search by its mode: of the pattern of a regular expression or an exact substring, which
  -- passes if it does not compile, and of the text of the other two.
  module _ (on_pattern : ColumnIdentifier → R → Bool)
      (on_exact on_default : ColumnIdentifier → Text → Bool) where
    abbrev pub by_mode : SearchMode → ColumnIdentifier → Text → Bool
    by_mode exact_string c s = on_exact c s
    by_mode default c s = on_default c s
    by_mode regex c s = elim (compile s) [ none ↦ true | some r ↦ on_pattern c r ]
    by_mode exact_substring c s = elim (compile (escape s)) [
      | none ↦ true
      | some r ↦ on_pattern c r
    ]

    abbrev pub all_by_mode : List Search → Bool
    all_by_mode = all_of (λ s. by_mode s.mode s.column s.search)

    module _ (test : Matcher R → Bool)
        (regexes : (c : ColumnIdentifier) (r : R) → test (regex_matcher c r) ≡ on_pattern c r)
        (substrings : (c : ColumnIdentifier) (r : R)
          → test (exact_substring_matcher c r) ≡ on_pattern c r)
        (exacts : (c : ColumnIdentifier) (s : Text)
          → test (exact_string_matcher c s) ≡ on_exact c s)
        (defaults : (c : ColumnIdentifier) (s : Text)
          → test (default_matcher c s) ≡ on_default c s) where
      judged_pattern :
          (f : R → Matcher R) (c : ColumnIdentifier)
          → ((r : R) → test (f r) ≡ on_pattern c r)
          → (o : Option R)
          → judged test (option_map f o) ≡ elim o [ none ↦ true | some r ↦ on_pattern c r ]
      judged_pattern f c h none = refl
      judged_pattern f c h (some r) = h r

      judged_mode :
          (m : SearchMode) (c : ColumnIdentifier) (s : Text)
          → judged test (into_matcher compile escape (record { mode = m; column = c; search = s }))
            ≡ by_mode m c s
      unfolding into_matcher
      judged_mode exact_string c s = exacts c s
      judged_mode default c s = defaults c s
      judged_mode regex c s = judged_pattern (regex_matcher c) c (regexes c) (compile s)
      judged_mode exact_substring c s =
          judged_pattern (exact_substring_matcher c) c (substrings c) (compile (escape s))

      module _ (whole : List (Matcher R) → Bool) (none_left : whole [] ≡ true)
          (one_more : (m : Matcher R) (ms : List (Matcher R))
            → whole (m ∷ ms) ≡ (test m && whole ms)) where
        added :
            (o : Option (Matcher R)) (ms : List (Matcher R))
            → whole (elim o [ none ↦ ms | some m ↦ m ∷ ms ]) ≡ (judged test o && whole ms)
        added none ms = refl
        added (some m) ms = one_more m ms

        -- A test of all matchers that are made is a test of all searches by their mode.
        pub all-new_matchers :
            (searches : List Search)
            → whole (new_matchers compile escape searches) ≡ all_by_mode searches
        unfolding new_matchers
        all-new_matchers [] = none_left
        all-new_matchers (s ∷ searches) =
            added (into_matcher compile escape s) (new_matchers compile escape searches)
            ∙ ap (λ c. c && whole (new_matchers compile escape searches))
                (judged_mode s.mode s.column s.search)
            ∙ ap (λ c. by_mode s.mode s.column s.search && c) (all-new_matchers searches)
