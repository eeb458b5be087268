-- ===== src/Database/View/Conditions.antt =====
-- What the searches and the scopes of `BookView` (bookworm-database/src/bookview.rs) ask of the books in a
-- query, said of the searches and not of their matchers.
use bookworm.Base.{
  ◌≡◌, refl, ap, ◌∙◌, Bool, true, false, ◌&&◌, Option, none, some, List, [], ◌∷◌, ◌++◌, Text, codes,
  arith, if◌then◌else◌,
}
use bookworm.Records.Column.{ColumnIdentifier}
use bookworm.Database.Search.{
  Search, Matcher, sql_query, all_sql, regex_matcher, exact_substring_matcher, exact_string_matcher,
  default_matcher,
}
use bookworm.Database.Selection.{is_some}
use bookworm.Database.Paginator.{Paginator}
use bookworm.Database.View.Searches.{all_by_mode, all-new_matchers}
use bookworm.Database.View.{all_matchers, new_matchers}

-- The elements that pass a test.
abbrev pub kept : {B : Type 0} → (B → Bool) → List B → List B
kept test [] = []
kept test (b ∷ bs) = if test b then b ∷ kept test bs else kept test bs

pub kept-ext :
    {B : Type 0} (f g : B → Bool) (bs : List B) → ((b : B) → f b ≡ g b) → kept f bs ≡ kept g bs
kept-ext f g [] h = refl
kept-ext f g (b ∷ bs) h = rw (h b, kept-ext f g bs h) refl

abbrev pub Condition : Type 0
Condition = ColumnIdentifier × Text × Text

-- A matcher without a condition cannot be asked for.
abbrev meets : {B : Type 0} → (Condition → B → Bool) → Option Condition → B → Bool
meets holds none b = false
meets holds (some c) b = holds c b

module _ {B R : Type 0} (holds : Condition → B → Bool) where
  abbrev pub satisfies : List (Matcher R) → B → Bool
  satisfies [] b = true
  satisfies (m ∷ ms) b = meets holds (sql_query m) b && satisfies ms b

  abbrev pub scopes_satisfied : List (Paginator B (Matcher R)) → B → Bool
  scopes_satisfied [] b = true
  scopes_satisfied (p ∷ ps) b = satisfies p.matching_rules b && scopes_satisfied ps b

abbrev pub scopes_asked : {B R : Type 0} → List (Paginator B (Matcher R)) → Bool
scopes_asked [] = true
scopes_asked (p ∷ ps) = all_sql p.matching_rules && scopes_asked ps

module _ {R : Type 0} where
  abbrev has_sql : Matcher R → Bool
  has_sql m = is_some (sql_query m)

  all_sql-cons :
      (m : Matcher R) (ms : List (Matcher R)) → all_sql (m ∷ ms) ≡ (has_sql m && all_sql ms)
  unfolding all_sql sql_query
  all_sql-cons (regex_matcher c r) ms = refl
  all_sql-cons (exact_substring_matcher c r) ms = refl
  all_sql-cons (exact_string_matcher c s) ms = refl
  all_sql-cons (default_matcher c s) ms = refl

  all_sql-append : (ms ns : List (Matcher R)) → all_sql (ms ++ ns) ≡ (all_sql ms && all_sql ns)
  unfolding all_sql
  all_sql-append [] ns = ground arith
  all_sql-append (m ∷ ms) ns =
      all_sql-cons m (ms ++ ns)
      ∙ ap (λ c. has_sql m && c) (all_sql-append ms ns)
      ∙ ground (arith, all_sql-cons m ms)

module _ {R : Type 0} (compile : Text → Option R) (escape : Text → Text) where
  -- Whether all searches can be conditions of a query.
  abbrev pub all_asked : List Search → Bool
  all_asked = all_by_mode compile escape (λ c r. false) (λ c s. true) (λ c s. true)

  all_sql-new_matchers :
      (searches : List Search) → all_sql (new_matchers compile escape searches) ≡ all_asked searches
  unfolding all_sql sql_query
  all_sql-new_matchers =
      all-new_matchers compile escape (λ c r. false) (λ c s. true) (λ c s. true) has_sql
        (λ c r. refl) (λ c r. refl) (λ c s. refl) (λ c s. refl) all_sql refl all_sql-cons

module _ {B R : Type 0} (compile : Text → Option R) (escape : Text → Text) where
  -- Whether a book satisfies the conditions of searches; a pattern has no condition that can be asked.
  abbrev pub all_sought : (Condition → B → Bool) → List Search → B → Bool
  all_sought holds searches b =
      all_by_mode compile escape (λ c r. false) (λ c s. holds (c, codes "= ?", s) b)
        (λ c s. holds (c, codes "LIKE '%' || ? || '%'", s) b) searches

  abbrev pub wanted :
      (Condition → B → Bool) → List (Paginator B (Matcher R)) → List Search → B → Bool
  wanted holds ps searches b = scopes_satisfied holds ps b && all_sought holds searches b

  abbrev pub asks : List (Paginator B (Matcher R)) → List Search → Bool
  asks ps searches = scopes_asked ps && all_asked compile escape searches

  satisfies-append :
      (holds : Condition → B → Bool) (ms ns : List (Matcher R)) (b : B)
      → satisfies holds (ms ++ ns) b ≡ (satisfies holds ms b && satisfies holds ns b)
  satisfies-append holds [] ns b = ground arith
  satisfies-append holds (m ∷ ms) ns b = ground (arith, satisfies-append holds ms ns b)

  satisfies-all_matchers :
      (holds : Condition → B → Bool) (ps : List (Paginator B (Matcher R))) (b : B)
      → satisfies holds (all_matchers ps) b ≡ scopes_satisfied holds ps b
  unfolding all_matchers
  satisfies-all_matchers holds [] b = refl
  satisfies-all_matchers holds (p ∷ ps) b =
      satisfies-append holds p.matching_rules (all_matchers ps) b
      ∙ ap (λ c. satisfies holds p.matching_rules b && c) (satisfies-all_matchers holds ps b)

  satisfies-new_matchers :
      (holds : Condition → B → Bool) (searches : List Search) (b : B)
      → satisfies holds (new_matchers compile escape searches) b ≡ all_sought holds searches b
  unfolding sql_query
  satisfies-new_matchers holds searches b =
      all-new_matchers compile escape (λ c r. false) (λ c s. holds (c, codes "= ?", s) b)
        (λ c s. holds (c, codes "LIKE '%' || ? || '%'", s) b) (λ m. meets holds (sql_query m) b)
        (λ c r. refl) (λ c r. refl) (λ c s. refl) (λ c s. refl) (λ ms. satisfies holds ms b) refl
        (λ m ms. refl) searches

  pub wanted_lem :
      (holds : Condition → B → Bool) (ps : List (Paginator B (Matcher R))) (searches : List Search)
      (b : B)
      → satisfies holds (all_matchers ps ++ new_matchers compile escape searches) b
        ≡ wanted holds ps searches b
  wanted_lem holds ps searches b = ground (
    arith,
    satisfies-append holds (all_matchers ps) (new_matchers compile escape searches) b,
    satisfies-all_matchers holds ps b,
    satisfies-new_matchers holds searches b,
  )

  all_sql-all_matchers :
      (ps : List (Paginator B (Matcher R))) → all_sql (all_matchers ps) ≡ scopes_asked ps
  unfolding all_matchers all_sql
  all_sql-all_matchers [] = refl
  all_sql-all_matchers (p ∷ ps) =
      all_sql-append p.matching_rules (all_matchers ps)
      ∙ ap (λ c. all_sql p.matching_rules && c) (all_sql-all_matchers ps)

  pub asks_lem :
      (ps : List (Paginator B (Matcher R))) (searches : List Search)
      → all_sql (all_matchers ps ++ new_matchers compile escape searches) ≡ asks ps searches
  asks_lem ps searches = ground (
    arith,
    all_sql-append (all_matchers ps) (new_matchers compile escape searches),
    all_sql-all_matchers ps,
    all_sql-new_matchers compile escape searches,
  )
