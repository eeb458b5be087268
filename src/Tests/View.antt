-- ===== src/Tests/View.antt =====
-- Scopes, searches and jumps of a view at concrete inputs.
use bookworm.Base.{
  get_or, eq, Bool, ℕ, ◌≡◌, refl, Option, none, some, List, [], ◌∷◌, Text, codes, true, text_eq,
}
use bookworm.Records.Column.{title}
use bookworm.Records.Book.{Book}
use bookworm.Records.Series.{Floats}
use bookworm.Database.Query.{Rules, add_id}
use bookworm.Database.Selection.{Books, empty, matches_all}
use bookworm.Database.Search.{Search, default, exact_string, Matcher, is_match}
use bookworm.Database.Paginator.{Paginator, new}
use bookworm.Database.View.{BookView, active_cursor}
use bookworm.Database.View.Scopes.{push_scopes, flat, finds, push_scopes-matches_all}
use bookworm.Database.View.Conditions.{Condition}

abbrev compile : Text → Option ℕ
compile s = none

abbrev escape : Text → Text
escape s = s

abbrev dune : List Search
dune = record { mode = exact_string; column = title; search = codes "dune" } ∷ []

abbrev tales : List Search
tales = record { mode = default; column = title; search = codes "tales" } ∷ []

no_rules : Rules
no_rules = []

-- The root shows the last two books of three.
abbrev root : Paginator ℕ (Matcher ℕ)
root = record {
  books = 1 ∷ (2 ∷ []);
  window_size = 2;
  window_top = 0;
  sorting_rules = add_id no_rules;
  matching_rules = [];
  selected = empty;
}

abbrev shown : BookView ℕ (Matcher ℕ)
shown = record { scopes = []; root_cursor = root }

-- Every condition holds of every book.
abbrev always : Condition → ℕ → Bool
always c b = true

no_floats : Floats ℕ
no_floats = record {
  parse = λ s. none;
  show = λ n. [];
  partial_cmp = λ i j. none;
  is_nan = λ i. true;
}

abbrev dune_book : Book ℕ ℕ
dune_book = record {
  id = some 1;
  title = some (codes "dune");
  authors = none;
  series = none;
  description = none;
  variants = [];
  free_tags = codes "read" ∷ [];
  named_tags = [];
}

abbrev shelved : Books (Book ℕ ℕ) (Matcher ℕ)
shelved = record {
  id = λ b. get_or b.id 0;
  cmp_columns = λ r b c. eq;
  is_match = is_match (λ r t. true) text_eq no_floats;
}

abbrev no_scopes : BookView (Book ℕ ℕ) (Matcher ℕ)
no_scopes = record { scopes = []; root_cursor = new 2 [] [] }

push_scopes-matches_all_example :
    matches_all shelved
      (active_cursor (push_scopes compile escape (dune ∷ (tales ∷ [])) no_scopes)).matching_rules
      dune_book
    ≡ finds compile escape
        (λ r t. true)
        text_eq
        no_floats
        shelved
        (λ m b. refl)
        (flat (dune ∷ (tales ∷ [])))
        dune_book
push_scopes-matches_all_example =
    push_scopes-matches_all compile escape (λ r t. true) text_eq no_floats shelved (λ m b. refl)
      dune (tales ∷ []) no_scopes dune_book refl
