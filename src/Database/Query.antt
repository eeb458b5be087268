-- ===== src/Database/Query.antt =====
-- `QueryBuilder` of bookworm-database/src/paginator.rs: what a page of books is asked for. The text of
-- the query, which `join_cols` writes, and the answer are left to the database.
use bookworm.Base.{ℕ, Bool, true, false, Option, some, List, [], ◌∷◌, ◌++◌, if◌then◌else◌}
use bookworm.Records.Column.{ColumnIdentifier, id, ColumnOrder, ascending}

abbrev pub Rules : Type 0
Rules = List (ColumnIdentifier × ColumnOrder)

pub record QueryBuilder : Type 0 where
  pub order : ColumnOrder
  pub cmp_rules : Rules
  pub sort : Bool
  pub id_inclusive : Bool
  pub limit : Option ℕ

-- `matches!(col_id, ColumnIdentifier::ID)`, and whether a rule compares identifiers.
abbrev is_id : ColumnIdentifier → Bool
is_id id = true
is_id _ = false

unfoldable pub has_id : Rules → Bool
has_id [] = false
has_id ((c, d) ∷ rules) = if is_id c then true else has_id rules

-- `add_id`, and the method `cmp_rules`, which does the same.
unfoldable pub add_id : Rules → Rules
unfolding has_id
add_id rules = if has_id rules then rules else rules ++ (id, ascending) ∷ []

-- The query that a builder makes by `join_cols`, relative to a book.
pub record Query (B M : Type 0) : Type 0 where
  pub builder : QueryBuilder
  pub book : Option B
  pub match_rules : List M

-- `QueryBuilder::default().cmp_rules(rules).sort(true).order(order).limit(limit)`, and with
-- `include_id(true)`.
unfoldable pub page_query : Rules → ColumnOrder → ℕ → QueryBuilder
unfolding add_id
page_query rules order limit = record {
  order = order;
  cmp_rules = add_id rules;
  sort = true;
  id_inclusive = false;
  limit = some limit;
}

unfoldable pub include_id : QueryBuilder → QueryBuilder
include_id q = record q { id_inclusive = true }
