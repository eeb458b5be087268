-- ===== src/App/Columns.antt =====
-- `Columns` of bookworm-app/src/columns.rs and `App::modify_columns` of bookworm-app/src/app.rs.
-- `UniCase` is a parameter: its names `K`, their equality `same`, and `unicase` from a text.
pub mod Distinct
use bookworm.Base.{
  Bool, true, false, not, Option, none, some, List, [], ◌∷◌, ◌++◌, map, Text, if◌then◌else◌,
}
use bookworm.App.Command.{ModifyColumn, add_column, remove_column}

module _ {K : Type 0} (same : K → K → Bool) where
  -- `selected_cols.contains(&column)`
  unfoldable pub contains : K → List K → Bool
  contains column [] = false
  contains column (x ∷ cols) = if same x column then true else contains column cols

  -- `retain(|x| x != column)`
  unfoldable pub without : K → List K → List K
  without column [] = []
  without column (x ∷ cols) =
      let rest = without column cols in if same x column then rest else x ∷ rest

  unfoldable pub insert_column : K → List K → List K
  unfolding contains
  insert_column column cols = if contains column cols then cols else cols ++ column ∷ []

  -- The arm of `Add`: a view that fails ends the loop, with the flag false.
  abbrev pub answered : Option Bool → (List K → List K × Bool) → K → List K → List K × Bool
  answered none rest column cols = (cols, false)
  answered (some true) rest column cols = rest (insert_column column cols)
  answered (some false) rest column cols = rest cols

  -- `modify_columns`; `has_column` asks the view.
  module _ (unicase : Text → K) (has_column : K → Option Bool) where
    unfoldable pub modify_columns : List ModifyColumn → List K → List K × Bool
    modify_columns [] cols = (cols, true)
    modify_columns (add_column s ∷ changes) cols =
        answered (has_column (unicase s)) (modify_columns changes) (unicase s) cols
    modify_columns (remove_column s ∷ changes) cols =
        modify_columns changes (without (unicase s) cols)
