-- ===== src/App/Command.antt =====
-- The data of bookworm-app/src/parser.rs: commands, their arguments, and the errors of parsing,
-- with the searches of bookworm-database/src/search.rs.
use bookworm.Base.{◌≡◌, refl, ℕ, Bool, true, false, List, Text}
pub use bookworm.Database.Search.{SearchMode, regex, exact_substring, default, exact_string, Search}
use bookworm.Records.Column.{ColumnIdentifier, ColumnOrder}
use bookworm.Input.Edit.{Edit}

pub data CommandError : Type 0 where
  unknown_command insufficient_arguments unknown_flag : CommandError
  unexpected_arguments conflicting_arguments : CommandError

-- The result of parsing. `panic` is an `expect` or a `debug_assert!` that fails.
pub data Result {ℓ} (A : Type ℓ) : Type ℓ where
  ok : A → Result A
  err : CommandError → Result A
  panic : Result A

infixl 5 ◌>>=◌
abbrev pub ◌>>=◌ {ℓ κ} : {A : Type ℓ} {B : Type κ} → Result A → (A → Result B) → Result B
ok a >>= f = f a
err e >>= f = err e
panic >>= f = panic

-- A result that is no panic.
abbrev pub IsSafe {ℓ} : {A : Type ℓ} → Result A → Type 0
IsSafe (ok a) = Unit
IsSafe (err e) = Unit
IsSafe panic = ⊥

pub IsSafe-bind {ℓ κ} :
    {A : Type ℓ} {B : Type κ} (m : Result A) (f : A → Result B)
    → IsSafe m
    → ((a : A) → m ≡ ok a → IsSafe (f a))
    → IsSafe (m >>= f)
IsSafe-bind (ok a) f h k = k a refl
IsSafe-bind (err e) f h k = tt
IsSafe-bind panic f h k = h

pub data BookIndex : Type 0 where
  selected : BookIndex
  by_id : ℕ → BookIndex

pub data Source : Type 0 where
  file : Text → Source
  dir : Text → ℕ → Source
  glob : Text → Source

pub data ModifyColumn : Type 0 where
  remove_column add_column : Text → ModifyColumn

pub data Target : Type 0 where
  default_app file_manager : Target

pub data Command : Type 0 where
  delete_selected delete_all try_merge_all_books quit write write_and_quit general_help : Command
  delete_matching filter_matches jump_to : List Search → Command
  edit_book : BookIndex → List (ColumnIdentifier × Edit) → Command
  add_books update_books : List Source → Command
  modify_columns : List ModifyColumn → Command
  sort_columns : List (ColumnIdentifier × ColumnOrder) → Command
  open_book_in : BookIndex → ℕ → Target → Command
  help : Text → Command

-- `requires_ui`
unfoldable pub requires_ui : Command → Bool
requires_ui (edit_book selected _) = true
requires_ui (edit_book (by_id _) _) = false
requires_ui (open_book_in selected _ _) = true
requires_ui (open_book_in (by_id _) _ _) = false
requires_ui delete_selected = true
requires_ui (modify_columns _) = true
requires_ui (sort_columns _) = true
requires_ui (filter_matches _) = true
requires_ui _ = false
