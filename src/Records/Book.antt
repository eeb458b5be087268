-- ===== src/Records/Book.antt =====
-- bookworm-records/src/book.rs: the metadata of a book, read and written by columns. The index of a
-- series and an ISBN are of types of other crates, `F` and `I`.
pub mod Columns
pub mod Frames
pub mod Tags
pub mod Merge
use bookworm.Base.{
  ℕ, zero, suc, ◌+◌, ◌/◌, ◌%◌, Bool, true, false, Option, none, some, List, [], ◌∷◌, ◌++◌, Text,
  codes, ◌==◌, ltb, if◌then◌else◌, get_or, is_empty, text_key, insert_key, lookup_key, remove_key,
  has_elem, insert_elem, remove_elem, Ordering, lt, eq, gt, compare, reverse_order, option_order,
  text_order,
}
use bookworm.Records.Column.{
  ColumnIdentifier, title, author, series, id, variants, description, tags, exact_tag, named_tag,
  multi_map, multi_map_exact, ColumnOrder, ascending, descending,
}
use bookworm.Records.Series.{Series, Floats, from_str, to_string, cmp_series}
use bookworm.Records.Variant.{BookVariant}

pub data RecordError : Type 0 where
  immutable_column inextensible_column : RecordError

pub data Edit : Type 0 where
  delete : Edit
  replace append : Text → Edit

pub record Book (F I : Type 0) : Type 0 where
  pub id : Option ℕ
  pub title : Option Text
  pub authors : Option (List Text)
  pub series : Option (Series F)
  pub description : Option Text
  pub variants : List (BookVariant I)
  pub free_tags : List Text
  pub named_tags : List (Text × Text)

-- The outcome of an edit. An error is returned before anything is changed; `panic` is
-- `unimplemented!`.
pub data Outcome {ℓ} (A : Type ℓ) : Type ℓ where
  ok : A → Outcome A
  err : RecordError → Outcome A
  panic : Outcome A

infixl 5 ◌>>=◌
abbrev pub ◌>>=◌ {ℓ κ} : {A : Type ℓ} {B : Type κ} → Outcome A → (A → Outcome B) → Outcome B
ok a >>= f = f a
err e >>= f = err e
panic >>= f = panic

-- `u64::to_string`; the fuel is more than the number has digits.
unfoldable pub digits : ℕ → ℕ → Text → Text
digits zero n s = s
digits (suc fuel) n s =
    let rest = digits fuel (n / 10) ((b'0' + n % 10) ∷ s) in
    if ltb n 10 then (b'0' + n) ∷ s else rest

unfoldable pub show_id : ℕ → Text
unfolding digits
show_id n = digits (suc n) n []

-- `join(", ")`
unfoldable pub join_authors : List Text → Text
join_authors [] = []
join_authors (s ∷ []) = s
join_authors (s ∷ (t ∷ ss)) = s ++ b',' ∷ 0x20 ∷ join_authors (t ∷ ss)

-- `Some(…?)` and `get_or_insert` of a field that is appended to.
abbrev pub option_map : {A B : Type 0} → (A → B) → Option A → Option B
option_map f none = none
option_map f (some a) = some (f a)

abbrev pub extended_text : Option Text → Text → Text
extended_text none s = s
extended_text (some t) s = t ++ s

abbrev pub extended_list : Option (List Text) → Text → List Text
extended_list none s = s ∷ []
extended_list (some ts) s = ts ++ s ∷ []

-- `if self.f.is_none() { self.f = other.f }`
abbrev pub or_else {ℓ} : {A : Type ℓ} → Option A → Option A → Option A
or_else none o = o
or_else (some a) o = some a

-- `take` of a field of the variant that the book lacks leaves nothing there.
abbrev pub taken {ℓ} : {A : Type ℓ} → Option A → Option A → Option A
taken none o = none
taken (some a) o = o

-- `HashMap::extend`
unfoldable pub extend_map : List (Text × Text) → List (Text × Text) → List (Text × Text)
unfolding insert_key
extend_map m [] = m
extend_map m ((k, v) ∷ new) = extend_map (insert_key k v m) new

module _ {F I : Type 0} where
  unfoldable pub placeholder : Book F I
  placeholder = record {
    id = none;
    title = none;
    authors = none;
    series = none;
    description = none;
    variants = [];
    free_tags = [];
    named_tags = [];
  }

  unfoldable pub from_variant : ℕ → BookVariant I → Book F I
  from_variant n v = record {
    id = some n;
    title = v.local_title;
    authors = v.additional_authors;
    series = none;
    description = v.description;
    variants =
        record v {
          id = some 0;
          local_title = none;
          additional_authors = none;
          description = none;
          named_tags = [];
          free_tags = [];
        }
        ∷ [];
    free_tags = v.free_tags;
    named_tags = v.named_tags;
  }

  unfoldable pub push_variant : BookVariant I → Book F I → Book F I
  push_variant v b = record b {
    title = or_else b.title v.local_title;
    authors = or_else b.authors v.additional_authors;
    description = or_else b.description v.description;
    named_tags = if is_empty b.named_tags then v.named_tags else b.named_tags;
    variants =
        b.variants
        ++ record v {
          local_title = taken b.title v.local_title;
          additional_authors = taken b.authors v.additional_authors;
          description = taken b.description v.description;
          named_tags = if is_empty b.named_tags then [] else v.named_tags;
        }
          ∷ [];
  }

  unfoldable pub merge_mut : Book F I → Book F I → Book F I
  unfolding extend_map
  merge_mut b other = record b {
    title = or_else b.title other.title;
    authors = or_else b.authors other.authors;
    series = or_else b.series other.series;
    variants = b.variants ++ other.variants;
    named_tags = extend_map b.named_tags other.named_tags;
  }

  unfoldable pub delete_column : ColumnIdentifier → Book F I → Outcome (Book F I)
  delete_column title b = ok (record b { title = none })
  delete_column description b = ok (record b { description = none })
  delete_column author b = ok (record b { authors = none })
  delete_column id b = err immutable_column
  delete_column variants b = err immutable_column
  delete_column series b = ok (record b { series = none })
  delete_column (named_tag k) b = ok (record b { named_tags = remove_key k b.named_tags })
  delete_column tags b = ok (record b { free_tags = [] })
  delete_column (exact_tag t) b = ok (record b { free_tags = remove_elem t b.free_tags })
  delete_column (multi_map _) b = panic
  delete_column (multi_map_exact _ _) b = panic

  unfoldable pub extend_column : ColumnIdentifier → Text → Book F I → Outcome (Book F I)
  extend_column title s b = ok (record b { title = some (extended_text b.title s) })
  extend_column description s b =
      ok (record b { description = some (extended_text b.description s) })
  extend_column author s b = ok (record b { authors = some (extended_list b.authors s) })
  extend_column id s b = err immutable_column
  extend_column variants s b = err immutable_column
  extend_column series s b = err inextensible_column
  extend_column (named_tag k) s b = ok (record b {
    named_tags = insert_key k (extended_text (lookup_key k b.named_tags) s) b.named_tags;
  })
  extend_column tags s b = ok (record b { free_tags = insert_elem s b.free_tags })
  extend_column (exact_tag t) s b = ok (record b {
    free_tags =
        if has_elem t b.free_tags
        then insert_elem (t ++ s) (remove_elem t b.free_tags)
        else insert_elem s b.free_tags;
  })
  extend_column (multi_map _) s b = panic
  extend_column (multi_map_exact _ _) s b = panic

module _ {F I : Type 0} (floats : Floats F) where
  unfoldable pub get_column : ColumnIdentifier → Book F I → Option Text
  get_column id b = option_map show_id b.id
  get_column title b = b.title
  get_column author b = option_map join_authors b.authors
  get_column series b = option_map (to_string floats) b.series
  get_column description b = b.description
  get_column (named_tag k) b = lookup_key k b.named_tags
  get_column _ b = none

  unfoldable pub set_column : ColumnIdentifier → Text → Book F I → Outcome (Book F I)
  set_column title s b = ok (record b { title = some s })
  set_column description s b = ok (record b { description = some s })
  set_column author s b = ok (record b { authors = some (s ∷ []) })
  set_column id s b = err immutable_column
  set_column variants s b = err immutable_column
  set_column series s b = ok (record b { series = some (from_str floats s) })
  set_column (named_tag k) s b = ok (record b { named_tags = insert_key k s b.named_tags })
  set_column tags s b = ok (record b { free_tags = insert_elem s b.free_tags })
  set_column (exact_tag t) s b =
      ok (record b { free_tags = insert_elem s (remove_elem t b.free_tags) })
  set_column (multi_map _) s b = panic
  set_column (multi_map_exact _ _) s b = panic

  unfoldable pub edit_column : ColumnIdentifier → Edit → Book F I → Outcome (Book F I)
  unfolding set_column extend_column delete_column
  edit_column c delete b = delete_column c b
  edit_column c (replace s) b = set_column c s b
  edit_column c (append s) b = extend_column c s b
