-- ===== src/Records/Book/Columns.antt =====
-- What `set_column` and `edit_column` of bookworm-records/src/book.rs do to the columns that
-- `get_column` reads.
use bookworm.Base.{
  ◌≡◌, ◌≢◌, refl, Option, none, some, List, [], ◌∷◌, Text, text_key, text_eq_refl, insert_key,
  lookup_key, remove_key, lookup_key-insert_key, lookup_key-remove_key,
}
use bookworm.Records.Column.{
  ColumnIdentifier, title, author, series, id, variants, description, tags, exact_tag, named_tag,
  multi_map, multi_map_exact,
}
use bookworm.Records.Series.{Floats, from_str, to_string}
use bookworm.Records.Book.{
  RecordError, Edit, delete, replace, append, Book, Outcome, ok, err, panic, get_column, set_column,
  extend_column, delete_column, edit_column, immutable_column, inextensible_column, join_authors,
  extended_text, extended_list,
}
use bookworm.Records.Book.Frames.{
  title_frame, description_frame, authors_frame, series_frame, tags_frame, insert_frame,
  remove_frame,
}

-- Which columns an edit refuses, and with which error.
abbrev pub refusal : ColumnIdentifier → Edit → Option RecordError
refusal id e = some immutable_column
refusal variants e = some immutable_column
refusal series (append s) = some inextensible_column
refusal c e = none

inserted : (k v : Text) (m : List (Text × Text)) → lookup_key k (insert_key k v m) ≡ some v
inserted k v m = rw (lookup_key-insert_key k k v m, text_eq_refl k) refl

removed : (k : Text) (m : List (Text × Text)) → lookup_key k (remove_key k m) ≡ none
removed k m = rw (lookup_key-remove_key k k m, text_eq_refl k) refl

module _ {F I : Type 0} (floats : Floats F) where
  -- What is read from a column in which a text was set.
  abbrev pub read_back : ColumnIdentifier → Text → Book F I → Option Text
  read_back series s b = some (to_string floats (from_str floats s))
  read_back tags s b = none
  read_back (exact_tag t) s b = none
  read_back c s b = some s

  -- The column after an edit of it that succeeds.
  abbrev pub edited : ColumnIdentifier → Edit → Book F I → Option Text
  edited tags e b = none
  edited (exact_tag t) e b = none
  edited c delete b = none
  edited c (replace s) b = read_back c s b
  edited author (append s) b = some (join_authors (extended_list b.authors s))
  edited c (append s) b = some (extended_text (get_column floats c b) s)

  -- An edit of a column that is not refused changes what is read from it: it leaves nothing, the
  -- text, or the text at the end of what was there, and no other column that is read changes. Of
  -- the columns of free tags nothing is read.
  abbrev pub Edits : ColumnIdentifier → Edit → Book F I → Outcome (Book F I) → Type 0
  Edits (multi_map _) e b (ok b') = ⊥
  Edits (multi_map_exact _ _) e b (ok b') = ⊥
  Edits (multi_map _) e b (err x) = ⊥
  Edits (multi_map_exact _ _) e b (err x) = ⊥
  Edits c e b (ok b') =
      (refusal c e ≡ none)
      × (get_column floats c b' ≡ edited c e b)
      × ((d : ColumnIdentifier) → d ≢ c → get_column floats d b' ≡ get_column floats d b)
  Edits c e b (err x) = refusal c e ≡ some x
  Edits (multi_map _) e b panic = Unit
  Edits (multi_map_exact _ _) e b panic = Unit
  Edits c e b panic = ⊥

  pub edit_column-Edits :
      (c : ColumnIdentifier) (e : Edit) (b : Book F I) → Edits c e b (edit_column floats c e b)
  unfolding edit_column set_column extend_column delete_column get_column join_authors
  edit_column-Edits title delete b = (refl, refl, title_frame floats none b)
  edit_column-Edits title (replace s) b = (refl, refl, title_frame floats (some s) b)
  edit_column-Edits title (append s) b =
      (refl, refl, title_frame floats (some (extended_text b.title s)) b)
  edit_column-Edits description delete b = (refl, refl, description_frame floats none b)
  edit_column-Edits description (replace s) b = (refl, refl, description_frame floats (some s) b)
  edit_column-Edits description (append s) b =
      (refl, refl, description_frame floats (some (extended_text b.description s)) b)
  edit_column-Edits author delete b = (refl, refl, authors_frame floats none b)
  edit_column-Edits author (replace s) b = (refl, refl, authors_frame floats (some (s ∷ [])) b)
  edit_column-Edits author (append s) b =
      (refl, refl, authors_frame floats (some (extended_list b.authors s)) b)
  edit_column-Edits series delete b = (refl, refl, series_frame floats none b)
  edit_column-Edits series (replace s) b =
      (refl, refl, series_frame floats (some (from_str floats s)) b)
  edit_column-Edits series (append s) b = refl
  edit_column-Edits id delete b = refl
  edit_column-Edits id (replace s) b = refl
  edit_column-Edits id (append s) b = refl
  edit_column-Edits variants delete b = refl
  edit_column-Edits variants (replace s) b = refl
  edit_column-Edits variants (append s) b = refl
  edit_column-Edits (named_tag k) delete b = (refl, removed k b.named_tags, remove_frame floats k b)
  edit_column-Edits (named_tag k) (replace s) b =
      (refl, inserted k s b.named_tags, insert_frame floats k s b)
  edit_column-Edits (named_tag k) (append s) b =
      let v = extended_text (lookup_key k b.named_tags) s in
      (refl, inserted k v b.named_tags, insert_frame floats k v b)
  edit_column-Edits tags delete b = (refl, refl, λ d h. tags_frame floats _ b d)
  edit_column-Edits tags (replace s) b = (refl, refl, λ d h. tags_frame floats _ b d)
  edit_column-Edits tags (append s) b = (refl, refl, λ d h. tags_frame floats _ b d)
  edit_column-Edits (exact_tag t) delete b = (refl, refl, λ d h. tags_frame floats _ b d)
  edit_column-Edits (exact_tag t) (replace s) b = (refl, refl, λ d h. tags_frame floats _ b d)
  edit_column-Edits (exact_tag t) (append s) b = (refl, refl, λ d h. tags_frame floats _ b d)
  edit_column-Edits (multi_map t) delete b = tt
  edit_column-Edits (multi_map t) (replace s) b = tt
  edit_column-Edits (multi_map t) (append s) b = tt
  edit_column-Edits (multi_map_exact t u) delete b = tt
  edit_column-Edits (multi_map_exact t u) (replace s) b = tt
  edit_column-Edits (multi_map_exact t u) (append s) b = tt

  -- An edit that succeeds changes no other column.
  pub Edits-frame :
      (c : ColumnIdentifier) (e : Edit) (b b' : Book F I)
      → Edits c e b (ok b')
      → (d : ColumnIdentifier) → d ≢ c
      → get_column floats d b' ≡ get_column floats d b
  Edits-frame title e b b' h = h.2
  Edits-frame author e b b' h = h.2
  Edits-frame series e b b' h = h.2
  Edits-frame id e b b' h = h.2
  Edits-frame variants e b b' h = h.2
  Edits-frame description e b b' h = h.2
  Edits-frame tags e b b' h = h.2
  Edits-frame (exact_tag t) e b b' h = h.2
  Edits-frame (named_tag t) e b b' h = h.2
  Edits-frame (multi_map t) e b b' h = absurd h
  Edits-frame (multi_map_exact t u) e b b' h = absurd h
