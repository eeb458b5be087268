-- ===== src/Records/Book/Tags.antt =====
-- The free tags of a book (bookworm-records/src/book.rs) as a set: which texts are tags after an
-- edit.
use bookworm.Base.{
  ◌≡◌, refl, ap, ◌∙◌, Bool, false, ◌&&◌, ◌||◌, not, List, ◌++◌, Text, text_key, text_eq,
  if◌then◌else◌, has_elem, insert_elem, remove_elem, has_elem-insert_elem, has_elem-remove_elem,
  Bool-cases, inl, inr,
}
use bookworm.Records.Column.{
  ColumnIdentifier, title, author, series, id, variants, description, tags, exact_tag, named_tag,
  multi_map, multi_map_exact,
}
use bookworm.Records.Series.{Floats}
use bookworm.Records.Book.{
  Edit, delete, replace, append, Book, Outcome, ok, err, panic, set_column, extend_column,
  delete_column, edit_column,
}

-- The set of tags after an edit, as a test of each text.
abbrev pub tags_after : ColumnIdentifier → Edit → (Text → Bool) → Text → Bool
tags_after tags delete is_tag u = false
tags_after tags (replace s) is_tag u = text_eq s u || is_tag u
tags_after tags (append s) is_tag u = text_eq s u || is_tag u
tags_after (exact_tag t) delete is_tag u = not (text_eq t u) && is_tag u
tags_after (exact_tag t) (replace s) is_tag u = text_eq s u || (not (text_eq t u) && is_tag u)
tags_after (exact_tag t) (append s) is_tag u =
    if is_tag t
    then text_eq (t ++ s) u || (not (text_eq t u) && is_tag u)
    else text_eq s u || is_tag u
tags_after c e is_tag u = is_tag u

abbrev pub HasTags : {F I : Type 0} → Outcome (Book F I) → (Text → Bool) → Type 0
HasTags (ok b) is_tag = (u : Text) → has_elem u b.free_tags ≡ is_tag u
HasTags (err x) is_tag = Unit
HasTags panic is_tag = Unit

has_elem-replace :
    (s t u : Text) (l : List Text)
    → has_elem u (insert_elem s (remove_elem t l))
      ≡ (text_eq s u || (not (text_eq t u) && has_elem u l))
has_elem-replace s t u l =
    has_elem-insert_elem s u (remove_elem t l)
    ∙ ap (λ h. text_eq s u || h) (has_elem-remove_elem t u l)

has_elem-append :
    (s t u : Text) (l : List Text)
    → has_elem u (if has_elem t l then insert_elem (t ++ s) (remove_elem t l) else insert_elem s l)
      ≡ (if has_elem t l
          then text_eq (t ++ s) u || (not (text_eq t u) && has_elem u l)
          else text_eq s u || has_elem u l)
has_elem-append s t u l = elim (Bool-cases (has_elem t l)) [
  | inl h ↦ rw h (has_elem-replace (t ++ s) t u l)
  | inr h ↦ rw h (has_elem-insert_elem s u l)
]

module _ {F I : Type 0} (floats : Floats F) where
  -- After every edit that succeeds exactly these texts are tags of the book: replacing the tags and
  -- appending to them both add the text to what was there, and deleting them drops all; an edit of
  -- one tag replaces, drops or lengthens it, and appending to a tag that is not there adds the text
  -- alone; an edit of another column leaves the tags.
  pub edit_column-HasTags :
      (c : ColumnIdentifier) (e : Edit) (b : Book F I)
      → HasTags (edit_column floats c e b) (tags_after c e (λ u. has_elem u b.free_tags))
  unfolding edit_column set_column extend_column delete_column
  edit_column-HasTags title delete b = λ u. refl
  edit_column-HasTags title (replace s) b = λ u. refl
  edit_column-HasTags title (append s) b = λ u. refl
  edit_column-HasTags author delete b = λ u. refl
  edit_column-HasTags author (replace s) b = λ u. refl
  edit_column-HasTags author (append s) b = λ u. refl
  edit_column-HasTags series delete b = λ u. refl
  edit_column-HasTags series (replace s) b = λ u. refl
  edit_column-HasTags series (append s) b = tt
  edit_column-HasTags id delete b = tt
  edit_column-HasTags id (replace s) b = tt
  edit_column-HasTags id (append s) b = tt
  edit_column-HasTags variants delete b = tt
  edit_column-HasTags variants (replace s) b = tt
  edit_column-HasTags variants (append s) b = tt
  edit_column-HasTags description delete b = λ u. refl
  edit_column-HasTags description (replace s) b = λ u. refl
  edit_column-HasTags description (append s) b = λ u. refl
  edit_column-HasTags (named_tag t) delete b = λ u. refl
  edit_column-HasTags (named_tag t) (replace s) b = λ u. refl
  edit_column-HasTags (named_tag t) (append s) b = λ u. refl
  edit_column-HasTags (multi_map t) delete b = tt
  edit_column-HasTags (multi_map t) (replace s) b = tt
  edit_column-HasTags (multi_map t) (append s) b = tt
  edit_column-HasTags (multi_map_exact t u) delete b = tt
  edit_column-HasTags (multi_map_exact t u) (replace s) b = tt
  edit_column-HasTags (multi_map_exact t u) (append s) b = tt
  edit_column-HasTags tags delete b = λ u. unfold has_elem in refl
  edit_column-HasTags tags (replace s) b = λ u. has_elem-insert_elem s u b.free_tags
  edit_column-HasTags tags (append s) b = λ u. has_elem-insert_elem s u b.free_tags
  edit_column-HasTags (exact_tag t) delete b = λ u. has_elem-remove_elem t u b.free_tags
  edit_column-HasTags (exact_tag t) (replace s) b = λ u. has_elem-replace s t u b.free_tags
  edit_column-HasTags (exact_tag t) (append s) b = λ u. has_elem-append s t u b.free_tags
