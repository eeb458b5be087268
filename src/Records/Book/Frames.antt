-- ===== src/Records/Book/Frames.antt =====
-- A change of one field of a book (bookworm-records/src/book.rs) leaves what `get_column` reads of
-- the other columns.
use bookworm.Base.{
  ◌≡◌, ◌≢◌, refl, Option, List, Text, arith, text_key, text_eq_iff, false, insert_key, lookup_key,
  remove_key, lookup_key-insert_key, lookup_key-remove_key,
}
use bookworm.Records.Column.{
  ColumnIdentifier, title, author, series, id, variants, description, tags, exact_tag, named_tag,
  multi_map, multi_map_exact,
}
use bookworm.Records.Series.{Series, Floats}
use bookworm.Records.Book.{Book, get_column}

named_tag_ne : (j k : Text) → named_tag j ≢ named_tag k → text_key.beq k j ≡ false
named_tag_ne j k h = ground (arith, text_eq_iff k j)

module _ {F I : Type 0} (floats : Floats F) where
  pub title_frame :
      (x : Option Text) (b : Book F I) (d : ColumnIdentifier)
      → d ≢ title
      → get_column floats d (record b { title = x }) ≡ get_column floats d b
  unfolding get_column
  title_frame x b title h = absurd (h refl)
  title_frame x b author h = refl
  title_frame x b series h = refl
  title_frame x b id h = refl
  title_frame x b variants h = refl
  title_frame x b description h = refl
  title_frame x b tags h = refl
  title_frame x b (exact_tag t) h = refl
  title_frame x b (named_tag t) h = refl
  title_frame x b (multi_map t) h = refl
  title_frame x b (multi_map_exact t u) h = refl

  pub description_frame :
      (x : Option Text) (b : Book F I) (d : ColumnIdentifier)
      → d ≢ description
      → get_column floats d (record b { description = x }) ≡ get_column floats d b
  unfolding get_column
  description_frame x b title h = refl
  description_frame x b author h = refl
  description_frame x b series h = refl
  description_frame x b id h = refl
  description_frame x b variants h = refl
  description_frame x b description h = absurd (h refl)
  description_frame x b tags h = refl
  description_frame x b (exact_tag t) h = refl
  description_frame x b (named_tag t) h = refl
  description_frame x b (multi_map t) h = refl
  description_frame x b (multi_map_exact t u) h = refl

  pub authors_frame :
      (x : Option (List Text)) (b : Book F I) (d : ColumnIdentifier)
      → d ≢ author
      → get_column floats d (record b { authors = x }) ≡ get_column floats d b
  unfolding get_column
  authors_frame x b title h = refl
  authors_frame x b author h = absurd (h refl)
  authors_frame x b series h = refl
  authors_frame x b id h = refl
  authors_frame x b variants h = refl
  authors_frame x b description h = refl
  authors_frame x b tags h = refl
  authors_frame x b (exact_tag t) h = refl
  authors_frame x b (named_tag t) h = refl
  authors_frame x b (multi_map t) h = refl
  authors_frame x b (multi_map_exact t u) h = refl

  pub series_frame :
      (x : Option (Series F)) (b : Book F I) (d : ColumnIdentifier)
      → d ≢ series
      → get_column floats d (record b { series = x }) ≡ get_column floats d b
  unfolding get_column
  series_frame x b title h = refl
  series_frame x b author h = refl
  series_frame x b series h = absurd (h refl)
  series_frame x b id h = refl
  series_frame x b variants h = refl
  series_frame x b description h = refl
  series_frame x b tags h = refl
  series_frame x b (exact_tag t) h = refl
  series_frame x b (named_tag t) h = refl
  series_frame x b (multi_map t) h = refl
  series_frame x b (multi_map_exact t u) h = refl

  pub tags_frame :
      (x : List Text) (b : Book F I) (d : ColumnIdentifier)
      → get_column floats d (record b { free_tags = x }) ≡ get_column floats d b
  unfolding get_column
  tags_frame x b title = refl
  tags_frame x b author = refl
  tags_frame x b series = refl
  tags_frame x b id = refl
  tags_frame x b variants = refl
  tags_frame x b description = refl
  tags_frame x b tags = refl
  tags_frame x b (exact_tag t) = refl
  tags_frame x b (named_tag t) = refl
  tags_frame x b (multi_map t) = refl
  tags_frame x b (multi_map_exact t u) = refl

  named_frame :
      (k : Text) (x : List (Text × Text)) (b : Book F I)
      → ((j : Text) → named_tag j ≢ named_tag k → lookup_key j x ≡ lookup_key j b.named_tags)
      → (d : ColumnIdentifier) → d ≢ named_tag k
      → get_column floats d (record b { named_tags = x }) ≡ get_column floats d b
  unfolding get_column
  named_frame k x b g title h = refl
  named_frame k x b g author h = refl
  named_frame k x b g series h = refl
  named_frame k x b g id h = refl
  named_frame k x b g variants h = refl
  named_frame k x b g description h = refl
  named_frame k x b g tags h = refl
  named_frame k x b g (exact_tag t) h = refl
  named_frame k x b g (named_tag t) h = g t h
  named_frame k x b g (multi_map t) h = refl
  named_frame k x b g (multi_map_exact t u) h = refl

  pub insert_frame :
      (k v : Text) (b : Book F I) (d : ColumnIdentifier)
      → d ≢ named_tag k
      → get_column floats d (record b { named_tags = insert_key k v b.named_tags })
        ≡ get_column floats d b
  insert_frame k v b =
      named_frame k (insert_key k v b.named_tags) b
        (λ j h. rw (lookup_key-insert_key k j v b.named_tags, named_tag_ne j k h) refl)

  pub remove_frame :
      (k : Text) (b : Book F I) (d : ColumnIdentifier)
      → d ≢ named_tag k
      → get_column floats d (record b { named_tags = remove_key k b.named_tags })
        ≡ get_column floats d b
  remove_frame k b =
      named_frame k (remove_key k b.named_tags) b
        (λ j h. rw (lookup_key-remove_key k j b.named_tags, named_tag_ne j k h) refl)
