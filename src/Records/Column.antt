-- ===== src/Records/Column.antt =====
-- `ColumnIdentifier` of bookworm-records/src/book.rs and `ColumnOrder` of
-- bookworm-records/src/lib.rs.
use bookworm.Base.{Bool, true, false, ◌||◌, Text, codes, text_eq, to_ascii_lowercase, if◌then◌else◌}

pub data ColumnIdentifier : Type 0 where
  title author series id variants description tags : ColumnIdentifier
  exact_tag : Text → ColumnIdentifier
  multi_map : Text → ColumnIdentifier
  multi_map_exact : Text → Text → ColumnIdentifier
  named_tag : Text → ColumnIdentifier

-- `ColumnIdentifier::from`
unfoldable pub from_text : Text → ColumnIdentifier
unfolding to_ascii_lowercase text_eq
from_text val =
    let s = to_ascii_lowercase val in
    if text_eq s (codes "author") || text_eq s (codes "authors")
    then author
    else if text_eq s (codes "title")
    then title
    else if text_eq s (codes "series")
    then series
    else if text_eq s (codes "id")
    then id
    else if text_eq s (codes "variant") || text_eq s (codes "variants")
    then variants
    else if text_eq s (codes "description")
    then description
    else if text_eq s (codes "tag")
    then tags
    else named_tag val

unfoldable pub into_string : ColumnIdentifier → Text
into_string title = codes "Title"
into_string author = codes "Author"
into_string series = codes "Series"
into_string id = codes "ID"
into_string variants = codes "Variants"
into_string description = codes "Description"
into_string tags = codes "Tag"
into_string (exact_tag t) = codes "Tag"
into_string (named_tag t) = t
into_string (multi_map t) = t
into_string (multi_map_exact t u) = t

pub data ColumnOrder : Type 0 where
  ascending descending : ColumnOrder

unfoldable pub as_bool : ColumnOrder → Bool
as_bool ascending = false
as_bool descending = true

unfoldable pub from_bool : Bool → ColumnOrder
from_bool false = ascending
from_bool true = descending
