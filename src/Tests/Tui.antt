-- ===== src/Tests/Tui.antt =====
-- bookworm-tui and the columns of bookworm-app: the theorems at concrete inputs, and tests.
use bookworm.Base.{
  ◌≡◌, refl, ◌≤◌, Bool, true, Option, some, List, [], ◌∷◌, Text, codes, text_eq, to_ascii_lowercase,
  arith,
}
use bookworm.App.Command.{ModifyColumn, add_column, remove_column}
use bookworm.App.Columns.{contains, without, insert_column, modify_columns}
use bookworm.App.Columns.Distinct.{Distinct, modify_columns-Distinct}
use bookworm.Tui.Scroll.{BlindOffset, end, scroll, blind_scroll, fit_offset_in_height, new}
use bookworm.Tui.Scroll.Limits.{limit, cut, text_of, fit_offset_in_height-blind_scroll}

abbrev blind : BlindOffset
blind = record { offset = 12; window_height = 10 }

fit_offset_in_height-blind_scroll_example :
    (text_of 25 (fit_offset_in_height 25 (blind_scroll end blind))
      ≡ cut (scroll end (text_of 25 blind)))
    × ((scroll end (text_of 25 blind)).offset ≤ limit (scroll end (text_of 25 blind)))
fit_offset_in_height-blind_scroll_example =
    fit_offset_in_height-blind_scroll end 25 blind (omega arith) (omega arith)

lines_counted : (new (b'a' ∷ 10 ∷ 10 ∷ b'b' ∷ [])).height ≡ 3
unfolding new
lines_counted = refl

text_eq_comm : (s t : Text) → text_eq s t ≡ text_eq t s
unfolding text_eq
text_eq_comm [] [] = refl
text_eq_comm [] (d ∷ t) = refl
text_eq_comm (c ∷ s) [] = refl
text_eq_comm (c ∷ s) (d ∷ t) = ground (arith, text_eq_comm s t)

abbrev shown : List Text
shown = codes "title" ∷ codes "author" ∷ []

abbrev any_column : Text → Option Bool
any_column _ = some true

abbrev changes : List ModifyColumn
changes = add_column (codes "Title") ∷ remove_column (codes "AUTHOR") ∷ []

shown-Distinct : Distinct text_eq shown
unfolding text_eq contains
shown-Distinct = (refl, (refl, tt))

modify_columns-Distinct_example :
    Distinct text_eq (modify_columns text_eq to_ascii_lowercase any_column changes shown).0
modify_columns-Distinct_example =
    modify_columns-Distinct text_eq to_ascii_lowercase any_column changes shown text_eq_comm
      shown-Distinct

changes_folded :
    modify_columns text_eq to_ascii_lowercase any_column changes shown ≡ (codes "title" ∷ [], true)
unfolding modify_columns text_eq to_ascii_lowercase without insert_column
changes_folded = refl
