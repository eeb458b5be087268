-- ===== src/Tests/Paginator.antt =====
-- The window and the selection of a paginator at concrete inputs.
use bookworm.Base.{ℕ, ◌≡◌, refl, some, none, [], arith, inl, false, get_elem?}
use bookworm.Database.Query.{Rules, add_id}
use bookworm.Database.Selection.{range, down, contains, matches_all}
use bookworm.Database.Search.{Matcher}
use bookworm.Database.Paginator.{Paginator, window}
use bookworm.Database.Paginator.Loading.{Ends}
use bookworm.Database.Paginator.Jumps.{sort_by}
use bookworm.Database.Paginator.Jumps.Serving.{Sees}
use bookworm.Database.Paginator.Moves.{select_to_start}
use bookworm.Database.Paginator.Moves.Marks.{marked, View}
use bookworm.Database.Paginator.Moves.Lost.{select_to_start-contains}
use bookworm.Database.Paginator.Refresh.{refresh, find_selected}
use bookworm.Database.Paginator.Refresh.Kept.{refresh-Sees, sort_by-Sees}
use bookworm.Tests.Shelf.{shelf, numbers, numbered_book, library, library-Serves}

no_rules : Rules
no_rules = []

-- Two lines that show the last two books, of which the last is selected.
abbrev at_end : Paginator ℕ (Matcher ℕ)
at_end = record {
  books = shelf;
  window_size = 2;
  window_top = 1;
  sorting_rules = add_id no_rules;
  matching_rules = [];
  selected = range 2 2 (add_id no_rules) down [];
}

at_end-View : View library (add_id no_rules) [] shelf 2 (marked 2 2) at_end
at_end-View = record {
  offset = 1;
  shown = record {
    pre = [];
    post = [];
    held = record { whole = refl; anchored = λ e. refl; same_rules = refl; same_matches = refl };
    place = refl;
    full = inl (omega arith);
  };
  sized = refl;
  selects = (refl, refl, omega arith, refl, refl);
  visible = (omega arith, omega arith);
}

select_to_start-contains_example :
    Ends library
      (add_id no_rules)
      []
      shelf
      (select_to_start numbers library numbered_book at_end)
      (λ q. (n d : ℕ) → get_elem? shelf n ≡ some d → contains numbers q.selected d ≡ false)
select_to_start-contains_example =
    select_to_start-contains numbers library numbered_book (add_id no_rules) [] shelf
      (library-Serves (add_id no_rules) []) at_end 2 2 2 (omega arith) at_end-View (omega arith)

refresh-Sees_example :
    Ends library
      (add_id no_rules)
      []
      shelf
      (refresh numbers library numbered_book (λ ids. none) at_end)
      (Sees numbers library numbered_book
        (add_id no_rules)
        []
        shelf
        2
        (range 2 2 (add_id no_rules) down [])
        2)
unfolding window find_selected contains matches_all
refresh-Sees_example =
    refresh-Sees numbers library numbered_book (add_id no_rules) [] shelf
      (library-Serves (add_id no_rules) []) at_end refl refl (omega arith) (λ ids. none) (some 2) 2
      tt (inl (1, 2, refl, refl, (refl, tt), refl)) refl

sort_by-Sees_example :
    Ends library
      (add_id no_rules)
      []
      shelf
      (sort_by numbers library numbered_book no_rules at_end)
      (Sees numbers library numbered_book
        (add_id no_rules)
        []
        shelf
        2
        (range 2 2 (add_id no_rules) down [])
        1)
unfolding window
sort_by-Sees_example =
    sort_by-Sees numbers library numbered_book (add_id no_rules) [] shelf
      (library-Serves (add_id no_rules) []) at_end no_rules 1 refl refl (omega arith) refl
