-- ===== src/Database/Paginator/Jumps/Places.antt =====
-- A page that the jumps of `Paginator` (bookworm-database/src/paginator.rs) open at a book: what stays empty
-- is filled from above.
use bookworm.Base.{
  ℕ, ◌+◌, ◌-◌, ◌<◌, min, ◌≡◌, refl, sym, ap, ◌∙◌, subst, ◌⊎◌, inl, inr, true, false, Option, none,
  some, List, [], ◌++◌, length, take, drop, take_last, drop_last, length-append, length-take,
  length-drop, take-append-drop, drop_past, ltb, leb, ◌==◌, arith, Bool-cases,
}
use bookworm.Records.Column.{descending}
use bookworm.Database.Query.{Rules, Query, page_query, include_id}
use bookworm.Database.Selection.{Books, Selection}
use bookworm.Database.Paginator.{Paginator, failed, load_books_before_start}
use bookworm.Database.Paginator.Loading.{Holds, Ends, Ends_map, loaded_before}
use bookworm.Database.Paginator.Holding.{nil_of_length, Holds_before, ShowsAt}
use bookworm.Database.Paginator.Jumps.{fill, open_page}
use bookworm.Database.Paginator.Jumps.Serving.{Serves, Sees}

module _ {B M : Type 0} (k : Books B M) (ask : Query B M → Option (List B))
    (get_book : ℕ → Option B) (rules : Rules) (matches : List M) (sorted : List B) where
  abbrev S : ℕ → Selection B M → ℕ → Paginator B M → Type 0
  S = Sees k ask get_book rules matches sorted

  module _ (a : Serves k ask get_book rules matches sorted) (p : Paginator B M) (t : ℕ)
      (same_rules : p.sorting_rules ≡ rules) (same_matches : p.matching_rules ≡ matches)
      (lines : 0 < p.window_size) (within : (t < length sorted) ⊎ (t ≡ 0)) where
    abbrev page : List B
    page = take p.window_size (drop t sorted)

    abbrev opened : Paginator B M
    opened = record p { books = page; window_top = 0 }

    length-page : length page ≡ min p.window_size (length sorted - t)
    length-page =
        length-take p.window_size (drop t sorted) ∙ ap (min p.window_size) (length-drop t sorted)

    length_above : length (take t sorted) ≡ t
    length_above = elim within [
      | inl h ↦ omega (arith, length-take t sorted)
      | inr h ↦ omega (arith, length-take t sorted)
    ]

    opened-Holds :
        Holds ask rules matches sorted opened (take t sorted) (drop p.window_size (drop t sorted))
    opened-Holds = record {
      whole =
          sym (take-append-drop t sorted)
          ∙ ap (λ l. take t sorted ++ l) (sym (take-append-drop p.window_size (drop t sorted)));
      anchored = λ e. elim within [
        | inl h ↦ absurd (omega (arith, ap length e, length-page))
        | inr h ↦ nil_of_length (take t sorted) (omega (arith, length_above))
      ];
      same_rules = same_rules;
      same_matches = same_matches;
    }

    covered : page ≡ [] → sorted ≡ []
    covered e = elim within [
      | inl h ↦ absurd (omega (arith, ap length e, length-page))
      | inr h ↦ nil_of_length sorted (omega (arith, ap length e, length-page))
    ]

    abbrev missing : ℕ
    missing = p.window_size - length page

    abbrev filled : Paginator B M
    filled = record opened { books = take_last missing (take t sorted) ++ page }

    length_filled : length filled.books ≡ min missing t + length page
    length_filled =
        length-append (take_last missing (take t sorted)) page
        ∙ omega
            (arith, length-drop (length (take t sorted) - missing) (take t sorted), length_above)

    filled-Shows : ShowsAt ask rules matches sorted filled (t - missing)
    filled-Shows = record {
      pre = drop_last missing (take t sorted);
      post = drop p.window_size (drop t sorted);
      held =
          Holds_before ask rules matches sorted opened (take t sorted)
            (drop p.window_size (drop t sorted)) opened-Holds missing;
      place =
          omega
            (arith, length-take (length (take t sorted) - missing) (take t sorted), length_above);
      full = elim (Bool-cases (leb missing t)) [
        | inl enough ↦ inl (ground (arith, length_filled, length-page))
        | inr few ↦ inr (
          nil_of_length (drop_last missing (take t sorted)) (
              ground (
                arith,
                length-take (length (take t sorted) - missing) (take t sorted),
                length_above,
              )),
          drop_past p.window_size (drop t sorted)
              (ground (arith, length-drop t sorted, length-page)),
          refl,
        )
      ];
    }

    filled-Sees : S p.window_size p.selected t filled
    filled-Sees = record {
      offset = t - missing;
      shown = filled-Shows;
      sized = refl;
      kept = refl;
      above = omega arith;
      below = elim within [ inl h ↦ omega (arith, length-page) | inr h ↦ omega arith ];
    }

    fits : ltb p.window_size (length page) ≡ false
    fits = ground (arith, length-page)

    nothing_missing : (missing == 0) ≡ true → filled ≡ opened
    nothing_missing h =
        ap (λ l. record opened { books = l ++ page })
          (drop_past (length (take t sorted) - missing) (take t sorted) (ground arith))

    asked :
        (book : Option B)
        → ask (record {
          builder = include_id (page_query p.sorting_rules descending p.window_size);
          book = book;
          match_rules = p.matching_rules;
        })
          ≡ ask (record {
            builder = include_id (page_query rules descending p.window_size);
            book = book;
            match_rules = matches;
          })
    asked book =
        ap
          (λ r. ask (record {
            builder = include_id (page_query r descending p.window_size);
            book = book;
            match_rules = p.matching_rules;
          }))
          same_rules
        ∙ ap
            (λ ms. ask (record {
              builder = include_id (page_query rules descending p.window_size);
              book = book;
              match_rules = ms;
            }))
            same_matches

    -- A page that is opened at an index shows the book there.
    fill-Sees : Ends ask rules matches sorted (fill k ask opened) (S p.window_size p.selected t)
    unfolding fill
    fill-Sees = rw fits (elim (Bool-cases (missing == 0)) [
      | inl full ↦ rw full (subst (S p.window_size p.selected t) (nothing_missing full) filled-Sees)
      | inr short ↦ rw short (
          Ends_map ask rules matches sorted (load_books_before_start ask missing opened) _
            (S p.window_size p.selected t)
            (loaded_before ask rules matches sorted a.pages opened (take t sorted)
              (drop p.window_size (drop t sorted)) opened-Holds covered missing)
            (λ q e. subst (S p.window_size p.selected t) (sym e) filled-Sees))
    ])

    pub open_page-Sees :
        (book : Option B)
        → ask (record {
          builder = include_id (page_query rules descending p.window_size);
          book = book;
          match_rules = matches;
        })
          ≡ some page
        → Ends ask rules matches sorted (open_page k ask book p) (S p.window_size p.selected t)
    unfolding open_page
    open_page-Sees book h =
        subst
          (λ o.
            Ends ask rules matches sorted
              (elim o [
                | none ↦ (p, failed)
                | some books ↦ fill k ask (record p { books = books; window_top = 0 })
              ])
              (S p.window_size p.selected t))
          (sym (asked book ∙ h)) fill-Sees
