-- ===== src/Tests/Shelf.antt =====
-- A database of three books, in their order, whose identifiers are their positions.
use bookworm.Base.{
  ℕ, suc, ◌≡◌, refl, sym, ap, ◌∙◌, Bool, true, false, Option, some, none, List, [], ◌∷◌, ◌++◌,
  length, take, drop, get_elem?, get_or, compare, arith, length-append, zero, subst,
}
use mathlib.Core.List.{reverse}
use bookworm.Records.Column.{ColumnOrder, ascending, descending}
use bookworm.Database.Query.{Rules, Query, page_query, include_id}
use bookworm.Database.Selection.{Books}
use bookworm.Database.Search.{Matcher}
use bookworm.Database.Paginator.Loading.{Answers}
use bookworm.Database.Paginator.Jumps.Serving.{Serves}

abbrev pub shelf : List ℕ
shelf = 0 ∷ (1 ∷ (2 ∷ []))

abbrev pub numbers : Books ℕ (Matcher ℕ)
numbers = record { id = λ b. b; cmp_columns = λ r b c. compare b c; is_match = λ m b. true }

abbrev pub numbered_book : ℕ → Option ℕ
numbered_book n = some n

abbrev page_from : ColumnOrder → Bool → Option ℕ → List ℕ
page_from descending inclusive none = shelf
page_from ascending inclusive none = reverse shelf
page_from descending true (some b) = drop b shelf
page_from descending false (some b) = drop (suc b) shelf
page_from ascending true (some b) = reverse (take (suc b) shelf)
page_from ascending false (some b) = reverse (take b shelf)

abbrev pub library : Query ℕ (Matcher ℕ) → Option (List ℕ)
library q =
    some (take (get_or q.builder.limit 0) (page_from q.builder.order q.builder.id_inclusive q.book))

place : (i b : ℕ) → get_elem? shelf i ≡ some b → b ≡ i
place zero b h = cc
place (suc zero) b h = cc
place (suc (suc zero)) b h = cc
place (suc (suc (suc i))) b h = cc

place_split :
    (pre : List ℕ) (b : ℕ) (post : List ℕ)
    → shelf ≡ pre ++ b ∷ post
    → (drop (suc b) shelf ≡ post) × (take b shelf ≡ pre)
place_split [] b post h =
    let e : 0 ≡ b = cc in
    let rest : 1 ∷ (2 ∷ []) ≡ post = cc in
    subst (λ c. (drop (suc c) shelf ≡ post) × (take c shelf ≡ [])) e (rest, refl)
place_split (x ∷ []) b post h =
    let e : 1 ≡ b = cc in
    let first : 0 ≡ x = cc in
    let rest : 2 ∷ [] ≡ post = cc in
    subst (λ c. (drop (suc c) shelf ≡ post) × (take c shelf ≡ x ∷ [])) e
      (rest, ap (λ y. y ∷ []) first)
place_split (x ∷ (y ∷ [])) b post h =
    let e : 2 ≡ b = cc in
    let pair : 0 ∷ (1 ∷ []) ≡ x ∷ (y ∷ []) = cc in
    let rest : [] ≡ post = cc in
    subst (λ c. (drop (suc c) shelf ≡ post) × (take c shelf ≡ x ∷ (y ∷ []))) e (rest, pair)
place_split (x ∷ (y ∷ (z ∷ pre))) b post h =
    absurd (omega (arith, ap length h, length-append pre (b ∷ post)))

pub library-Answers : (rules : Rules) (ms : List (Matcher ℕ)) → Answers library rules ms shelf
unfolding page_query
library-Answers rules ms = record {
  from_start = λ n. refl;
  from_end = λ n. refl;
  behind = λ n pre b post h. ap (λ l. some (take n l)) (place_split pre b post h).0;
  before = λ n pre b post h. ap (λ l. some (take n (reverse l))) (place_split pre b post h).1;
}

pub library-Serves :
    (rules : Rules) (ms : List (Matcher ℕ)) → Serves numbers library numbered_book rules ms shelf
unfolding page_query include_id
library-Serves rules ms = record {
  pages = library-Answers rules ms;
  from_top = λ n. refl;
  from_book = λ n i b at. ap (λ j. some (take n (drop j shelf))) (place i b at);
  up_to_bottom = λ n. refl;
  up_to_book = λ n i b at. ap (λ j. some (take n (reverse (take (suc j) shelf)))) (place i b at);
  same_book = λ i b at. refl;
  distinct = λ i j b c at at' same. sym (place i b at) ∙ same ∙ place j c at';
  ordered = λ i j b c at at'. ap (λ n. compare n c) (place i b at) ∙ ap (compare i) (place j c at');
}
