-- ===== src/Database/Paginator/Jumps/Serving.antt =====
-- What the jumps of `Paginator` (bookworm-database/src/paginator.rs) rely on in the database, and what they
-- lead to.
use bookworm.Base.{
  ℕ, suc, ◌+◌, ◌≤◌, ◌<◌, ◌≡◌, Option, none, some, List, take, drop, get_elem?, compare, get_or,
}
use mathlib.Core.List.{reverse}
use bookworm.Records.Column.{ascending, descending}
use bookworm.Database.Query.{Rules, Query, page_query, include_id}
use bookworm.Database.Selection.{Books, Selection}
use bookworm.Database.Paginator.{Paginator}
use bookworm.Database.Paginator.Loading.{Answers}
use bookworm.Database.Paginator.Holding.{ShowsAt}

module _ {B M : Type 0} (k : Books B M) (ask : Query B M → Option (List B))
    (get_book : ℕ → Option B) (rules : Rules) (matches : List M) (sorted : List B) where
  -- What the paginator asks of its database: pages of a sorted list, in which `cmp_columns` says who
  -- stands first and no identifier stands twice, also pages that begin at a book, and the books
  -- themselves, unless the database fails to give them.
  pub record Serves : Type 0 where
    pub pages : Answers ask rules matches sorted
    pub from_top :
        (n : ℕ)
        → ask (record {
          builder = include_id (page_query rules descending n);
          book = none;
          match_rules = matches;
        })
          ≡ some (take n sorted)
    pub from_book :
        (n i : ℕ) (b : B)
        → get_elem? sorted i ≡ some b
        → ask (record {
          builder = include_id (page_query rules descending n);
          book = some b;
          match_rules = matches;
        })
          ≡ some (take n (drop i sorted))
    pub up_to_bottom :
        (n : ℕ)
        → ask (record {
          builder = include_id (page_query rules ascending n);
          book = none;
          match_rules = matches;
        })
          ≡ some (take n (reverse sorted))
    pub up_to_book :
        (n i : ℕ) (b : B)
        → get_elem? sorted i ≡ some b
        → ask (record {
          builder = include_id (page_query rules ascending n);
          book = some b;
          match_rules = matches;
        })
          ≡ some (take n (reverse (take (suc i) sorted)))
    pub same_book : (i : ℕ) (b : B) → get_elem? sorted i ≡ some b → get_or (get_book (k.id b)) b ≡ b
    pub distinct :
        (i j : ℕ) (b c : B)
        → get_elem? sorted i ≡ some b
        → get_elem? sorted j ≡ some c
        → k.id b ≡ k.id c
        → i ≡ j
    pub ordered :
        (i j : ℕ) (b c : B)
        → get_elem? sorted i ≡ some b
        → get_elem? sorted j ≡ some c
        → k.cmp_columns rules b c ≡ compare i j

  -- The window shows a piece of the list, at some offset, and the book at an index is in it; its
  -- size and the selection are given.
  pub record Sees (size : ℕ) (s : Selection B M) (t : ℕ) (p : Paginator B M) : Type 0 where
    pub offset : ℕ
    pub shown : ShowsAt ask rules matches sorted p offset
    pub sized : p.window_size ≡ size
    pub kept : p.selected ≡ s
    pub above : offset ≤ t
    pub below : t < offset + size
