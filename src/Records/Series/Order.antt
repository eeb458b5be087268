-- ===== src/Records/Series/Order.antt =====
-- `Ord` of `Series` (bookworm-records/src/series.rs) is a total order, with NaN below the numbers.
use bookworm.Base.{
  ◌≡◌, refl, Bool, true, false, ◌||◌, Option, none, some, if◌then◌else◌, arith, Ordering, lt, eq,
  gt, IsPreorder, then_order, option_order, option_order-IsPreorder, text_order,
  text_order-IsPreorder, on-IsPreorder, then_order-IsPreorder,
}
use bookworm.Records.Series.{Series, Floats, cmp_index, cmp_series}

-- What `f32` documents: `partial_cmp` fails exactly at a NaN, and orders the numbers.
pub record IsFloats {F : Type 0} (floats : Floats F) : Type 0 where
  pub number : F → F → Ordering
  pub number-IsPreorder : IsPreorder number
  pub partial_cmp_lem :
      (i j : F)
      → floats.partial_cmp i j
        ≡ (if floats.is_nan i || floats.is_nan j then none else some (number i j))

module _ {F : Type 0} (floats : Floats F) (f : IsFloats floats) where
  -- A NaN is equal to a NaN and less than every number.
  abbrev pub nan_order : Bool → Bool → Ordering → Ordering
  nan_order true true o = eq
  nan_order true false o = lt
  nan_order false true o = gt
  nan_order false false o = o

  abbrev pub index_order : F → F → Ordering
  index_order i j = nan_order (floats.is_nan i) (floats.is_nan j) (f.number i j)

  abbrev pub series_order : Series F → Series F → Ordering
  series_order s t =
      then_order (text_order s.name t.name) (option_order index_order s.index t.index)

  index_order-IsPreorder : IsPreorder index_order
  index_order-IsPreorder = record {
    cmp_self = λ i. ground (arith, f.number-IsPreorder.cmp_self i);
    cmp_swap = λ i j. ground (arith, f.number-IsPreorder.cmp_swap i j);
    lt_trans = λ i j k. ground (arith, f.number-IsPreorder.lt_trans i j k);
    eq_left = λ i j k. ground (arith, f.number-IsPreorder.eq_left i j k);
  }

  pub series_order-IsPreorder : IsPreorder series_order
  series_order-IsPreorder =
      then_order-IsPreorder (on-IsPreorder text_order-IsPreorder (λ (s : Series F). s.name))
        (on-IsPreorder (option_order-IsPreorder index_order-IsPreorder) (λ (s : Series F). s.index))

  cmp_index_lem : (i j : Option F) → cmp_index floats i j ≡ some (option_order index_order i j)
  unfolding cmp_index
  cmp_index_lem none none = refl
  cmp_index_lem none (some j) = refl
  cmp_index_lem (some i) none = refl
  cmp_index_lem (some i) (some j) = ground (arith, f.partial_cmp_lem i j)

  -- Series are compared without a panic, and as the order by name, index and number says.
  pub cmp_series_lem : (s t : Series F) → cmp_series floats s t ≡ some (series_order s t)
  unfolding cmp_series
  cmp_series_lem s t = ground (arith, cmp_index_lem s.index t.index)
