-- ===== src/Base/Order.antt =====
-- Comparisons: `Ordering`, `Ord` of options, lists and texts, and the laws of a comparison whose
-- `eq` is an equivalence.
use Prim.Native.Nat.{compare, Ordering}
use Prim.Native.Nat.Ordering.{lt, eq, gt}
use mathlib.Core.Path.{◌≡◌, refl, ap}
use mathlib.Core.List.{List, [], ◌∷◌}
use mathlib.Core.Option.{Option, none, some}
use native.Mathlib.Omega.{arith}
use bookworm.Base.Strings.{Text}

-- `Ordering::reverse` and `Ordering::then`
abbrev pub reverse_order : Ordering → Ordering
reverse_order lt = gt
reverse_order eq = eq
reverse_order gt = lt

abbrev pub then_order : Ordering → Ordering → Ordering
then_order eq o = o
then_order lt o = lt
then_order gt o = gt

pub record IsPreorder {ℓ} {K : Type ℓ} (cmp : K → K → Ordering) : Type ℓ where
  pub cmp_self : (a : K) → cmp a a ≡ eq
  pub cmp_swap : (a b : K) → cmp b a ≡ reverse_order (cmp a b)
  pub lt_trans : (a b c : K) → cmp a b ≡ lt → cmp b c ≡ lt → cmp a c ≡ lt
  pub eq_left : (a b c : K) → cmp a b ≡ eq → cmp a c ≡ cmp b c

pub compare-IsPreorder : IsPreorder compare
compare-IsPreorder = ground arith

module _ {ℓ} {K : Type ℓ} (cmp : K → K → Ordering) where
  -- `Ord` of `Option`: `None` comes first.
  abbrev pub option_order : Option K → Option K → Ordering
  option_order none none = eq
  option_order none (some b) = lt
  option_order (some a) none = gt
  option_order (some a) (some b) = cmp a b

  -- `Ord` of lists, strings and iterators: the first difference decides.
  unfoldable pub list_order : List K → List K → Ordering
  list_order [] [] = eq
  list_order [] (b ∷ bs) = lt
  list_order (a ∷ as') [] = gt
  list_order (a ∷ as') (b ∷ bs) = then_order (cmp a b) (list_order as' bs)

-- `Ord` of `str` compares bytes; UTF-8 keeps the order of the characters.
unfoldable pub text_order : Text → Text → Ordering
unfolding list_order
text_order = list_order compare

module _ {ℓ} {K : Type ℓ} {cmp : K → K → Ordering} (p : IsPreorder cmp) where
  eq_right : (a b c : K) → cmp b c ≡ eq → cmp a b ≡ cmp a c
  eq_right a b c h = rw (p.cmp_swap b a, p.cmp_swap c a) (ap reverse_order (p.eq_left b c a h))

  pub option_order-IsPreorder : IsPreorder (option_order cmp)
  option_order-IsPreorder = record {
    cmp_self = self;
    cmp_swap = swap;
    lt_trans = trans;
    eq_left = left;
  }
    where
      self : (a : Option K) → option_order cmp a a ≡ eq
      self none = refl
      self (some a) = p.cmp_self a

      swap : (a b : Option K) → option_order cmp b a ≡ reverse_order (option_order cmp a b)
      swap none none = refl
      swap none (some b) = refl
      swap (some a) none = refl
      swap (some a) (some b) = p.cmp_swap a b

      trans :
          (a b c : Option K)
          → option_order cmp a b ≡ lt
          → option_order cmp b c ≡ lt
          → option_order cmp a c ≡ lt
      trans none none c h k = cc
      trans none (some b) none h k = cc
      trans none (some b) (some c) h k = refl
      trans (some a) none c h k = cc
      trans (some a) (some b) none h k = cc
      trans (some a) (some b) (some c) h k = p.lt_trans a b c h k

      left :
          (a b c : Option K)
          → option_order cmp a b ≡ eq
          → option_order cmp a c ≡ option_order cmp b c
      left none none c h = refl
      left none (some b) c h = cc
      left (some a) none c h = cc
      left (some a) (some b) none h = refl
      left (some a) (some b) (some c) h = p.eq_left a b c h

  list_order_self : (a : List K) → list_order cmp a a ≡ eq
  unfolding list_order
  list_order_self [] = refl
  list_order_self (x ∷ a) = rw (p.cmp_self x) (list_order_self a)

  list_order_swap : (a b : List K) → list_order cmp b a ≡ reverse_order (list_order cmp a b)
  unfolding list_order
  list_order_swap [] [] = refl
  list_order_swap [] (y ∷ b) = refl
  list_order_swap (x ∷ a) [] = refl
  list_order_swap (x ∷ a) (y ∷ b) = ground (arith, p.cmp_swap x y, list_order_swap a b)

  list_order_trans :
      (a b c : List K) → list_order cmp a b ≡ lt → list_order cmp b c ≡ lt → list_order cmp a c ≡ lt
  unfolding list_order
  list_order_trans [] [] c h k = cc
  list_order_trans [] (y ∷ b) [] h k = cc
  list_order_trans [] (y ∷ b) (z ∷ c) h k = refl
  list_order_trans (x ∷ a) [] c h k = cc
  list_order_trans (x ∷ a) (y ∷ b) [] h k = cc
  list_order_trans (x ∷ a) (y ∷ b) (z ∷ c) h k =
      ground (arith, p.lt_trans x y z, p.eq_left x y z, eq_right x y z, list_order_trans a b c)

  list_order_left :
      (a b c : List K) → list_order cmp a b ≡ eq → list_order cmp a c ≡ list_order cmp b c
  unfolding list_order
  list_order_left [] [] c h = refl
  list_order_left [] (y ∷ b) c h = cc
  list_order_left (x ∷ a) [] c h = cc
  list_order_left (x ∷ a) (y ∷ b) [] h = refl
  list_order_left (x ∷ a) (y ∷ b) (z ∷ c) h = ground (arith, p.eq_left x y z, list_order_left a b c)

  pub list_order-IsPreorder : IsPreorder (list_order cmp)
  list_order-IsPreorder = record {
    cmp_self = list_order_self;
    cmp_swap = list_order_swap;
    lt_trans = list_order_trans;
    eq_left = list_order_left;
  }

  pub on-IsPreorder {κ} : {A : Type κ} (f : A → K) → IsPreorder (λ a b. cmp (f a) (f b))
  on-IsPreorder f = record {
    cmp_self = λ a. p.cmp_self (f a);
    cmp_swap = λ a b. p.cmp_swap (f a) (f b);
    lt_trans = λ a b c. p.lt_trans (f a) (f b) (f c);
    eq_left = λ a b c. p.eq_left (f a) (f b) (f c);
  }

  pub reverse_order-IsPreorder : IsPreorder (λ a b. reverse_order (cmp a b))
  reverse_order-IsPreorder = record {
    cmp_self = λ a. ground (arith, p.cmp_self a);
    cmp_swap = λ a b. ground (arith, p.cmp_swap a b);
    lt_trans =
        λ a b c. ground (arith, p.cmp_swap a b, p.cmp_swap b c, p.cmp_swap a c, p.lt_trans c b a);
    eq_left = λ a b c. ground (arith, p.eq_left a b c);
  }

  pub then_order-IsPreorder :
      {snd : K → K → Ordering} → IsPreorder snd → IsPreorder (λ a b. then_order (cmp a b) (snd a b))
  then_order-IsPreorder q = record {
    cmp_self = λ a. ground (arith, p.cmp_self a, q.cmp_self a);
    cmp_swap = λ a b. ground (arith, p.cmp_swap a b, q.cmp_swap a b);
    lt_trans = λ a b c.
        ground (arith, p.lt_trans a b c, p.eq_left a b c, eq_right a b c, q.lt_trans a b c);
    eq_left = λ a b c. ground (arith, p.eq_left a b c, q.eq_left a b c);
  }

pub text_order-IsPreorder : IsPreorder text_order
unfolding text_order
text_order-IsPreorder = list_order-IsPreorder compare-IsPreorder
