-- ===== src/App/Parser/Args/Split.antt =====
-- `read_args` of bookworm-app/src/parser.rs loses nothing, and reads back what is written.
use bookworm.Base.{
  ℕ, zero, suc, ◌≤◌, ◌≡◌, refl, ap, ◌∙◌, true, false, List, [], ◌∷◌, ◌++◌, Text, length, All,
  length-append, arith, Bool-cases, inl, inr,
}
use bookworm.App.Parser.Args.{Group, is_flag, take_args, drop_args, read_groups, read_args}

abbrev pub IsArg : Text → Type 0
IsArg v = is_flag v ≡ false

abbrev pub IsGroup : Group → Type 0
IsGroup (flag, args) = (is_flag flag ≡ true) × All IsArg args

-- The arguments in the order in which they were given.
abbrev pub flat : List Group → List Text
flat [] = []
flat ((flag, args) ∷ gs) = flag ∷ (args ++ flat gs)

take-append-drop_args : (vs : List Text) → take_args vs ++ drop_args vs ≡ vs
unfolding take_args drop_args
take-append-drop_args [] = refl
take-append-drop_args (v ∷ vs) = ground (arith, take-append-drop_args vs)

take_args-IsArg : (vs : List Text) → All IsArg (take_args vs)
unfolding take_args
take_args-IsArg [] = tt
take_args-IsArg (v ∷ vs) = elim (Bool-cases (is_flag v)) [
  | inl flag ↦ rw flag tt
  | inr arg ↦ rw arg (arg, take_args-IsArg vs)
]

-- What is left begins with a flag.
abbrev StartsFlag : List Text → Type 0
StartsFlag [] = Unit
StartsFlag (v ∷ vs) = is_flag v ≡ true

drop_args-StartsFlag : (vs : List Text) → StartsFlag (drop_args vs)
unfolding drop_args
drop_args-StartsFlag [] = tt
drop_args-StartsFlag (v ∷ vs) = elim (Bool-cases (is_flag v)) [
  | inl flag ↦ rw flag flag
  | inr arg ↦ rw arg (drop_args-StartsFlag vs)
]

length-drop_args : (vs : List Text) → length (drop_args vs) ≤ length vs
unfolding drop_args
length-drop_args [] = omega arith
length-drop_args (v ∷ vs) = ground (arith, length-drop_args vs)

flat-read_groups : (fuel : ℕ) (vs : List Text) → length vs ≤ fuel → flat (read_groups fuel vs) ≡ vs
unfolding read_groups
flat-read_groups zero [] h = refl
flat-read_groups zero (v ∷ vs) h = elim h [ ]
flat-read_groups (suc fuel) [] h = refl
flat-read_groups (suc fuel) (v ∷ vs) h =
    ap (λ l. v ∷ (take_args vs ++ l))
      (flat-read_groups fuel (drop_args vs) (omega (arith, length-drop_args vs)))
    ∙ ap (λ l. v ∷ l) (take-append-drop_args vs)

read_groups-IsGroup :
    (fuel : ℕ) (vs : List Text) → StartsFlag vs → All IsGroup (read_groups fuel vs)
unfolding read_groups
read_groups-IsGroup zero vs h = tt
read_groups-IsGroup (suc fuel) [] h = tt
read_groups-IsGroup (suc fuel) (v ∷ vs) h =
    ((h, take_args-IsArg vs), read_groups-IsGroup fuel (drop_args vs) (drop_args-StartsFlag vs))

-- Every argument is kept, in order; the first group has no flag, each later one begins with its
-- flag, and no other argument begins with a dash.
pub read_args-flat :
    (args : List Text)
    → ((read_args args).0 ++ flat (read_args args).1 ≡ args)
      × All IsArg (read_args args).0
      × All IsGroup (read_args args).1
unfolding read_args
read_args-flat args = (
  ap (λ l. take_args args ++ l)
        (flat-read_groups (length args) (drop_args args) (length-drop_args args))
      ∙ take-append-drop_args args,
  take_args-IsArg args,
  read_groups-IsGroup (length args) (drop_args args) (drop_args-StartsFlag args),
)

-- A list of arguments that goes on with a flag, or ends.
take_args-append :
    (xs ys : List Text)
    → All IsArg xs
    → StartsFlag ys
    → (take_args (xs ++ ys) ≡ xs) × (drop_args (xs ++ ys) ≡ ys)
unfolding take_args drop_args
take_args-append [] [] h k = (refl, refl)
take_args-append [] (y ∷ ys) h k = (rw k, rw k)
take_args-append (x ∷ xs) ys h k =
    let (a, b) = take_args-append xs ys h.1 k in (rw (h.0, a), rw (h.0, b))

flat-StartsFlag : (gs : List Group) → All IsGroup gs → StartsFlag (flat gs)
flat-StartsFlag [] h = tt
flat-StartsFlag (g ∷ gs) h = h.0.0

read_groups-flat :
    (fuel : ℕ) (gs : List Group)
    → All IsGroup gs
    → length (flat gs) ≤ fuel
    → read_groups fuel (flat gs) ≡ gs
unfolding read_groups
read_groups-flat zero [] h k = refl
read_groups-flat zero (g ∷ gs) h k = elim k [ ]
read_groups-flat (suc fuel) [] h k = refl
read_groups-flat (suc fuel) ((flag, args) ∷ gs) h k =
    let (a, b) = take_args-append args (flat gs) h.0.1 (flat-StartsFlag gs h.1) in
    rw (a, b)
      (ap (λ l. (flag, args) ∷ l)
        (read_groups-flat fuel gs h.1 (omega (arith, length-append {0} args (flat gs)))))

-- Groups that are written out as arguments are read back.
pub read_args-append_flat :
    (start : List Text) (gs : List Group)
    → All IsArg start
    → All IsGroup gs
    → read_args (start ++ flat gs) ≡ (start, gs)
unfolding read_args
read_args-append_flat start gs h k =
    let (a, b) = take_args-append start (flat gs) h (flat-StartsFlag gs k) in
    rw (a, b)
      (ap (λ l. (start, l))
        (read_groups-flat (length (start ++ flat gs)) gs k
          (omega (arith, length-append {0} start (flat gs)))))
