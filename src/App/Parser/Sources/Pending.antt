-- ===== src/App/Parser/Sources/Pending.antt =====
-- The reader of sources of bookworm-app/src/parser.rs without indices: the directories that a
-- later `-r` can still change are kept apart.
use bookworm.Base.{
  get_or, ℕ, suc, ◌≡◌, refl, sym, ap, ◌∙◌, false, none, some, List, [], ◌∷◌, ◌++◌, map, Text,
  length, length-append, take, drop-append, codes, text_eq, leb, if◌then◌else◌, arith, Bool-cases,
  inl, inr,
}
use mathlib.Core.List.{append-nil}
use bookworm.App.Command.{
  Result, ok, err, panic, ◌>>=◌, IsSafe, IsSafe-bind, unknown_flag, Source, file, dir, glob,
}
use bookworm.App.Parser.Args.{Group, first?, parse_u8}
use bookworm.App.Parser.Sources.{
  depth_of, with_depth, rest_args, Reading, global_recursion, read_recursion, read_source_group,
  read_source_groups, read_sources, read_update_sources,
}

-- The sources that are settled, and behind them the directories of the last `-d`.
pub record Pending : Type 0 where
  pub settled : List Source
  pub waiting : List Text

abbrev dirs : ℕ → List Text → List Source
dirs depth = map (λ path. dir path depth)

abbrev pub all_sources : ℕ → Pending → List Source
all_sources depth p = p.settled ++ dirs depth p.waiting

abbrev settle : List Source → Result Pending
settle sources = ok (record { settled = sources; waiting = [] })

abbrev local_depth : List Text → ℕ
local_depth args = elim (first? args) [ none ↦ 255 | some s ↦ depth_of s ]

-- `-r` gives its depth to the directories that wait; where none waits it does nothing, and its
-- arguments are dropped.
pub set_depth : List Text → Pending → Result Pending
set_depth args p = elim p.waiting [
  | [] ↦ ok p
  | _ ∷ _ ↦ settle ((p.settled ++ dirs (local_depth args) p.waiting) ++ map file (rest_args args))
]

pub pend_group : ℕ → Group → Pending → Result Pending
pend_group depth (flag, args) p =
    if text_eq flag (codes "-g")
    then settle (all_sources depth p ++ map glob args)
    else if text_eq flag (codes "-d")
    then ok (record { settled = all_sources depth p; waiting = args })
    else if text_eq flag (codes "-r")
    then set_depth args p
    else if text_eq flag (codes "-p")
    then settle (all_sources depth p ++ map file args)
    else err unknown_flag

pub pend_groups : ℕ → List Group → Pending → Result Pending
pend_groups depth [] p = ok p
pend_groups depth (g ∷ gs) p = pend_group depth g p >>= pend_groups depth gs

-- The two variables of the loop for what is pending.
abbrev indexed : ℕ → Pending → Reading
indexed depth p = (all_sources depth p, length p.settled)

length-map : {A B : Type 0} (f : A → B) (xs : List A) → length (map f xs) ≡ length xs
length-map f [] = refl
length-map f (x ∷ xs) = ap suc (length-map f xs)

with_depth-dirs :
    (n depth : ℕ) (paths : List Text) → map (with_depth n) (dirs depth paths) ≡ dirs n paths
with_depth-dirs n depth [] = refl
with_depth-dirs n depth (path ∷ paths) = ap (λ l. dir path n ∷ l) (with_depth-dirs n depth paths)

take-append_all : (xs ys : List Source) → take (length xs) (xs ++ ys) ≡ xs
take-append_all [] ys = refl
take-append_all (x ∷ xs) ys = ap (λ l. x ∷ l) (take-append_all xs ys)

settled_view :
    (depth : ℕ) (sources : List Source)
    → (settle sources >>= λ p. ok (indexed depth p)) ≡ ok (sources, length sources)
settled_view depth sources = rw append-nil

indexed-set_depth :
    (depth : ℕ) (args : List Text) (settled : List Source) (waiting : List Text)
    → let p : Pending = record { settled = settled; waiting = waiting } in
      read_recursion args (indexed depth p) ≡ (set_depth args p >>= λ p'. ok (indexed depth p'))
unfolding read_recursion set_depth
indexed-set_depth depth args settled [] = rw (append-nil settled) (ground arith)
indexed-set_depth depth args settled (path ∷ paths) =
    rw
      (
        not_past,
        take-append_all settled (dirs depth (path ∷ paths)),
        drop-append settled (dirs depth (path ∷ paths)),
      )
      (rw (with_depth-dirs (local_depth args) depth paths) (sym (settled_view depth _)))
  where
    not_past : leb (length (settled ++ dirs depth (path ∷ paths))) (length settled) ≡ false
    not_past = ground (arith, length-append settled (dirs depth (path ∷ paths)))

indexed-pend_group :
    (depth : ℕ) (g : Group) (p : Pending)
    → read_source_group depth g (indexed depth p)
      ≡ (pend_group depth g p >>= λ p'. ok (indexed depth p'))
unfolding read_source_group pend_group
indexed-pend_group depth (flag, args) p = elim (Bool-cases (text_eq flag (codes "-g"))) [
  | inl g ↦ rw g (sym (settled_view depth _))
  | inr no_g ↦ rw no_g (elim (Bool-cases (text_eq flag (codes "-d"))) [
    | inl d ↦ rw d
    | inr no_d ↦ rw no_d (elim (Bool-cases (text_eq flag (codes "-r"))) [
      | inl r ↦ rw r (indexed-set_depth depth args p.settled p.waiting)
      | inr no_r ↦ rw no_r (elim (Bool-cases (text_eq flag (codes "-p"))) [
        | inl p_flag ↦ rw p_flag (sym (settled_view depth _))
        | inr no_p ↦ rw no_p
      ])
    ])
  ])
]

indexed-pend_groups :
    (depth : ℕ) (gs : List Group) (p : Pending)
    → read_source_groups depth gs (indexed depth p)
      ≡ (pend_groups depth gs p >>= λ p'. ok (indexed depth p'))
unfolding read_source_groups pend_groups
indexed-pend_groups depth [] p = refl
indexed-pend_groups depth (g ∷ gs) p =
    ap (λ r. r >>= read_source_groups depth gs) (indexed-pend_group depth g p)
    ∙ later (pend_group depth g p) (indexed-pend_groups depth gs)
  where
    later :
        (r : Result Pending)
        → ((p' : Pending)
            → read_source_groups depth gs (indexed depth p')
              ≡ (pend_groups depth gs p' >>= λ p''. ok (indexed depth p'')))
        → ((r >>= λ p'. ok (indexed depth p')) >>= read_source_groups depth gs)
          ≡ ((r >>= pend_groups depth gs) >>= λ p''. ok (indexed depth p''))
    later (ok p') ih = ih p'
    later (err e) ih = refl
    later panic ih = refl

pended :
    (start : List Text) (gs : List Group)
    → read_sources start gs ≡ (
        pend_groups (global_recursion gs) gs (record { settled = map file start; waiting = [] })
        >>= λ p. ok (all_sources (global_recursion gs) p))
unfolding read_sources
pended start gs =
    let depth = global_recursion gs in
    let first : Pending = record { settled = map file start; waiting = [] } in
    ap (λ r. read_source_groups depth gs r >>= λ (sources, _). ok sources)
      {x = (map file start, length start)} {y = indexed depth first}
      (rw (append-nil (map file start), length-map file start))
    ∙ ap (λ r. r >>= λ (sources, _). ok sources) (indexed-pend_groups depth gs first)
    ∙ last (pend_groups depth gs first)
  where
    last :
        (r : Result Pending)
        → ((r >>= λ p. ok (indexed (global_recursion gs) p)) >>= λ (sources, _). ok sources)
          ≡ (r >>= λ p. ok (all_sources (global_recursion gs) p))
    last (ok p) = refl
    last (err e) = refl
    last panic = refl

-- The depth of directories that no `-r` behind them changes: what the first group says, if it is `-r`.
pub leading_depth : List Group → ℕ
leading_depth [] = 1
leading_depth ((flag, []) ∷ gs) = if text_eq flag (codes "-r") then 255 else 1
leading_depth ((flag, s ∷ args) ∷ gs) =
    if text_eq flag (codes "-r") then get_or (parse_u8 s) 255 else 1

leading_depth_lem : (gs : List Group) → global_recursion gs ≡ leading_depth gs
unfolding global_recursion leading_depth
leading_depth_lem [] = refl
leading_depth_lem ((flag, []) ∷ gs) = refl
leading_depth_lem ((flag, s ∷ args) ∷ gs) = refl

-- Reading with the index is reading with the directories of the last `-d` kept apart: an `-r` right
-- behind gives them its depth, and its further arguments are files; where no directories wait, an
-- `-r` does nothing and its arguments are dropped. An `-r` that is the first group gives the depth
-- of all directories that no later `-r` changes. The paths stand in the order of the arguments.
pub read_sources-pend_groups :
    (start : List Text) (gs : List Group)
    → read_sources start gs ≡ (
        pend_groups (leading_depth gs) gs (record { settled = map file start; waiting = [] })
        >>= λ p. ok (all_sources (leading_depth gs) p))
read_sources-pend_groups start gs =
    pended start gs
    ∙ ap
        (λ n. pend_groups n gs (record { settled = map file start; waiting = [] }) >>= λ p.
          ok (all_sources n p))
        (leading_depth_lem gs)

pend_group-IsSafe : (depth : ℕ) (g : Group) (p : Pending) → IsSafe (pend_group depth g p)
unfolding pend_group set_depth
pend_group-IsSafe depth (flag, args) p = ground arith

pend_groups-IsSafe : (depth : ℕ) (gs : List Group) (p : Pending) → IsSafe (pend_groups depth gs p)
unfolding pend_groups
pend_groups-IsSafe depth [] p = tt
pend_groups-IsSafe depth (g ∷ gs) p =
    IsSafe-bind (pend_group depth g p) (pend_groups depth gs) (pend_group-IsSafe depth g p)
      (λ p' e. pend_groups-IsSafe depth gs p')

-- The `debug_assert!` of the reader holds.
pub read_sources-IsSafe : (start : List Text) (gs : List Group) → IsSafe (read_sources start gs)
read_sources-IsSafe start gs =
    let depth = leading_depth gs in
    let first : Pending = record { settled = map file start; waiting = [] } in
    rw (read_sources-pend_groups start gs)
      (IsSafe-bind (pend_groups depth gs first) _ (pend_groups-IsSafe depth gs first) (λ p e. tt))

pub read_update_sources_eq :
    (start : List Text) (gs : List Group) → read_update_sources start gs ≡ read_sources start gs
unfolding read_sources read_update_sources
read_update_sources_eq start gs = refl
