-- ===== src/Rpc/Levels.antt =====
-- `DM_ENG_GetParameterNames`: the next level of a path, and the visible parameters.
use mathlib.Core.List.{Memᴰ}
use tr069agent.Prelude.{
  ℕ, ◌==◌, ◌≡◌, ◌≢◌, ◌↔◌, ◌⊎◌, refl, sym, ap, ◌∙◌, subst, Bool, true, false, some, List, [], ◌∷◌,
  ◌++◌, drop, length, Bytes, arith, Bool-cases, inl, inr, All,
}
use tr069agent.Parameter.Struct.{Parameter}
use tr069agent.Parameter.Name.{starts_with, has_two_dots}
use tr069agent.Access.{Manager, Platform, is_hidden}
use tr069agent.Rpc.Read.{
  got, Info, info_of, ends_level, is_next_level, is_under, is_named, names_under, loaded_names,
  load_unless_system, get_parameter_names,
}

abbrev pub NoDot : Bytes → Type 0
NoDot = All (λ c. (c == b'.') ≡ false)

-- One step below the path: a name without a dot, with a dot behind it if it is an object.
abbrev pub IsStep : Bytes → Type 0
IsStep s =
    (step : Bytes) × (end : Bytes) × (s ≡ step ++ end)
    × NoDot step
    × ((end ≡ []) ⊎ (end ≡ b'.' ∷ []))
    × (s ≢ [])

ends_level-IsStep : (c : ℕ) (cs : Bytes) → ends_level (c ∷ cs) ≡ true → IsStep (c ∷ cs)
unfolding ends_level
ends_level-IsStep c [] h = elim (Bool-cases (c == b'.')) [
  | inl dot ↦
      ([], c ∷ [], refl, tt, inr (ap (λ (d : ℕ). d ∷ []) (ground (arith, dot))), λ e. ground arith)
  | inr other ↦ (c ∷ [], [], refl, (other, tt), inl refl, λ e. ground arith)
]
ends_level-IsStep c (d ∷ cs) h = elim (Bool-cases (c == b'.')) [
  | inl dot ↦ absurd (ground (arith, dot, h))
  | inr other ↦
      let (step, end, e, plain, tail, _) = ends_level-IsStep d cs (ground (arith, other, h)) in
      (c ∷ step, end, ap (λ s. c ∷ s) e, (other, plain), tail, λ e. ground arith)
]

step-ends_level :
    (step end : Bytes)
    → NoDot step
    → (end ≡ []) ⊎ (end ≡ b'.' ∷ [])
    → ends_level (step ++ end) ≡ true
unfolding ends_level
step-ends_level [] end plain (inl e) = rw e refl
step-ends_level [] end plain (inr e) = rw e refl
step-ends_level (c ∷ []) end plain (inl e) = rw e refl
step-ends_level (c ∷ []) end plain (inr e) = rw (e, plain.0) refl
step-ends_level (c ∷ d ∷ step) end plain tail =
    rw plain.0 (step-ends_level (d ∷ step) end plain.1 tail)

is_next_level_iff : (s : Bytes) → (is_next_level s ≡ true) ↔ IsStep s
unfolding is_next_level
is_next_level_iff [] = (λ h. absurd (ground (arith, h)), λ (_, _, _, _, _, ne). absurd (ne refl))
is_next_level_iff (c ∷ cs) = (
  λ h. ends_level-IsStep c cs h,
  λ (step, end, e, plain, tail, ne). ap ends_level e ∙ step-ends_level step end plain tail,
)

starts_with_iff :
    (path name : Bytes) → (starts_with path name ≡ true) ↔ (name ≡ path ++ drop (length path) name)
unfolding starts_with
starts_with_iff [] name = (λ h. refl, λ e. refl)
starts_with_iff (c ∷ path) [] = (λ h. absurd (ground (arith, h)), λ e. absurd (ground (arith, e)))
starts_with_iff (c ∷ path) (d ∷ name) = (
  λ h.
      let same : d ≡ c = ground (arith, h) in
      let rest = (starts_with_iff path name).0 (ground (arith, h)) in
      ap (λ (x : ℕ). x ∷ name) same ∙ ap (λ s. c ∷ s) rest,
  λ e. let rest = (starts_with_iff path name).1 (ground (arith, e)) in ground (arith, e, rest),
)

-- A parameter or an object one step below the path, not of a prototype, and not hidden.
abbrev pub IsChild : Bytes → Parameter → Type 0
IsChild path p =
    ((rest : Bytes) × (p.name ≡ path ++ rest) × IsStep rest)
    × (has_two_dots p.name ≡ false)
    × (is_hidden p ≡ false)

drop-append : (xs ys : Bytes) → drop (length xs) (xs ++ ys) ≡ ys
drop-append [] ys = refl
drop-append (x ∷ xs) ys = drop-append xs ys

is_named_iff : (path : Bytes) (p : Parameter) → (is_named path true p ≡ true) ↔ IsChild path p
unfolding is_named is_under
is_named_iff path p = (
  λ h.
      let under : starts_with path p.name ≡ true = ground (arith, h) in
      let level : is_next_level (drop (length path) p.name) ≡ true = ground (arith, h) in
      (
        (
          drop (length path) p.name,
          (starts_with_iff path p.name).0 under,
          (is_next_level_iff (drop (length path) p.name)).0 level,
        ),
        ground (arith, h),
        ground (arith, h),
      ),
  λ ((rest, e, step), dots, hidden).
      let same : drop (length path) p.name ≡ rest =
        ap (drop (length path)) e ∙ drop-append path rest in
      let under = (starts_with_iff path p.name).1 (e ∙ ap (λ s. path ++ s) (sym same)) in
      let level = ap is_next_level same ∙ (is_next_level_iff rest).1 step in
      ground (arith, under, level, dots, hidden),
)

names_under-Memᴰ :
    (path : Bytes) (next_level : Bool) (ps : List Parameter) (i : Info)
    → Memᴰ i (names_under path next_level ps)
      ↔ ((p : Parameter) × Memᴰ p ps × (is_named path next_level p ≡ true) × (i ≡ info_of p))
unfolding names_under
names_under-Memᴰ path next_level [] i = (λ h. elim h [ ], λ (p, m, _, _). elim m [ ])
names_under-Memᴰ path next_level (q ∷ ps) i =
    let ih = names_under-Memᴰ path next_level ps i in
    elim (Bool-cases (is_named path next_level q)) [
      | inl named ↦ rw named (
        λ h. elim h [
          | Memᴰ.head e ↦ (q, Memᴰ.head refl, named, e)
          | Memᴰ.tail t ↦ let (p, there, k, e) = ih.0 t in (p, Memᴰ.tail there, k, e)
        ],
        λ (p, there, k, e). elim there [
          | Memᴰ.head same ↦ Memᴰ.head (e ∙ ap info_of same)
          | Memᴰ.tail t ↦ Memᴰ.tail (ih.1 (p, t, k, e))
        ],
      )
      | inr other ↦ rw other (
        λ t. let (p, there, k, e) = ih.0 t in (p, Memᴰ.tail there, k, e),
        λ (p, there, k, e). elim there [
          | Memᴰ.head same ↦
              let clash : is_named path next_level q ≡ true =
                ap (is_named path next_level) (sym same) ∙ k in
              absurd (ground (arith, clash, other))
          | Memᴰ.tail t ↦ ih.1 (p, t, k, e)
        ],
      )
    ]

loaded_names-under :
    (m : Manager) (path : Bytes) (infos : List Info)
    → loaded_names m path true ≡ got infos
    → names_under path true m.tree.parameters ≡ infos
unfolding loaded_names
loaded_names-under m [] infos e = ground (arith, e)
loaded_names-under m (c ∷ cs) infos e = ground (arith, e)

-- The names of the next level, where the answer is no fault, are exactly those of the parameters and
-- objects of the list that stand one step below the path, with a text without a dot that may have a dot
-- behind it, are not those of a prototype and are not hidden; each with the mark of its
-- parameter. The list is the one behind the load of the path.
pub get_parameter_names-IsChild :
    (pf : Platform) (m : Manager) (entity : ℕ) (path : Bytes) (infos : List Info) (i : Info)
    → (get_parameter_names pf m entity (some path) true).0 ≡ got infos
    → Memᴰ i infos ↔ (
        (p : Parameter) × Memᴰ p
          (get_parameter_names pf m entity (some path) true).1.tree.parameters
        × IsChild path p
        × (i ≡ info_of p))
unfolding get_parameter_names
get_parameter_names-IsChild pf m entity path infos i e =
    let m' = (load_unless_system pf m entity path false).1 in
    let code = (load_unless_system pf m entity path false).0 in
    elim (Bool-cases (code == 0)) [
      | inr fault ↦ absurd (ground (arith, e, fault))
      | inl loaded ↦
          let read : loaded_names m' path true ≡ got infos = ground (arith, e, loaded) in
          let same = loaded_names-under m' path infos read in
          let at : (get_parameter_names pf m entity (some path) true).1 ≡ m' =
            ground (arith, loaded) in
          let all = names_under-Memᴰ path true m'.tree.parameters i in
          subst
            (λ (y : Manager).
              Memᴰ i infos
              ↔ ((p : Parameter) × Memᴰ p y.tree.parameters × IsChild path p × (i ≡ info_of p)))
            (sym at)
            (
              λ h.
                  let (p, there, named, eq) = all.0 (subst (Memᴰ i) (sym same) h) in
                  (p, there, (is_named_iff path p).0 named, eq),
              λ (p, there, child, eq).
                  subst (Memᴰ i) same (all.1 (p, there, (is_named_iff path p).1 child, eq)),
            )
    ]
