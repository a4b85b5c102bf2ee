-- ===== src/Access/Ends.antt =====
-- `setParameterValue` and `unsetParameter`: their redirections end.
use tr069agent.Prelude.{
  ℕ, zero, suc, ◌+◌, ◌<◌, ◌≤◌, ◌≡◌, refl, sym, ap, ◌∙◌, Bool, true, false, not, Option, none, some,
  List, [], ◌∷◌, length, if◌then◌else◌, Bytes, str_eq, arith, Bool-cases, Option-cases, inl, inr,
}
use tr069agent.Parameter.Struct.{Parameter, Engine, save}
use tr069agent.Parameter.Name.{is_node}
use tr069agent.Parameter.Value.{cancel_change, set_value, update_value, mark_being_evaluated}
use tr069agent.Store.Tree.{find_parameter, put_in}
use tr069agent.Access.{
  Manager, Platform, find, engine_at, replace, change, next_name, definition_value,
  load_system_parameter, update_system_value,
}
use tr069agent.Access.Lookup.{find-name}
use tr069agent.Access.Set.{
  Answer, Status, applied_status, set_loaded_value, set_checked_value, marked_set, early_answer,
  redirection, set_parameter_value,
}
use tr069agent.Access.Commit.{unset_parameter}
use tr069agent.Access.Unset.{cancel_change-name}
use tr069agent.Access.Restored.{mark-name}

-- How many parameters pass a test.
abbrev pub count : (Parameter → Bool) → List Parameter → ℕ
count f [] = 0
count f (p ∷ ps) = (if f p then 1 else 0) + count f ps

abbrev pub counted : (Parameter → Bool) → Manager → ℕ
counted f m = count f m.tree.parameters

count-put_in :
    (f : Parameter → Bool) (ps : List Parameter) (q p : Parameter)
    → find_parameter ps q.name ≡ some p
    → count f (put_in ps q) + (if f p then 1 else 0) ≡ count f ps + (if f q then 1 else 0)
unfolding put_in find_parameter
count-put_in f [] q p h = absurd (ground (arith, h))
count-put_in f (x ∷ ps) q p h = elim (Bool-cases (str_eq q.name x.name)) [
  | inl eq ↦ let same : x ≡ p = ground (arith, h, eq) in rw (eq, sym same) (omega arith)
  | inr ne ↦ let ih = count-put_in f ps q p (ground (arith, h, ne)) in rw ne (omega (arith, ih))
]

counted-replace :
    (f : Parameter → Bool) (m : Manager) (n : Bytes) (p : Parameter) (e : Engine)
    → find m n ≡ some p
    → e.param.name ≡ p.name
    → counted f (replace m e) + (if f p then 1 else 0) ≡ counted f m + (if f e.param then 1 else 0)
unfolding replace find
counted-replace f m n p e found same =
    count-put_in f m.tree.parameters e.param p
      (ap (find_parameter m.tree.parameters) (same ∙ find-name m n p found) ∙ found)

abbrev pub is_pending : Parameter → Bool
is_pending p = p.state.change_requested

count-le : (f : Parameter → Bool) (ps : List Parameter) → count f ps ≤ length ps
count-le f [] = omega arith
count-le f (p ∷ ps) = ground (arith, count-le f ps)

-- A round goes on only where a change was pending, and it is pending no more.
unset_parameter-some :
    (pf : Platform) (fuel : ℕ) (m : Manager) (n : Bytes)
    → counted is_pending m < fuel
    → (m' : Manager) × (unset_parameter pf fuel m n ≡ some m')
unfolding unset_parameter cancel_change save engine_at
unset_parameter-some pf zero m n h = absurd (omega (arith, h))
unset_parameter-some pf (suc fuel) m n h = elim (Option-cases (find m n)) [
  | inl missing ↦ (m, ground (arith, missing))
  | inr (p, found) ↦ elim (Bool-cases (is_node p.name)) [
    | inl node ↦ (m, ground (arith, found, node))
    | inr leaf ↦
        let e : Engine = (cancel_change (engine_at m p)).1 in
        let cancelled : Bool = (cancel_change (engine_at m p)).0 in
        elim (Option-cases (if cancelled then next_name pf p else none)) [
          | inl stop ↦ (replace m e, ground (arith, found, leaf, stop))
          | inr (next, go) ↦
              let pending : is_pending p ≡ true = ground (arith, go) in
              let fewer =
                counted-replace is_pending m n p e found (cancel_change-name (engine_at m p)) in
              let free : is_pending e.param ≡ false = ground (arith, pending) in
              let less : counted is_pending (replace m e) < fuel =
                ground (arith, fewer, free, pending, h) in
              let (m', rest) = unset_parameter-some pf fuel (replace m e) next less in
              (m', ground (arith, found, leaf, go, rest))
        ]
  ]
]

-- A cancellation ends whatever the redirections, with a round for each parameter of the list and one
-- more.
pub unset_parameter_ends :
    (pf : Platform) (fuel : ℕ) (m : Manager) (n : Bytes)
    → length m.tree.parameters < fuel
    → (m' : Manager) × (unset_parameter pf fuel m n ≡ some m')
unset_parameter_ends pf fuel m n h =
    unset_parameter-some pf fuel m n (omega (arith, h, count-le is_pending m.tree.parameters))

module _ (f : Parameter → Bool) where
  change-counted :
      (m : Manager) (n : Bytes) (g : Engine → Engine)
      → ((e : Engine) → (g e).param.name ≡ e.param.name)
      → ((e : Engine) → f (g e).param ≡ f e.param)
      → counted f (change m n g) ≡ counted f m
  unfolding change engine_at
  change-counted m n g same keep = elim (Option-cases (find m n)) [
    | inl missing ↦ rw (change, missing) refl
    | inr (p, found) ↦
        let e : Engine = g (engine_at m p) in
        let moved = counted-replace f m n p e found (same (engine_at m p)) in
        let kept = keep (engine_at m p) in
        let counts : counted f (replace m e) ≡ counted f m = ground (arith, moved, kept) in
        rw (change, found) counts
  ]

-- An evaluation finds all it needs loaded.
abbrev pub IsStill : Platform → Type 0
IsStill pf = (m : Manager) (p : Parameter) → (pf.evaluate m p).1 ≡ m

abbrev is_unmarked : Parameter → Bool
is_unmarked p = not p.state.being_evaluated

load_system_parameter-counted :
    (pf : Platform) (m : Manager) (p : Parameter)
    → IsStill pf
    → counted is_unmarked (load_system_parameter pf m p).2 ≡ counted is_unmarked m
unfolding load_system_parameter definition_value update_system_value update_value save
load_system_parameter-counted pf m p still =
    let m' = (definition_value pf m p).1 in
    let argument = (definition_value pf m p).0 in
    let v = (pf.device.read_value p.name argument).1 in
    let same : m' ≡ m = ground (arith, still m p) in
    let kept =
      change-counted is_unmarked m' p.name (update_system_value pf v false) (λ e. refl) (λ e. refl)
      ∙ ap (counted is_unmarked) same in
    ground (arith, kept, ap (counted is_unmarked) same)

set_checked_value-counted :
    (pf : Platform) (m : Manager) (p : Parameter) (v : Option Bytes)
    → IsStill pf
    → counted is_unmarked (set_checked_value pf m p v).2 ≡ counted is_unmarked m
unfolding set_checked_value set_loaded_value set_value save engine_at
set_checked_value-counted pf m p v still =
    let loaded = load_system_parameter-counted pf m p still in
    let m' = (load_system_parameter pf m p).2 in
    elim (Option-cases (find m' p.name)) [
      | inl missing ↦ ground (arith, loaded, missing)
      | inr (q, found) ↦
          let e : Engine = (set_value (engine_at m' q) v).1 in
          let moved : counted is_unmarked (replace m' e) + (if is_unmarked q then 1 else 0)
              ≡ counted is_unmarked m' + (if is_unmarked q then 1 else 0) =
            counted-replace is_unmarked m' p.name q e found refl in
          let kept : counted is_unmarked (replace m' e) ≡ counted is_unmarked m' =
            omega (arith, moved) in
          ground (arith, loaded, found, kept)
    ]

early_answer-marked :
    (pf : Platform) (m : Manager) (entity : ℕ) (n : Bytes) (v : Option Bytes) (status : Status)
    (sys : Option Bytes) (p : Parameter)
    → early_answer pf m entity n v status sys p ≡ none
    → p.state.being_evaluated ≡ false
unfolding early_answer
early_answer-marked pf m entity n v status sys p e = ground (arith, e)

-- The parameter is marked, so there is one fewer without a mark.
marked_set-counted :
    (pf : Platform) (m : Manager) (n : Bytes) (p : Parameter) (v : Option Bytes)
    → IsStill pf
    → find m n ≡ some p
    → p.state.being_evaluated ≡ false
    → counted is_unmarked (marked_set pf m n v p).2 + 1 ≡ counted is_unmarked m
unfolding marked_set change mark_being_evaluated save engine_at
marked_set-counted pf m n p v still found free =
    let e : Engine = mark_being_evaluated (engine_at m p) in
    let at : change m n mark_being_evaluated ≡ replace m e = ground (arith, found) in
    let moved = counted-replace is_unmarked m n p e found (mark-name (engine_at m p)) in
    let set = set_checked_value-counted pf (change m n mark_being_evaluated) e.param v still in
    let marked : counted is_unmarked (change m n mark_being_evaluated) + 1 ≡ counted is_unmarked m =
      ap (λ (x : Manager). counted is_unmarked x + 1) at ∙ ground (arith, moved, free) in
    omega (arith, set, marked)

set_parameter_value-some :
    (pf : Platform) (fuel : ℕ) (m : Manager) (entity : ℕ) (n : Bytes) (v : Option Bytes)
    (status : Status) (sys : Option Bytes)
    → IsStill pf
    → counted is_unmarked m < fuel
    → (a : Answer) × (set_parameter_value pf fuel m entity n v status sys ≡ some a)
unfolding set_parameter_value
set_parameter_value-some pf zero m entity n v status sys still h = absurd (omega (arith, h))
set_parameter_value-some pf (suc fuel) m entity n v status sys still h =
    elim (Option-cases (find m n)) [
      | inl missing ↦ rw (set_parameter_value, missing) (_, refl)
      | inr (p, found) ↦ elim (Option-cases (early_answer pf m entity n v status sys p)) [
        | inr (a, early) ↦ (a, ground (arith, found, early))
        | inl late ↦
            let m' = (marked_set pf m n v p).2 in
            let free = early_answer-marked pf m entity n v status sys p late in
            let fewer = marked_set-counted pf m n p v still found free in
            elim (Option-cases (redirection pf (marked_set pf m n v p).0 p)) [
              | inl stop ↦ rw (set_parameter_value, found, late, stop) (_, refl)
              | inr (next, go) ↦
                  let (a, rest) =
                    set_parameter_value-some pf fuel m' entity next v (applied_status p) (some n)
                      still (omega (arith, fewer, h)) in
                  rw (set_parameter_value, found, late, go, rest) (_, refl)
            ]
      ]
    ]

-- The setting of a value answers whatever the redirections, a loop of them included, with a round for
-- each parameter of the list and one more. Evaluations find all that they need loaded.
pub set_parameter_value_ends :
    (pf : Platform) (fuel : ℕ) (m : Manager) (entity : ℕ) (n : Bytes) (v : Option Bytes)
    (status : Status) (sys : Option Bytes)
    → IsStill pf
    → length m.tree.parameters < fuel
    → (a : Answer) × (set_parameter_value pf fuel m entity n v status sys ≡ some a)
set_parameter_value_ends pf fuel m entity n v status sys still h =
    set_parameter_value-some pf fuel m entity n v status sys still
      (omega (arith, h, count-le is_unmarked m.tree.parameters))
