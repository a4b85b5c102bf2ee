-- ===== src/Rpc/Atomic.antt =====
-- `DM_ENG_SetParameterValues`: all values are set, or none.
use tr069agent.Prelude.{
  ℕ, ◌==◌, ◌≡◌, ◌≢◌, ◌⊎◌, refl, sym, ◌∙◌, subst, ap, true, false, Bool, Option, none, some, List,
  [], ◌∷◌, if◌then◌else◌, Bytes, arith, Option-cases, Bool-cases, inl, inr,
}
use tr069agent.Parameter.Struct.{Parameter, invalid_arguments}
use tr069agent.Parameter.Name.{is_node}
use tr069agent.Access.{Manager, Platform, entity_system, find, is_missing}
use tr069agent.Access.Set.{Answer, undetermined, set_parameter_value}
use tr069agent.Access.Commit.{unset_parameter, commit_parameter}
use tr069agent.Access.Lookup.{At}
use tr069agent.Access.Restored.{HasValue, Leaves, set_parameter_value-HasValue}
use tr069agent.Access.Unset.{
  IsSettled, cancel_change-HasValue, cancel_change-IsSettled, commit-IsSettled, unset_parameter-At,
  unset_parameter-IsSettled, commit_parameter-At, commit_parameter-IsSettled,
}
use tr069agent.Rpc.Values.{
  Setting, Progress, Reply, set_one, set_each, accepted, refused, set_key, conclude, is_none,
  set_system, set_parameter_values,
}

-- A name of the request.
pub data IsListed (name : Bytes) : List Setting → Type 0 where
  first : {s : Setting} {ss : List Setting} → s.name ≡ name → IsListed name (s ∷ ss)
  later : {s : Setting} {ss : List Setting} → IsListed name ss → IsListed name (s ∷ ss)

accepted-manager : (g : Progress) (s : Setting) (a : Answer) → (accepted g s a).manager ≡ a.manager
unfolding accepted
accepted-manager g s a = refl

pub set_one-manager :
    (pf : Platform) (fuel entity : ℕ) (g g' : Progress) (s : Setting)
    → set_one pf fuel entity g s ≡ some g'
    → let m = (pf.load g.manager s.name false).1 in
      (g'.manager ≡ m)
      ⊎ ((a : Answer) × (set_parameter_value pf fuel m entity s.name s.value undetermined none
            ≡ some a)
          × (g'.manager ≡ a.manager))
unfolding set_one accepted refused
set_one-manager pf fuel entity g g' s e =
    let m = (pf.load g.manager s.name false).1 in
    elim (Bool-cases ((pf.load g.manager s.name false).0 == 0)) [
      | inr stop ↦ inl (ground (arith, e, stop))
      | inl loaded ↦
          elim (Option-cases
            (set_parameter_value pf fuel m entity s.name s.value undetermined none)) [
              | inl empty ↦ absurd (ground (arith, e, loaded, empty))
              | inr (a, r) ↦ inr (a, r, ground (arith, e, loaded, r))
            ]
    ]

set_each-HasValue :
    (pf : Platform) (fuel entity : ℕ) (g g' : Progress) (ss : List Setting) (name : Bytes)
    (p₀ : Parameter)
    → (entity == entity_system) ≡ false
    → Leaves pf name
    → is_missing p₀ ≡ false
    → At (HasValue p₀) g.manager name
    → set_each pf fuel entity g ss ≡ some g'
    → At (HasValue p₀) g'.manager name
unfolding set_each
set_each-HasValue pf fuel entity g g' [] name p₀ out leaves here h e =
    let same : g ≡ g' = ground (arith, e) in
    subst (λ (x : Progress). At (HasValue p₀) x.manager name) same h
set_each-HasValue pf fuel entity g g' (s ∷ ss) name p₀ out leaves here h e =
    elim (Option-cases (set_one pf fuel entity g s)) [
      | inl empty ↦ absurd (ground (arith, e, empty))
      | inr (g₁, one) ↦
          let m = (pf.load g.manager s.name false).1 in
          let loaded : At (HasValue p₀) m name =
            λ q f. h q (sym (leaves.1 g.manager s.name false) ∙ f) in
          let next : At (HasValue p₀) g₁.manager name =
            elim (set_one-manager pf fuel entity g g₁ s one) [
              | inl same ↦ subst (λ (x : Manager). At (HasValue p₀) x name) (sym same) loaded
              | inr (a, r, same) ↦
                  subst (λ (x : Manager). At (HasValue p₀) x name) (sym same)
                    (set_parameter_value-HasValue pf fuel m entity s.name name s.value undetermined
                      none p₀ a out leaves here loaded r)
            ] in
          set_each-HasValue pf fuel entity g₁ g' ss name p₀ out leaves here next
            (ground (arith, e, one))
    ]

pub conclude-step :
    (pf : Platform) (fuel : ℕ) (success : Bool) (m m' : Manager) (s : Setting) (ss : List Setting)
    → conclude pf fuel success m (s ∷ ss) ≡ some m'
    → (m₁ : Manager) × ((if success
          then commit_parameter pf fuel m s.name
          else unset_parameter pf fuel m s.name)
        ≡ some m₁)
      × (conclude pf fuel success m₁ ss ≡ some m')
unfolding conclude
conclude-step pf fuel success m m' s ss e =
    elim (Option-cases
      (if success then commit_parameter pf fuel m s.name else unset_parameter pf fuel m s.name)) [
        | inl empty ↦ absurd (ground (arith, e, empty))
        | inr (m₁, one) ↦ (m₁, one, ground (arith, e, one))
      ]

conclude-HasValue :
    (pf : Platform) (fuel : ℕ) (m m' : Manager) (ss : List Setting) (name : Bytes) (p₀ : Parameter)
    → At (HasValue p₀) m name
    → conclude pf fuel false m ss ≡ some m'
    → At (HasValue p₀) m' name
unfolding conclude
conclude-HasValue pf fuel m m' [] name p₀ h e =
    let same : m ≡ m' = ground (arith, e) in subst (λ (x : Manager). At (HasValue p₀) x name) same h
conclude-HasValue pf fuel m m' (s ∷ ss) name p₀ h e =
    let (m₁, one, rest) = conclude-step pf fuel false m m' s ss e in
    conclude-HasValue pf fuel m₁ m' ss name p₀
      (unset_parameter-At (HasValue p₀) pf fuel m m₁ s.name name (cancel_change-HasValue p₀) one h)
      rest

conclude-kept :
    (pf : Platform) (fuel : ℕ) (success : Bool) (m m' : Manager) (ss : List Setting) (name : Bytes)
    → At IsSettled m name
    → conclude pf fuel success m ss ≡ some m'
    → At IsSettled m' name
unfolding conclude
conclude-kept pf fuel success m m' [] name h e =
    let same : m ≡ m' = ground (arith, e) in subst (λ (x : Manager). At IsSettled x name) same h
conclude-kept pf fuel true m m' (s ∷ ss) name h e =
    let (m₁, one, rest) = conclude-step pf fuel true m m' s ss e in
    conclude-kept pf fuel true m₁ m' ss name
      (commit_parameter-At IsSettled pf fuel m m₁ s.name name
        (λ x k. commit-IsSettled pf.names.device_status x) one h)
      rest
conclude-kept pf fuel false m m' (s ∷ ss) name h e =
    let (m₁, one, rest) = conclude-step pf fuel false m m' s ss e in
    conclude-kept pf fuel false m₁ m' ss name
      (unset_parameter-At IsSettled pf fuel m m₁ s.name name (λ x k. cancel_change-IsSettled x) one
        h)
      rest

conclude-IsSettled :
    (pf : Platform) (fuel : ℕ) (success : Bool) (m m' : Manager) (ss : List Setting) (name : Bytes)
    → is_node name ≡ false
    → IsListed name ss
    → conclude pf fuel success m ss ≡ some m'
    → At IsSettled m' name
conclude-IsSettled pf fuel success m m' [] name leaf listed e = elim listed [ ]
conclude-IsSettled pf fuel true m m' (s ∷ ss) name leaf (first same) e =
    let (m₁, one, rest) = conclude-step pf fuel true m m' s ss e in
    conclude-kept pf fuel true m₁ m' ss name
      (subst (At IsSettled m₁) same
        (commit_parameter-IsSettled pf fuel m m₁ s.name (ap is_node same ∙ leaf) one))
      rest
conclude-IsSettled pf fuel false m m' (s ∷ ss) name leaf (first same) e =
    let (m₁, one, rest) = conclude-step pf fuel false m m' s ss e in
    conclude-kept pf fuel false m₁ m' ss name
      (subst (At IsSettled m₁) same
        (unset_parameter-IsSettled pf fuel m m₁ s.name (ap is_node same ∙ leaf) one))
      rest
conclude-IsSettled pf fuel success m m' (s ∷ ss) name leaf (later there) e =
    let (m₁, one, rest) = conclude-step pf fuel success m m' s ss e in
    conclude-IsSettled pf fuel success m₁ m' ss name leaf there rest

abbrev pub started : Manager → Progress
started m = record { manager = m; status = undetermined; faults = []; system_values = [] }

-- The three parts of the function.
abbrev pub Stages : Platform → ℕ → Manager → ℕ → List Setting → Option Bytes → Reply → Type 0
Stages pf fuel m entity ss key r =
    (g : Progress) × (m₁ : Manager) × (set_each pf fuel entity (started m) ss ≡ some g)
    × (set_key pf entity (is_none (set_system pf g)) g.manager key ≡ some m₁)
    × (conclude pf fuel (is_none (set_system pf g)) m₁ ss ≡ some r.manager)
    × (r.code ≡ (if is_none (set_system pf g) then 0 else invalid_arguments))

pub stages :
    (pf : Platform) (fuel : ℕ) (m : Manager) (entity : ℕ) (ss : List Setting) (key : Option Bytes)
    (r : Reply)
    → set_parameter_values pf fuel m entity ss key ≡ some r
    → Stages pf fuel m entity ss key r
unfolding set_parameter_values
stages pf fuel m entity ss key r e = elim (Option-cases (set_each pf fuel entity (started m) ss)) [
  | inl empty ↦ absurd (ground (arith, e, empty))
  | inr (g, set) ↦
      elim (Option-cases (set_key pf entity (is_none (set_system pf g)) g.manager key)) [
        | inl empty ↦ absurd (ground (arith, e, set, empty))
        | inr (m₁, keyed) ↦
            elim (Option-cases (conclude pf fuel (is_none (set_system pf g)) m₁ ss)) [
              | inl empty ↦ absurd (ground (arith, e, set, keyed, empty))
              | inr (m₂, done) ↦ (
                g,
                m₁,
                set,
                keyed,
                done ∙ ground (arith, e, set, keyed, done),
                ground (arith, e, set, keyed, done),
              )
            ]
      ]
]

HasValue-settled : (p₀ p : Parameter) → HasValue p₀ p → IsSettled p → p.value ≡ p₀.value
HasValue-settled p₀ p (mode, inl (free, same)) s = same
HasValue-settled p₀ p (mode, inr (pending, back)) s = absurd (ground (arith, pending, s))

-- When an entity other than the system calls and the call returns, with faults or without, no change is
-- pending at a parameter that it names, other than an object.
pub set_parameter_values-IsSettled :
    (pf : Platform) (fuel : ℕ) (m : Manager) (entity : ℕ) (ss : List Setting) (key : Option Bytes)
    (r : Reply) (name : Bytes)
    → (entity == entity_system) ≡ false
    → is_node name ≡ false
    → IsListed name ss
    → set_parameter_values pf fuel m entity ss key ≡ some r
    → At IsSettled r.manager name
set_parameter_values-IsSettled pf fuel m entity ss key r name out leaf listed e =
    let (g, m₁, set, keyed, done, code) = stages pf fuel m entity ss key r e in
    conclude-IsSettled pf fuel (is_none (set_system pf g)) m₁ r.manager ss name leaf listed done

-- When an entity other than the system calls and the answer is a fault, each parameter that the call
-- names, other than an object, has the value it had, and no change is pending there; the same holds
-- of any other parameter, such as one that a redirection leads to, if no change is pending there. At
-- the parameter no change was pending before, its value was not missing, and evaluations and loads
-- leave it as it is.
pub set_parameter_values_atomic :
    (pf : Platform) (fuel : ℕ) (m : Manager) (entity : ℕ) (ss : List Setting) (key : Option Bytes)
    (r : Reply) (name : Bytes) (p₀ : Parameter)
    → (entity == entity_system) ≡ false
    → Leaves pf name
    → find m name ≡ some p₀
    → IsSettled p₀
    → is_missing p₀ ≡ false
    → is_node name ≡ false
    → set_parameter_values pf fuel m entity ss key ≡ some r
    → r.code ≢ 0
    → (IsListed name ss → At (λ p. IsSettled p × (p.value ≡ p₀.value)) r.manager name)
      × At (λ p. IsSettled p → p.value ≡ p₀.value) r.manager name
unfolding set_key
set_parameter_values_atomic pf fuel m entity ss key r name p₀ out leaves found free here leaf e
      fault =
    let (g, m₁, set, keyed, done, code) = stages pf fuel m entity ss key r e in
    let failed : is_none (set_system pf g) ≡ false = ground (arith, code, fault) in
    let before : At (HasValue p₀) m name = λ q f.
      let same : p₀ ≡ q = ground (arith, found, f) in
      subst (HasValue p₀) same (refl, inl (free, refl)) in
    let after =
      set_each-HasValue pf fuel entity (started m) g ss name p₀ out leaves here before set in
    let same : g.manager ≡ m₁ = ground (arith, keyed, failed) in
    let concluded : conclude pf fuel false m₁ ss ≡ some r.manager =
      subst (λ (b : Bool). conclude pf fuel b m₁ ss ≡ some r.manager) failed done in
    let kept =
      conclude-HasValue pf fuel m₁ r.manager ss name p₀
        (subst (λ (x : Manager). At (HasValue p₀) x name) same after) concluded in
    let value : At (λ p. IsSettled p → p.value ≡ p₀.value) r.manager name =
      λ p f s. HasValue-settled p₀ p (kept p f) s in
    (
      λ listed p f.
          let settled =
            set_parameter_values-IsSettled pf fuel m entity ss key r name out leaf listed e p f in
          (settled, value p f settled),
      value,
    )
