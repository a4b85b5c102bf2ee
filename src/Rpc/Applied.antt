-- ===== src/Rpc/Applied.antt =====
-- `DM_ENG_SetParameterValues` without a fault: the values are the ones that were given.
use tr069agent.Prelude.{
  ℕ, ◌==◌, ◌≡◌, refl, sym, ◌∙◌, subst, ap, true, false, ◌||◌, Bool, Option, none, some, List, [],
  ◌∷◌, ◌++◌, Bytes, str_eq, str_eq_iff, arith, Option-cases, Bool-cases, inl, inr,
}
use tr069agent.Parameter.Struct.{Parameter, Engine, heap}
use tr069agent.Parameter.Value.{commit, committed}
use tr069agent.Access.{Manager, Platform, entity_system, entity_acs, find, change}
use tr069agent.Access.Set.{Answer, undetermined, set_parameter_value, set_checked_value}
use tr069agent.Access.Commit.{set_parameter_key}
use tr069agent.Access.Lookup.{At, find-name, change-At}
use tr069agent.Access.Restored.{Leaves, set_checked_value-other}
use tr069agent.Access.Given.{
  IsAsked, IsDone, GivesFaults, set_parameter_value-IsAsked, set_parameter_value_asks,
  asked-refused,
}
use tr069agent.Access.Unset.{commit_parameter-At, commit-name}
use tr069agent.Rpc.Values.{
  Setting, Progress, Reply, Fault, set_one, set_each, accepted, refused, set_key, conclude, is_none,
  set_system, set_parameter_values,
}
use tr069agent.Rpc.Atomic.{set_one-manager, started, stages, conclude-step}

-- A text that the request gives a name.
pub data IsGiven (name s : Bytes) : List Setting → Type 0 where
  first :
      {x : Setting} {xs : List Setting} → x.name ≡ name → x.value ≡ some s → IsGiven name s (x ∷ xs)
  later : {x : Setting} {xs : List Setting} → IsGiven name s xs → IsGiven name s (x ∷ xs)

is_none-append : (fs : List Fault) (f : Fault) → is_none (fs ++ f ∷ []) ≡ false
unfolding is_none
is_none-append [] f = refl
is_none-append (g ∷ fs) f = refl

-- A round without a fault: the value was set.
set_one-IsDone :
    (pf : Platform) (fuel entity : ℕ) (g g' : Progress) (x : Setting)
    → GivesFaults pf
    → set_one pf fuel entity g x ≡ some g'
    → is_none g'.faults ≡ true
    → let m = (pf.load g.manager x.name false).1 in
      (g.faults ≡ g'.faults)
      × ((a : Answer) × (set_parameter_value pf fuel m entity x.name x.value undetermined none
            ≡ some a)
          × IsDone a.code
          × (g'.manager ≡ a.manager))
unfolding set_one accepted refused
set_one-IsDone pf fuel entity g g' x gives e clean =
    let m = (pf.load g.manager x.name false).1 in
    let load = (pf.load g.manager x.name false).0 in
    elim (Bool-cases (load == 0)) [
      | inr stop ↦ elim (Bool-cases (load == 1)) [
        | inl one ↦ absurd (ground (arith, one, gives.1 g.manager x.name))
        | inr fault ↦ absurd (
            ground (
              arith,
              e,
              stop,
              fault,
              clean,
              is_none-append g.faults (record { name = x.name; code = load }),
            ))
      ]
      | inl loaded ↦
          elim (Option-cases
            (set_parameter_value pf fuel m entity x.name x.value undetermined none)) [
              | inl empty ↦ absurd (ground (arith, e, loaded, empty))
              | inr (a, r) ↦ elim (Bool-cases (a.code == 0 || a.code == 1)) [
                | inr fault ↦ absurd (
                    ground (
                      arith,
                      e,
                      loaded,
                      r,
                      fault,
                      clean,
                      is_none-append g.faults (record { name = x.name; code = a.code }),
                    ))
                | inl done ↦ (
                  ground (arith, e, loaded, r, done),
                  (a, r, done, ground (arith, e, loaded, r, done)),
                )
              ]
            ]
    ]

set_one-IsAsked :
    (pf : Platform) (fuel entity : ℕ) (g g' : Progress) (x : Setting) (name s : Bytes)
    → (entity == entity_system) ≡ false
    → Leaves pf name
    → At (IsAsked s) g.manager name
    → set_one pf fuel entity g x ≡ some g'
    → At (IsAsked s) g'.manager name
set_one-IsAsked pf fuel entity g g' x name s out leaves h e =
    let m = (pf.load g.manager x.name false).1 in
    let loaded : At (IsAsked s) m name = λ q f. h q (sym (leaves.1 g.manager x.name false) ∙ f) in
    elim (set_one-manager pf fuel entity g g' x e) [
      | inl same ↦ subst (λ (y : Manager). At (IsAsked s) y name) (sym same) loaded
      | inr (a, r, same) ↦
          subst (λ (y : Manager). At (IsAsked s) y name) (sym same)
            (set_parameter_value-IsAsked pf fuel m entity x.name name s x.value undetermined none a
              out leaves loaded r)
    ]

set_each-IsAsked :
    (pf : Platform) (fuel entity : ℕ) (g g' : Progress) (xs : List Setting) (name s : Bytes)
    → (entity == entity_system) ≡ false
    → Leaves pf name
    → At (IsAsked s) g.manager name
    → set_each pf fuel entity g xs ≡ some g'
    → At (IsAsked s) g'.manager name
unfolding set_each
set_each-IsAsked pf fuel entity g g' [] name s out leaves h e =
    let same : g ≡ g' = ground (arith, e) in
    subst (λ (y : Progress). At (IsAsked s) y.manager name) same h
set_each-IsAsked pf fuel entity g g' (x ∷ xs) name s out leaves h e =
    elim (Option-cases (set_one pf fuel entity g x)) [
      | inl empty ↦ absurd (ground (arith, e, empty))
      | inr (g₁, one) ↦
          set_each-IsAsked pf fuel entity g₁ g' xs name s out leaves
            (set_one-IsAsked pf fuel entity g g₁ x name s out leaves h one) (ground (arith, e, one))
    ]

-- Faults stay.
set_each-clean :
    (pf : Platform) (fuel entity : ℕ) (g g' : Progress) (xs : List Setting)
    → GivesFaults pf
    → set_each pf fuel entity g xs ≡ some g'
    → is_none g'.faults ≡ true
    → is_none g.faults ≡ true
unfolding set_each
set_each-clean pf fuel entity g g' [] gives e clean = ground (arith, e, clean)
set_each-clean pf fuel entity g g' (x ∷ xs) gives e clean =
    elim (Option-cases (set_one pf fuel entity g x)) [
      | inl empty ↦ absurd (ground (arith, e, empty))
      | inr (g₁, one) ↦
          let next : is_none g₁.faults ≡ true =
            set_each-clean pf fuel entity g₁ g' xs gives (ground (arith, e, one)) clean in
          let same = (set_one-IsDone pf fuel entity g g₁ x gives one next).0 in
          ap is_none same ∙ next
    ]

set_each-given :
    (pf : Platform) (fuel entity : ℕ) (g g' : Progress) (xs : List Setting) (name s : Bytes)
    → (entity == entity_system) ≡ false
    → Leaves pf name
    → GivesFaults pf
    → IsGiven name s xs
    → set_each pf fuel entity g xs ≡ some g'
    → is_none g'.faults ≡ true
    → At (IsAsked s) g'.manager name
unfolding set_each
set_each-given pf fuel entity g g' [] name s out leaves gives given e clean = elim given [ ]
set_each-given pf fuel entity g g' (x ∷ xs) name s out leaves gives given e clean =
    elim (Option-cases (set_one pf fuel entity g x)) [
      | inl empty ↦ absurd (ground (arith, e, empty))
      | inr (g₁, one) ↦
          let rest : set_each pf fuel entity g₁ xs ≡ some g' = ground (arith, e, one) in
          elim given [
            | later there ↦
                set_each-given pf fuel entity g₁ g' xs name s out leaves gives there rest clean
            | first named valued ↦
                let m = (pf.load g.manager x.name false).1 in
                let (a, r, done, at) =
                  (set_one-IsDone pf fuel entity g g₁ x gives one
                    (set_each-clean pf fuel entity g₁ g' xs gives rest clean)).1 in
                let answered : set_parameter_value pf fuel m entity name (some s) undetermined none
                    ≡ some a =
                  subst
                    (λ (w : Option Bytes).
                      set_parameter_value pf fuel m entity name w undetermined none ≡ some a)
                    valued
                    (subst
                      (λ (n : Bytes).
                        set_parameter_value pf fuel m entity n x.value undetermined none ≡ some a)
                      named r) in
                let asked =
                  set_parameter_value_asks pf fuel m entity name s undetermined none a out leaves
                    gives answered done in
                set_each-IsAsked pf fuel entity g₁ g' xs name s out leaves
                  (subst (λ (y : Manager). At (IsAsked s) y name) (sym at) asked) rest
          ]
    ]

abbrev HasText : Bytes → Parameter → Type 0
HasText s p = p.value ≡ heap s

commit-HasText :
    (device_status s : Bytes) (e : Engine)
    → HasText s e.param
    → HasText s (commit device_status e).param
unfolding commit committed
commit-HasText d s e h = h

-- The key of the ACS is refused at a parameter whose change is requested.
set_key-HasText :
    (pf : Platform) (entity : ℕ) (m m' : Manager) (key : Option Bytes) (name s : Bytes)
    → Leaves pf name
    → At (IsAsked s) m name
    → set_key pf entity true m key ≡ some m'
    → At (HasText s) m' name
unfolding set_key set_parameter_key set_checked_value
set_key-HasText pf entity m m' none name s leaves h e =
    let same : m ≡ m' = ground (arith, e) in λ p f. (h p (ap (λ y. find y name) same ∙ f)).1
set_key-HasText pf entity m m' (some k) name s leaves h e =
    elim (Bool-cases (entity == entity_acs)) [
      | inr other ↦
          let same : m ≡ m' = ground (arith, e, other) in
          λ p f. (h p (ap (λ y. find y name) same ∙ f)).1
      | inl acs ↦ elim (Option-cases (find m pf.names.parameter_key)) [
        | inl missing ↦ absurd (ground (arith, e, acs, missing))
        | inr (p, found) ↦
            let m₁ = (set_checked_value pf m p (some k)).2 in
            let named = find-name m pf.names.parameter_key p found in
            let kept : At (IsAsked s) m₁ name = elim (Bool-cases (str_eq name p.name)) [
              | inr ne ↦
                  λ q f. h q (sym (set_checked_value-other pf m p (some k) name leaves ne) ∙ f)
              | inl eq ↦
                  let at = (str_eq_iff name p.name).0 eq ∙ named in
                  rw
                    (
                      set_checked_value,
                      asked-refused pf s p (some k) (h p (ap (find m) at ∙ found)),
                    )
                    h
            ] in
            let last : change m₁ pf.names.parameter_key (commit pf.names.device_status) ≡ m' =
              ground (arith, e, acs, found) in
            subst (λ (y : Manager). At (HasText s) y name) last
              (change-At (HasText s) m₁ pf.names.parameter_key name (commit pf.names.device_status)
                (commit-name pf.names.device_status) (commit-HasText pf.names.device_status s)
                (λ q f. (kept q f).1))
      ]
    ]

conclude-HasText :
    (pf : Platform) (fuel : ℕ) (m m' : Manager) (xs : List Setting) (name s : Bytes)
    → At (HasText s) m name
    → conclude pf fuel true m xs ≡ some m'
    → At (HasText s) m' name
unfolding conclude
conclude-HasText pf fuel m m' [] name s h e =
    let same : m ≡ m' = ground (arith, e) in subst (λ (y : Manager). At (HasText s) y name) same h
conclude-HasText pf fuel m m' (x ∷ xs) name s h e =
    let (m₁, one, rest) = conclude-step pf fuel true m m' x xs e in
    conclude-HasText pf fuel m₁ m' xs name s
      (commit_parameter-At (HasText s) pf fuel m m₁ x.name name
        (commit-HasText pf.names.device_status s) one h)
      rest

-- When an entity other than the system calls and the answer is no fault, each parameter that the call
-- gives a text has that text as its value behind it. Evaluations and loads leave the parameter as it
-- is, and the device and the load of names answer with 0 or a fault code.
pub set_parameter_values_applied :
    (pf : Platform) (fuel : ℕ) (m : Manager) (entity : ℕ) (xs : List Setting) (key : Option Bytes)
    (r : Reply) (name s : Bytes)
    → (entity == entity_system) ≡ false
    → Leaves pf name
    → GivesFaults pf
    → IsGiven name s xs
    → set_parameter_values pf fuel m entity xs key ≡ some r
    → r.code ≡ 0
    → At (λ p. p.value ≡ heap s) r.manager name
unfolding set_system
set_parameter_values_applied pf fuel m entity xs key r name s out leaves gives given e ok =
    let (g, m₁, set, keyed, done, code) = stages pf fuel m entity xs key r e in
    let success : is_none (set_system pf g) ≡ true = ground (arith, code, ok) in
    let clean : is_none g.faults ≡ true = ground (arith, success) in
    let asked =
      set_each-given pf fuel entity (started m) g xs name s out leaves gives given set clean in
    let keyed' : set_key pf entity true g.manager key ≡ some m₁ =
      subst (λ (b : Bool). set_key pf entity b g.manager key ≡ some m₁) success keyed in
    let done' : conclude pf fuel true m₁ xs ≡ some r.manager =
      subst (λ (b : Bool). conclude pf fuel b m₁ xs ≡ some r.manager) success done in
    conclude-HasText pf fuel m₁ r.manager xs name s
      (set_key-HasText pf entity g.manager m₁ key name s leaves asked keyed') done'
