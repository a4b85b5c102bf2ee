-- ===== src/Access/Given.antt =====
-- `setParameterValue`: the value that is given is the one behind the call.
use tr069agent.Prelude.{
  ℕ, zero, suc, ◌==◌, ◌≡◌, ◌≢◌, refl, sym, ◌∙◌, ap, subst, Bool, true, false, ◌||◌, Option, some,
  Bytes, str_eq, str_eq_iff, str_eq_refl, arith, Option-cases, Bool-cases, inl, inr,
}
use tr069agent.Parameter.Struct.{Parameter, Engine, save, heap, strdup}
use tr069agent.Parameter.Value.{set_value, mark_being_evaluated, unmark_being_evaluated}
use tr069agent.Parameter.Check.{check_before_set_value}
use tr069agent.Access.{
  Manager, Platform, find, engine_at, replace, change, is_missing, definition_value,
  load_system_parameter, update_system_value, entity_system,
}
use tr069agent.Access.Set.{
  set_loaded_value, set_checked_value, Answer, Status, applied_status, unmarked, early_answer,
  marked_set, redirection, set_parameter_value,
}
use tr069agent.Access.Lookup.{At, find-replace, find-name, find-change_same, change-At}
use tr069agent.Access.Recursion.{set_parameter_value-At, unmark-name}
use tr069agent.Access.Restored.{
  Leaves, definition_value-find, update_system_value-name, set_checked_value-other, mark-name,
}

-- The text is the value, and its change is requested.
abbrev pub IsAsked : Bytes → Parameter → Type 0
IsAsked s p = (p.state.change_requested ≡ true) × (p.value ≡ heap s)

-- The device, and the load of names, give 0 or a fault code, never the 1 that the engine uses itself.
abbrev pub GivesFaults : Platform → Type 0
GivesFaults pf =
    ((n : Bytes) (argument : Option Bytes) → (pf.device.read_value n argument).0 ≢ 1)
    × ((m : Manager) (n : Bytes) → (pf.load m n false).0 ≢ 1)

mark-IsAsked :
    (s : Bytes) (e : Engine) → IsAsked s e.param → IsAsked s (mark_being_evaluated e).param
unfolding mark_being_evaluated save
mark-IsAsked s e h = h

unmark-IsAsked :
    (s : Bytes) (e : Engine) → IsAsked s e.param → IsAsked s (unmark_being_evaluated e).param
unfolding unmark_being_evaluated save
unmark-IsAsked s e h = h

pub asked-refused :
    (pf : Platform) (s : Bytes) (p : Parameter) (v : Option Bytes)
    → IsAsked s p
    → (check_before_set_value pf.is_date_string p v == 0) ≡ false
unfolding check_before_set_value
asked-refused pf s p v h = rw h.0 refl

-- A second value is refused while the change is requested.
marked_set-IsAsked :
    (pf : Platform) (name : Bytes) (s : Bytes)
    → Leaves pf name
    → (m : Manager) (n : Bytes) (p : Parameter) (v : Option Bytes) → find m n ≡ some p
    → At (IsAsked s) m name
    → At (IsAsked s) (marked_set pf m n v p).2 name
unfolding marked_set set_checked_value engine_at
marked_set-IsAsked pf name s leaves m n p v found h =
    let q : Parameter = (mark_being_evaluated (engine_at m p)).param in
    let m' = change m n mark_being_evaluated in
    let marked = change-At (IsAsked s) m n name mark_being_evaluated mark-name (mark-IsAsked s) h in
    let named : q.name ≡ n = mark-name (engine_at m p) ∙ find-name m n p found in
    elim (Bool-cases (str_eq name q.name)) [
      | inl eq ↦
          let same : n ≡ name = sym ((str_eq_iff name q.name).0 eq ∙ named) in
          let asked = mark-IsAsked s (engine_at m p) (h p (ap (find m) (sym same) ∙ found)) in
          rw (set_checked_value, asked-refused pf s q v asked) marked
      | inr ne ↦ λ x f. marked x (sym (set_checked_value-other pf m' q v name leaves ne) ∙ f)
    ]

pub set_parameter_value-IsAsked :
    (pf : Platform) (fuel : ℕ) (m : Manager) (entity : ℕ) (n name s : Bytes) (v : Option Bytes)
    (status : Status) (sys : Option Bytes) (a : Answer)
    → (entity == entity_system) ≡ false
    → Leaves pf name
    → At (IsAsked s) m name
    → set_parameter_value pf fuel m entity n v status sys ≡ some a
    → At (IsAsked s) a.manager name
set_parameter_value-IsAsked pf fuel m entity n name s v status sys a out leaves h e =
    set_parameter_value-At (IsAsked s) pf name (unmark-IsAsked s)
      (marked_set-IsAsked pf name s leaves) fuel m entity n v status sys a out h e

-- A parameter that was there is there when it is loaded.
load_system_parameter-find :
    (pf : Platform) (m : Manager) (p : Parameter)
    → Leaves pf p.name
    → find m p.name ≡ some p
    → (q : Parameter) × (find (load_system_parameter pf m p).2 p.name ≡ some q)
unfolding load_system_parameter
load_system_parameter-find pf m p leaves found =
    let m' = (definition_value pf m p).1 in
    let argument = (definition_value pf m p).0 in
    let value = (pf.device.read_value p.name argument).1 in
    let there : find m' p.name ≡ some p = definition_value-find pf m p p.name leaves ∙ found in
    let updated =
      find-change_same m' p.name p (update_system_value pf value false)
        (update_system_value-name pf value) there in
    elim (Bool-cases (is_missing p)) [
      | inr here ↦ rw (load_system_parameter, here) (p, found)
      | inl missing ↦ elim (Bool-cases ((pf.device.read_value p.name argument).0 == 0)) [
        | inl ok ↦ rw (load_system_parameter, missing, ok) (_, updated)
        | inr fault ↦ rw (load_system_parameter, missing, fault) (p, there)
      ]
    ]

load_system_parameter-code :
    (pf : Platform) (m : Manager) (p : Parameter)
    → GivesFaults pf
    → (load_system_parameter pf m p).0 ≢ 1
unfolding load_system_parameter
load_system_parameter-code pf m p gives e =
    ground (arith, e, gives.0 p.name (definition_value pf m p).0)

-- The answers that are no fault.
abbrev pub IsDone : ℕ → Type 0
IsDone code = (code == 0 || code == 1) ≡ true

replace-IsAsked :
    (m : Manager) (n : Bytes) (q : Parameter) (s : Bytes)
    → find m n ≡ some q
    → At (IsAsked s) (replace m (set_value (engine_at m q) (some s)).1) n
unfolding set_value save strdup engine_at
replace-IsAsked m n q s found x f =
    let e : Engine = (set_value (engine_at m q) (some s)).1 in
    let at : e.param.name ≡ n = find-name m n q found in
    let is : some e.param ≡ some x = sym (find-replace m e n ∙ rw (at, str_eq_refl n) refl) ∙ f in
    let same : e.param ≡ x = ground (arith, is) in subst (IsAsked s) same (refl, refl)

set_loaded_value-IsAsked :
    (pf : Platform) (m : Manager) (p : Parameter) (s : Bytes)
    → Leaves pf p.name
    → GivesFaults pf
    → find m p.name ≡ some p
    → IsDone (set_loaded_value pf m p (some s)).0
    → At (IsAsked s) (set_loaded_value pf m p (some s)).2 p.name
unfolding set_loaded_value
set_loaded_value-IsAsked pf m p s leaves gives found done =
    let (q, there) = load_system_parameter-find pf m p leaves found in
    let m' = (load_system_parameter pf m p).2 in
    let set = replace-IsAsked m' p.name q s there in
    elim (Bool-cases ((load_system_parameter pf m p).0 == 0)) [
      | inl ok ↦
          let same : (set_loaded_value pf m p (some s)).2
              ≡ replace m' (set_value (engine_at m' q) (some s)).1 =
            ground (arith, ok, there) in
          subst (λ (x : Manager). At (IsAsked s) x p.name) (sym same) set
      | inr fault ↦ absurd (ground (arith, fault, done, load_system_parameter-code pf m p gives))
    ]

check-code :
    (is_date_string : Bytes → Bool) (p : Parameter) (v : Option Bytes)
    → check_before_set_value is_date_string p v ≢ 1
unfolding check_before_set_value
check-code is_date_string p v e = ground (arith, e)

marked_set_asks :
    (pf : Platform) (m : Manager) (n : Bytes) (p : Parameter) (s : Bytes)
    → Leaves pf n
    → GivesFaults pf
    → find m n ≡ some p
    → IsDone (marked_set pf m n (some s) p).0
    → At (IsAsked s) (marked_set pf m n (some s) p).2 n
unfolding marked_set set_checked_value engine_at
marked_set_asks pf m n p s leaves gives found done =
    let q : Parameter = (mark_being_evaluated (engine_at m p)).param in
    let m' = change m n mark_being_evaluated in
    let named : q.name ≡ n = mark-name (engine_at m p) ∙ find-name m n p found in
    let found' : find m' q.name ≡ some q =
      ap (find m') named ∙ find-change_same m n p mark_being_evaluated mark-name found in
    elim (Bool-cases (check_before_set_value pf.is_date_string q (some s) == 0)) [
      | inr fault ↦ absurd (ground (arith, fault, done, check-code pf.is_date_string q (some s)))
      | inl ok ↦
          let same : marked_set pf m n (some s) p ≡ set_loaded_value pf m' q (some s) =
            ground (arith, ok) in
          let set =
            set_loaded_value-IsAsked pf m' q s (subst (Leaves pf) (sym named) leaves) gives found'
              (subst IsDone (ap (λ r. r.0) same) done) in
          subst (λ (x : Manager). At (IsAsked s) x n) (sym (ap (λ r. r.2) same))
            (subst (At (IsAsked s) (set_loaded_value pf m' q (some s)).2) named set)
    ]

early_answer-fault :
    (pf : Platform) (m : Manager) (entity : ℕ) (n : Bytes) (v : Option Bytes) (status : Status)
    (sys : Option Bytes) (p : Parameter) (a : Answer)
    → (entity == entity_system) ≡ false
    → early_answer pf m entity n v status sys p ≡ some a
    → IsDone a.code
    → ⊥
unfolding early_answer
early_answer-fault pf m entity n v status sys p a out e done = ground (arith, out, e, done)

-- Where the answer is no fault, the text that was given is the value, and its change is requested.
pub set_parameter_value_asks :
    (pf : Platform) (fuel : ℕ) (m : Manager) (entity : ℕ) (n s : Bytes) (status : Status)
    (sys : Option Bytes) (a : Answer)
    → (entity == entity_system) ≡ false
    → Leaves pf n
    → GivesFaults pf
    → set_parameter_value pf fuel m entity n (some s) status sys ≡ some a
    → IsDone a.code
    → At (IsAsked s) a.manager n
unfolding set_parameter_value redirection
set_parameter_value_asks pf zero m entity n s status sys a out leaves gives e done =
    absurd (ground arith)
set_parameter_value_asks pf (suc fuel) m entity n s status sys a out leaves gives e done =
    elim (Option-cases (find m n)) [
      | inl missing ↦ absurd (ground (arith, missing, e, done))
      | inr (p, found) ↦ elim (Option-cases (early_answer pf m entity n (some s) status sys p)) [
        | inr (b, early) ↦
            let same : b ≡ a = ground (arith, found, early, e) in
            absurd (
              early_answer-fault pf m entity n (some s) status sys p a out (early ∙ ap some same)
                done)
        | inl late ↦
            let m' = (marked_set pf m n (some s) p).2 in
            let code = (marked_set pf m n (some s) p).0 in
            elim (Option-cases (redirection pf code p)) [
              | inl stop ↦
                  let last : unmarked m' n ≡ a.manager = ground (arith, found, late, e, stop) in
                  let same : code ≡ a.code = ground (arith, found, late, e, stop) in
                  let set =
                    marked_set_asks pf m n p s leaves gives found (subst IsDone (sym same) done) in
                  subst (λ (x : Manager). At (IsAsked s) x n) last
                    (change-At (IsAsked s) m' n n unmark_being_evaluated unmark-name
                      (unmark-IsAsked s) set)
              | inr (next, go) ↦
                  let ok : IsDone code = ground (arith, go) in
                  let set = marked_set_asks pf m n p s leaves gives found ok in
                  elim (Option-cases (
                    set_parameter_value pf fuel m' entity next (some s) (applied_status p)
                      (some n))) [
                        | inl empty ↦ absurd (ground (arith, found, late, e, go, empty))
                        | inr (b, r) ↦
                            let last : unmarked b.manager n ≡ a.manager =
                              ground (arith, found, late, e, go, r) in
                            subst (λ (x : Manager). At (IsAsked s) x n) last
                              (change-At (IsAsked s) b.manager n n unmark_being_evaluated
                                unmark-name (unmark-IsAsked s)
                                (set_parameter_value-IsAsked pf fuel m' entity next n s (some s)
                                  (applied_status p) (some n) b out leaves set r))
                      ]
            ]
      ]
    ]
