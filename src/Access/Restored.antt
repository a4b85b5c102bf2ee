-- ===== src/Access/Restored.antt =====
-- `setParameterValue`: what a change of values keeps of the previous ones.
use tr069agent.Prelude.{
  ℕ, ◌==◌, ◌≡◌, ◌⊎◌, refl, sym, ◌∙◌, ap, subst, true, false, Bool, Option, none, some, Bytes,
  str_eq, str_eq_iff, arith, Bool-cases, Option-cases, inl, inr,
}
use tr069agent.Parameter.Struct.{Parameter, Engine, save}
use tr069agent.Parameter.Value.{
  set_value, update_value, mark_being_evaluated, unmark_being_evaluated,
}
use tr069agent.Parameter.Check.{check_before_set_value}
use tr069agent.Access.{
  Manager, Platform, find, engine_at, replace, change, is_missing, definition_value,
  load_system_parameter, update_system_value, entity_system,
}
use tr069agent.Access.Set.{
  set_loaded_value, set_checked_value, Answer, Status, marked_set, set_parameter_value,
}
use tr069agent.Access.Recursion.{set_parameter_value-At}
use tr069agent.Access.Lookup.{
  At, find-replace, find-name, find-change_other, find-change_same, replace-At, change-At,
}

-- The value of `p₀`, or a change requested with that value kept behind it.
abbrev pub HasValue : Parameter → Parameter → Type 0
HasValue p₀ p =
    (p.storage_mode ≡ p₀.storage_mode)
    × (((p.state.change_requested ≡ false) × (p.value ≡ p₀.value))
        ⊎ ((p.state.change_requested ≡ true) × (p.back_value ≡ p₀.value)))

-- Evaluations and loads leave the parameter of this name.
abbrev pub Leaves : Platform → Bytes → Type 0
Leaves pf name =
    ((m : Manager) (p : Parameter) → find (pf.evaluate m p).1 name ≡ find m name)
    × ((m : Manager) (n : Bytes) (b : Bool) → find (pf.load m n b).1 name ≡ find m name)

pub update_system_value-name :
    (pf : Platform) (v : Option Bytes) (e : Engine)
    → (update_system_value pf v false e).param.name ≡ e.param.name
unfolding update_system_value update_value save
update_system_value-name pf v e = refl

pub definition_value-find :
    (pf : Platform) (m : Manager) (p : Parameter) (name : Bytes)
    → Leaves pf name
    → find (definition_value pf m p).1 name ≡ find m name
unfolding definition_value
definition_value-find pf m p name h = ground (arith, h.0 m p)

load_system_parameter-other :
    (pf : Platform) (m : Manager) (p : Parameter) (name : Bytes)
    → Leaves pf name
    → str_eq name p.name ≡ false
    → find (load_system_parameter pf m p).2 name ≡ find m name
unfolding load_system_parameter
load_system_parameter-other pf m p name h ne =
    let evaluated = definition_value-find pf m p name h in
    let (argument, m') = definition_value pf m p in
    let updated =
      find-change_other m' p.name name
        (update_system_value pf (pf.device.read_value p.name argument).1 false)
        (update_system_value-name pf (pf.device.read_value p.name argument).1) ne in
    ground (arith, evaluated, updated)

pub set_checked_value-other :
    (pf : Platform) (m : Manager) (p : Parameter) (v : Option Bytes) (name : Bytes)
    → Leaves pf name
    → str_eq name p.name ≡ false
    → find (set_checked_value pf m p v).2 name ≡ find m name
unfolding set_checked_value set_loaded_value set_value save engine_at
set_checked_value-other pf m p v name h ne =
    let loaded = load_system_parameter-other pf m p name h ne in
    let m' = (load_system_parameter pf m p).2 in
    elim (Option-cases (find m' p.name)) [
      | inl e ↦ ground (arith, loaded, e)
      | inr (q, e) ↦
          let put = find-replace m' (set_value (engine_at m' q) v).1 name in
          let at : q.name ≡ p.name = find-name m' p.name q e in
          let other : str_eq name q.name ≡ false = ap (str_eq name) at ∙ ne in
          ground (arith, loaded, e, put, other)
    ]

load_system_parameter-present :
    (pf : Platform) (m : Manager) (p : Parameter)
    → is_missing p ≡ false
    → load_system_parameter pf m p ≡ (0, none, m)
unfolding load_system_parameter
load_system_parameter-present pf m p here = rw (load_system_parameter, here) refl

set_loaded_value-present :
    (pf : Platform) (m : Manager) (p : Parameter) (v : Option Bytes)
    → is_missing p ≡ false
    → find m p.name ≡ some p
    → (set_loaded_value pf m p v).2 ≡ replace m (set_value (engine_at m p) v).1
unfolding set_loaded_value
set_loaded_value-present pf m p v here found =
    let loaded = load_system_parameter-present pf m p here in ground (arith, loaded, here, found)

checked-free :
    (is_date_string : Bytes → Bool) (p : Parameter) (v : Option Bytes)
    → (check_before_set_value is_date_string p v == 0) ≡ true
    → p.state.change_requested ≡ false
unfolding check_before_set_value
checked-free is_date_string p v ok = ground arith

present-HasValue :
    (p p₀ : Parameter)
    → is_missing p₀ ≡ false
    → p.state.change_requested ≡ false
    → HasValue p₀ p
    → is_missing p ≡ false
unfolding is_missing
present-HasValue p p₀ here free (mode, inl (_, same)) = rw (mode, same) here
present-HasValue p p₀ here free (mode, inr (pending, _)) = absurd (ground (arith, free, pending))

set_value-HasValue :
    (p₀ : Parameter) (e : Engine) (v : Option Bytes)
    → e.param.state.change_requested ≡ false
    → HasValue p₀ e.param
    → HasValue p₀ (set_value e v).1.param
unfolding set_value save
set_value-HasValue p₀ e v free (mode, inl (_, same)) = (mode, inr (refl, same))
set_value-HasValue p₀ e v free (mode, inr (pending, _)) = absurd (ground (arith, free, pending))

-- What is tested and set leaves the previous value behind the new one.
set_checked_value-HasValue :
    (pf : Platform) (m : Manager) (p p₀ : Parameter) (v : Option Bytes)
    → is_missing p₀ ≡ false
    → find m p.name ≡ some p
    → At (HasValue p₀) m p.name
    → At (HasValue p₀) (set_checked_value pf m p v).2 p.name
unfolding set_checked_value
set_checked_value-HasValue pf m p p₀ v here found h =
    elim (Bool-cases (check_before_set_value pf.is_date_string p v == 0)) [
      | inr refused ↦ rw (set_checked_value, refused) h
      | inl ok ↦
          let free = checked-free pf.is_date_string p v ok in
          let kept = h p found in
          let present = present-HasValue p p₀ here free kept in
          rw (set_checked_value, ok, set_loaded_value-present pf m p v present found)
            (replace-At (HasValue p₀) m p.name p.name p (set_value (engine_at m p) v).1 found refl
              (set_value-HasValue p₀ (engine_at m p) v free) h)
    ]

mark-HasValue :
    (p₀ : Parameter) (e : Engine) → HasValue p₀ e.param → HasValue p₀ (mark_being_evaluated e).param
unfolding mark_being_evaluated save
mark-HasValue p₀ e h = h

unmark-HasValue :
    (p₀ : Parameter) (e : Engine)
    → HasValue p₀ e.param
    → HasValue p₀ (unmark_being_evaluated e).param
unfolding unmark_being_evaluated save
unmark-HasValue p₀ e h = h

pub mark-name : (e : Engine) → (mark_being_evaluated e).param.name ≡ e.param.name
unfolding mark_being_evaluated save
mark-name e = refl

marked_set-HasValue :
    (pf : Platform) (m : Manager) (n name : Bytes) (p p₀ : Parameter) (v : Option Bytes)
    → Leaves pf name
    → is_missing p₀ ≡ false
    → find m n ≡ some p
    → At (HasValue p₀) m name
    → At (HasValue p₀) (marked_set pf m n v p).2 name
unfolding engine_at marked_set
marked_set-HasValue pf m n name p p₀ v leaves here found h =
    let q : Parameter = (mark_being_evaluated (engine_at m p)).param in
    let marked =
      change-At (HasValue p₀) m n name mark_being_evaluated mark-name (mark-HasValue p₀) h in
    let named : q.name ≡ n = mark-name (engine_at m p) ∙ find-name m n p found in
    let m' = change m n mark_being_evaluated in
    let found' : find m' q.name ≡ some q =
      ap (find m') named ∙ find-change_same m n p mark_being_evaluated mark-name found in
    elim (Bool-cases (str_eq name q.name)) [
      | inl eq ↦
          let same : name ≡ q.name = (str_eq_iff name q.name).0 eq in
          subst (λ (s : Bytes). At (HasValue p₀) (set_checked_value pf m' q v).2 s) (sym same)
            (set_checked_value-HasValue pf m' q p₀ v here found'
              (subst (At (HasValue p₀) m') same marked))
      | inr ne ↦ λ x f. marked x (sym (set_checked_value-other pf m' q v name leaves ne) ∙ f)
    ]

-- Whatever is answered, by whichever redirections, an entity other than the system leaves each
-- parameter its value, or has requested a change with the value kept for its return.
pub set_parameter_value-HasValue :
    (pf : Platform) (fuel : ℕ) (m : Manager) (entity : ℕ) (n name : Bytes) (v : Option Bytes)
    (status : Status) (sys : Option Bytes) (p₀ : Parameter) (a : Answer)
    → (entity == entity_system) ≡ false
    → Leaves pf name
    → is_missing p₀ ≡ false
    → At (HasValue p₀) m name
    → set_parameter_value pf fuel m entity n v status sys ≡ some a
    → At (HasValue p₀) a.manager name
set_parameter_value-HasValue pf fuel m entity n name v status sys p₀ a out leaves here h e =
    set_parameter_value-At (HasValue p₀) pf name (unmark-HasValue p₀)
      (λ m n p v f k. marked_set-HasValue pf m n name p p₀ v leaves here f k) fuel m entity n v
      status sys a out h e
