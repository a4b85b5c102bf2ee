-- ===== src/Access/Recursion.antt =====
-- `setParameterValue`: what its redirections keep.
use tr069agent.Prelude.{
  ℕ, zero, suc, ◌==◌, ◌≡◌, ◌⊎◌, refl, sym, subst, false, Option, some, Bytes, arith, Option-cases,
  inl, inr,
}
use tr069agent.Parameter.Struct.{Parameter, Engine, save}
use tr069agent.Parameter.Value.{unmark_being_evaluated}
use tr069agent.Access.{Manager, Platform, find, entity_system}
use tr069agent.Access.Set.{
  Answer, Status, applied_status, unmarked, early_answer, marked_set, redirection,
  set_parameter_value,
}
use tr069agent.Access.Lookup.{At, change-At}

pub unmark-name : (e : Engine) → (unmark_being_evaluated e).param.name ≡ e.param.name
unfolding unmark_being_evaluated save
unmark-name e = refl

early_answer-manager :
    (pf : Platform) (m : Manager) (entity : ℕ) (n : Bytes) (v : Option Bytes) (status : Status)
    (sys : Option Bytes) (p : Parameter) (a : Answer)
    → (entity == entity_system) ≡ false
    → early_answer pf m entity n v status sys p ≡ some a
    → (a.manager ≡ m) ⊎ (a.manager ≡ unmarked m n)
unfolding early_answer
early_answer-manager pf m entity n v status sys p a out e = ground (arith, out, e)

-- What the mark of an evaluation and the setting of a value keep at `name`, an entity other than the
-- system keeps there, by whichever redirections.
module _ {κ} (P : Parameter → Type κ) (pf : Platform) (name : Bytes)
    (unmarks : (e : Engine) → P e.param → P (unmark_being_evaluated e).param)
    (sets : (m : Manager) (n : Bytes) (p : Parameter) (v : Option Bytes)
      → find m n ≡ some p
      → At P m name
      → At P (marked_set pf m n v p).2 name) where
  pub unmarked-At : (m : Manager) (n : Bytes) → At P m name → At P (unmarked m n) name
  unfolding unmarked
  unmarked-At m n h = change-At P m n name unmark_being_evaluated unmark-name unmarks h

  pub set_parameter_value-At :
      (fuel : ℕ) (m : Manager) (entity : ℕ) (n : Bytes) (v : Option Bytes) (status : Status)
      (sys : Option Bytes) (a : Answer)
      → (entity == entity_system) ≡ false
      → At P m name
      → set_parameter_value pf fuel m entity n v status sys ≡ some a
      → At P a.manager name
  unfolding set_parameter_value
  set_parameter_value-At zero m entity n v status sys a out h e = absurd (ground arith)
  set_parameter_value-At (suc fuel) m entity n v status sys a out h e =
      elim (Option-cases (find m n)) [
        | inl missing ↦ ground (arith, missing, e, h)
        | inr (p, found) ↦ elim (Option-cases (early_answer pf m entity n v status sys p)) [
          | inr (b, early) ↦
              let same : b ≡ a = ground (arith, found, early, e) in
              subst (λ (x : Answer). At P x.manager name) same
                (elim (early_answer-manager pf m entity n v status sys p b out early) [
                  | inl kept ↦ subst (λ (x : Manager). At P x name) (sym kept) h
                  | inr cleared ↦
                      subst (λ (x : Manager). At P x name) (sym cleared) (unmarked-At m n h)
                ])
          | inl late ↦
              let m' = (marked_set pf m n v p).2 in
              let set = sets m n p v found h in
              elim (Option-cases (redirection pf (marked_set pf m n v p).0 p)) [
                | inl stop ↦
                    let last : unmarked m' n ≡ a.manager = ground (arith, found, late, e, stop) in
                    subst (λ (x : Manager). At P x name) last (unmarked-At m' n set)
                | inr (next, go) ↦
                    elim (Option-cases
                      (set_parameter_value pf fuel m' entity next v (applied_status p) (some n))) [
                        | inl empty ↦ absurd (ground (arith, found, late, e, go, empty))
                        | inr (b, r) ↦
                            let last : unmarked b.manager n ≡ a.manager =
                              ground (arith, found, late, e, go, r) in
                            subst (λ (x : Manager). At P x name) last
                              (unmarked-At b.manager n (
                                set_parameter_value-At fuel m' entity next v (applied_status p)
                                  (some n) b out set r))
                      ]
              ]
        ]
      ]
