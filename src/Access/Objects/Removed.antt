-- ===== src/Access/Objects/Removed.antt =====
-- `deleteObject`: what is gone, and what a fault leaves.
use tr069agent.Prelude.{
  ℕ, ◌==◌, ◌≡◌, ◌≢◌, ◌⊎◌, refl, ap, ◌∙◌, ◌||◌, ◌&&◌, true, none, some, Bytes, arith, Bool-cases,
  Option-cases, inl, inr,
}
use tr069agent.Parameter.Struct.{Parameter}
use tr069agent.Parameter.Name.{starts_with}
use tr069agent.Store.Tree.{find_parameter, delete_object}
use tr069agent.Store.Tree.Delete.{find_parameter-without_prefix, delete_object-parameters}
use tr069agent.Access.{Manager, Platform, invalid_parameter_name, find, change}
use tr069agent.Access.Set.{Status}
use tr069agent.Access.Objects.{
  delete_parameter_object, delete_instance, delete_from_device, dropped, split_instance, is_object,
}

delete_object-find :
    (m : Manager) (object name : Bytes)
    → starts_with object name ≡ true
    → find (record m { tree = delete_object m.tree object }) name ≡ none
unfolding find
delete_object-find m object name h =
    ap (λ ps. find_parameter ps name) (delete_object-parameters m.tree object)
    ∙ find_parameter-without_prefix m.tree.parameters object name
    ∙ rw h refl

-- The engine lets the deletion through: the instance and its prototype are objects, and the prototype,
-- with the number of the instance, is writable.
abbrev pub IsDeletable : Manager → Bytes → Parameter → ℕ → Type 0
IsDeletable m object p n =
    (is_object (find m object) ≡ true)
    × (proto : Bytes) × (split_instance object ≡ some (proto, some n))
    × (find m proto ≡ some p)
    × (is_object (some p) ≡ true)
    × (p.writable ≡ true)

-- Where the call is not refused, the answer is the device's.
abbrev IsAnswered : Platform → Manager → ℕ → Bytes → ℕ × Status × Manager → Type 0
IsAnswered pf m entity object r =
    ((r.0 ≢ 0) × (r.2 ≡ m))
    ⊎ ((p : Parameter) × (n : ℕ) × IsDeletable m object p n
        × (r ≡ delete_instance pf m entity object p n))

delete-IsAnswered :
    (pf : Platform) (m : Manager) (entity : ℕ) (object : Bytes)
    → IsAnswered pf m entity object (delete_parameter_object pf m entity object)
unfolding delete_parameter_object is_object
delete-IsAnswered pf m entity object = elim (Bool-cases (is_object (find m object))) [
  | inr bad ↦ inl ((λ e. ground (arith, e, bad)), ground (arith, bad))
  | inl good ↦ elim (Option-cases (split_instance object)) [
    | inl bad ↦ inl ((λ e. ground (arith, e, good, bad)), ground (arith, good, bad))
    | inr ((proto, number), split) ↦ elim (Option-cases number) [
      | inl bad ↦ inl ((λ e. ground (arith, e, good, split, bad)), ground (arith, good, split, bad))
      | inr (n, is) ↦ elim (Option-cases (find m proto)) [
        | inl bad ↦
            inl
              ((λ e. ground (arith, e, good, split, is, bad)), ground (arith, good, split, is, bad))
        | inr (p, found) ↦ elim (Bool-cases (is_object (some p) && p.writable)) [
          | inr bad ↦ inl (
            (λ e. ground (arith, e, good, split, is, found, bad)),
            ground (arith, good, split, is, found, bad),
          )
          | inl fine ↦ inr (
            p,
            n,
            (
              good,
              proto,
              split ∙ ap (λ o. some (proto, o)) is,
              found,
              ground (arith, fine),
              ground (arith, fine),
            ),
            ground (arith, good, split, is, found, fine),
          )
        ]
      ]
    ]
  ]
]

-- When an instance is deleted without a fault, no parameter is left whose name starts with the name of
-- the instance. A fault changes nothing, unless the engine lets the deletion through and the device
-- answers with 9005: then no such parameter is left either.
pub delete_parameter_object_removes :
    (pf : Platform) (m : Manager) (entity : ℕ) (object : Bytes)
    → let r = delete_parameter_object pf m entity object in
      let IsGone = (name : Bytes) → starts_with object name ≡ true → find r.2 name ≡ none in
      (r.0 ≡ 0 → IsGone)
      × (r.0 ≢ 0
          → (r.2 ≡ m)
            ⊎ (((p : Parameter) × (n : ℕ) × IsDeletable m object p n
                  × (delete_from_device pf entity p n ≡ invalid_parameter_name))
                × IsGone))
unfolding delete_instance
delete_parameter_object_removes pf m entity object = elim (delete-IsAnswered pf m entity object) [
  | inl (fault, same) ↦ (λ ok. absurd (fault ok), λ a. inl same)
  | inr (p, n, deletable, is) ↦
      let code = delete_from_device pf entity p n in
      let m' = change m p.name (dropped pf) in
      elim (Bool-cases (code == 0 || code == invalid_parameter_name)) [
        | inl gone ↦
            let after : (delete_parameter_object pf m entity object).2
                ≡ record m' { tree = delete_object m'.tree object } =
              ap (λ x. x.2) is ∙ ground (arith, gone) in
            let same : (delete_parameter_object pf m entity object).0 ≡ code =
              ap (λ x. x.0) is ∙ ground (arith, gone) in
            let cleared : (name : Bytes)
                → starts_with object name ≡ true
                → find (delete_parameter_object pf m entity object).2 name ≡ none =
              λ name h.
                ap (λ (x : Manager). find x name) after ∙ delete_object-find m' object name h in
            (λ ok. cleared, λ a. inr ((p, n, deletable, ground (arith, gone, same, a)), cleared))
        | inr fault ↦
            let same : (delete_parameter_object pf m entity object).0 ≡ code =
              ap (λ x. x.0) is ∙ ground (arith, fault) in
            (
              λ ok. absurd (ground (arith, fault, same, ok)),
              λ a. inl (ap (λ x. x.2) is ∙ ground (arith, fault)),
            )
      ]
]
