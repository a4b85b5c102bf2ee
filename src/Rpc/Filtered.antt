-- ===== src/Rpc/Filtered.antt =====
-- `DM_ENG_GetParameterValues`: what is shown to the ACS and to subscribers.
use tr069agent.Prelude.{
  ℕ, ◌==◌, ◌≡◌, ◌⊎◌, refl, ◌&&◌, ◌||◌, not, Bool, true, List, [], ◌∷◌, ◌++◌, Bytes, arith,
  Bool-cases, Option-cases, inl, inr, All, All-append, subst,
}
use tr069agent.Common.CommaList.{has_item}
use tr069agent.Parameter.Struct.{empty, Parameter}
use tr069agent.Parameter.Name.{starts_with, is_valuable}
use tr069agent.Access.{Manager, Platform, entity_acs, entity_subscriber, find, is_hidden}
use tr069agent.Rpc.Read.{
  Outcome, fault, got, NamedValue, value_of, filtered_value, values_under, loaded_values,
  load_unless_system, read_all, get_parameter_values, is_path,
}

Outcome-cases {ℓ} :
    {A : Type ℓ} (o : Outcome A) → ((f : ℕ) × (o ≡ fault f)) ⊎ ((a : A) × (o ≡ got a))
Outcome-cases (fault f) = inl (f, refl)
Outcome-cases (got a) = inr (a, refl)

-- What holds of each single answer holds of the answers together.
read_all-All {ℓ κ} :
    {A : Type ℓ} (P : A → Type κ) (pf : Platform) (entity : ℕ) (with_values : Bool)
    (read : Manager → Bytes → Outcome (List A)) (m : Manager) (names : List Bytes)
    (answers : List A)
    → ((m' : Manager) (name : Bytes) (xs : List A) → read m' name ≡ got xs → All P xs)
    → (read_all pf entity with_values read m names).0 ≡ got answers
    → All P answers
unfolding read_all
read_all-All P pf entity with_values read m [] answers each e =
    let same : [] ≡ answers = ground (arith, e) in subst (All P) same tt
read_all-All P pf entity with_values read m (name ∷ names) answers each e =
    let m' = (load_unless_system pf m entity name with_values).1 in
    let code = (load_unless_system pf m entity name with_values).0 in
    let rest = (read_all pf entity with_values read m' names).0 in
    elim (Bool-cases (code == 0)) [
      | inr bad ↦ absurd (ground (arith, e, bad))
      | inl ok ↦ elim (Outcome-cases (read m' name)) [
        | inl (f, bad) ↦ absurd (ground (arith, e, ok, bad))
        | inr (xs, one) ↦ elim (Outcome-cases rest) [
          | inl (f, bad) ↦ absurd (ground (arith, e, ok, one, bad))
          | inr (ys, others) ↦
              let same : xs ++ ys ≡ answers = ground (arith, e, ok, one, others) in
              subst (All P) same (
                All-append P xs ys (each m' name xs one)
                  (read_all-All P pf entity with_values read m' names ys each others))
        ]
      ]
    ]

-- A password is shown as the empty text.
abbrev pub IsFiltered : Platform → NamedValue → Type 0
IsFiltered pf v = has_item pf.names.passwords v.name ≡ true → v.value ≡ empty

-- The ACS or a subscriber.
abbrev pub IsOutside : ℕ → Type 0
IsOutside entity = (entity == entity_acs || entity == entity_subscriber) ≡ true

value_of-IsFiltered :
    (pf : Platform) (entity : ℕ) (p : Parameter)
    → IsOutside entity
    → IsFiltered pf (value_of pf entity p)
unfolding value_of filtered_value
value_of-IsFiltered pf entity p outside secret = rw (outside, secret) refl

values_under-IsFiltered :
    (pf : Platform) (entity : ℕ) (path : Bytes) (ps : List Parameter)
    → IsOutside entity
    → All (IsFiltered pf) (values_under pf entity path ps)
unfolding values_under
values_under-IsFiltered pf entity path [] outside = tt
values_under-IsFiltered pf entity path (p ∷ ps) outside =
    let rest = values_under-IsFiltered pf entity path ps outside in
    elim (Bool-cases (starts_with path p.name && is_valuable p.name && not (is_hidden p))) [
      | inl shown ↦ rw shown (value_of-IsFiltered pf entity p outside, rest)
      | inr other ↦ rw other rest
    ]

loaded_values-IsFiltered :
    (pf : Platform) (entity : ℕ) (m : Manager) (name : Bytes) (xs : List NamedValue)
    → IsOutside entity
    → loaded_values pf m entity name ≡ got xs
    → All (IsFiltered pf) xs
unfolding loaded_values
loaded_values-IsFiltered pf entity m [] xs outside e =
    let same : values_under pf entity [] m.tree.parameters ≡ xs = ground (arith, e) in
    subst (All (IsFiltered pf)) same
      (values_under-IsFiltered pf entity [] m.tree.parameters outside)
loaded_values-IsFiltered pf entity m (c ∷ cs) xs outside e = elim (Option-cases (find m (c ∷ cs))) [
  | inl missing ↦ absurd (ground (arith, e, missing))
  | inr (p, found) ↦ elim (Bool-cases (is_hidden p)) [
    | inl hidden ↦ absurd (ground (arith, e, found, hidden))
    | inr shown ↦ elim (Bool-cases (is_path (c ∷ cs))) [
      | inl path ↦
          let same : values_under pf entity (c ∷ cs) m.tree.parameters ≡ xs =
            ground (arith, e, found, shown, path) in
          subst (All (IsFiltered pf)) same
            (values_under-IsFiltered pf entity (c ∷ cs) m.tree.parameters outside)
      | inr leaf ↦
          let same : value_of pf entity p ∷ [] ≡ xs = ground (arith, e, found, shown, leaf) in
          subst (All (IsFiltered pf)) same (value_of-IsFiltered pf entity p outside, tt)
    ]
  ]
]

-- Whatever names the ACS or a subscriber asks for, with whatever partial paths, no password is among
-- the values of the answer: each value with the name of a password is the empty text.
pub get_parameter_values-IsFiltered :
    (pf : Platform) (m : Manager) (entity : ℕ) (names : List Bytes) (values : List NamedValue)
    → IsOutside entity
    → (get_parameter_values pf m entity names).0 ≡ got values
    → All (IsFiltered pf) values
unfolding get_parameter_values
get_parameter_values-IsFiltered pf m entity names values outside e =
    read_all-All (IsFiltered pf) pf entity true (λ m' name. loaded_values pf m' entity name) m names
      values (λ m' name xs one. loaded_values-IsFiltered pf entity m' name xs outside one) e
