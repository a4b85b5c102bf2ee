-- ===== src/Entity/Numbers.antt =====
-- The numbers of entities and their names.
use tr069agent.Prelude.{
  ℕ, zero, suc, none, some, List, [], ◌∷◌, ◌++◌, ◌≡◌, refl, Bytes, str_eq, str_eq_iff, str_eq_refl,
  length, arith, Bool-cases, Option-cases, inl, inr,
}
use tr069agent.Entity.{get_entity_name, get_entity_number, find_entity}

find_entity-name :
    (es : List Bytes) (name : Bytes) {n : ℕ}
    → find_entity es name ≡ some n
    → get_entity_name es n ≡ some name
unfolding find_entity get_entity_name
find_entity-name [] name h = absurd (ground arith)
find_entity-name (e ∷ es) name h = elim (Bool-cases (str_eq name e)) [
  | inl same ↦ ground (arith, (str_eq_iff name e).0 same)
  | inr other ↦ elim (Option-cases (find_entity es name)) [
    | inl missing ↦ ground arith
    | inr (m, found) ↦ ground (arith, find_entity-name es name found)
  ]
]

get_entity_name-last :
    (es : List Bytes) (name : Bytes) → get_entity_name (es ++ name ∷ []) (length es) ≡ some name
unfolding get_entity_name
get_entity_name-last [] name = refl
get_entity_name-last (e ∷ es) name = get_entity_name-last es name

get_entity_name-append :
    (es fs : List Bytes) (i : ℕ) {e : Bytes}
    → get_entity_name es i ≡ some e
    → get_entity_name (es ++ fs) i ≡ some e
unfolding get_entity_name
get_entity_name-append [] fs i h = absurd (ground arith)
get_entity_name-append (e ∷ es) fs zero h = h
get_entity_name-append (e ∷ es) fs (suc i) h = get_entity_name-append es fs i h

find_entity-last :
    (es : List Bytes) (name : Bytes)
    → find_entity es name ≡ none
    → find_entity (es ++ name ∷ []) name ≡ some (length es)
unfolding find_entity
find_entity-last [] name h = rw (str_eq_refl name) refl
find_entity-last (e ∷ es) name h = elim (Bool-cases (str_eq name e)) [
  | inl same ↦ ground arith
  | inr other ↦ rw (other, find_entity-last es name (ground arith)) refl
]

-- If a number is given for a name, it is that of the name in the table behind the call; and asked
-- for the name in that table, the function gives the same number and leaves the table as it is.
pub get_entity_number-name :
    (es : List Bytes) (name : Bytes) {n : ℕ}
    → (get_entity_number es name).0 ≡ some n
    → let es' = (get_entity_number es name).1 in
      (get_entity_name es' n ≡ some name) × (get_entity_number es' name ≡ (some n, es'))
unfolding get_entity_number
get_entity_number-name es name h = elim (Option-cases (find_entity es name)) [
  | inl new ↦ ground (arith, get_entity_name-last es name, find_entity-last es name new)
  | inr (m, old) ↦ ground (arith, find_entity-name es name old)
]

-- A number that has a name keeps it, whatever name a number is asked for.
pub get_entity_number-keeps :
    (es : List Bytes) (name : Bytes) (i : ℕ) {e : Bytes}
    → get_entity_name es i ≡ some e
    → get_entity_name (get_entity_number es name).1 i ≡ some e
unfolding get_entity_number
get_entity_number-keeps es name i h = ground (arith, get_entity_name-append es (name ∷ []) i h)
