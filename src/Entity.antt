-- ===== src/Entity.antt =====
-- dm_engine/src/DM_ENG_EntityType.c: the entities of access lists; the table of the file is the state.
pub mod Numbers
use tr069agent.Prelude.{
  ℕ, zero, suc, ◌+◌, Bool, true, false, not, ◌&&◌, ◌||◌, Option, none, some, List, [], ◌∷◌, ◌++◌,
  leb, ◌==◌, if◌then◌else◌, Bytes, codes, str_eq, is_space, length,
}
use tr069agent.Common.CommaList.{has_item}

abbrev pub default_entities : List Bytes
default_entities =
    codes "ACS" ∷ codes "SelfcareApp" ∷ codes "System" ∷ codes "Subscriber" ∷ codes "Any" ∷ []

abbrev pub default_access_list : List Bytes
default_access_list = codes "Subscriber" ∷ []

unfoldable pub get_entity_name : List Bytes → ℕ → Option Bytes
get_entity_name [] n = none
get_entity_name (e ∷ es) zero = some e
get_entity_name (e ∷ es) (suc n) = get_entity_name es n

unfoldable pub belongs_to : List Bytes → ℕ → Option (List Bytes) → Bool
unfolding get_entity_name has_item
belongs_to entities n access = if leb n 2 then true else elim (get_entity_name entities n) [
  | none ↦ false
  | some name ↦ elim access [ none ↦ false | some names ↦ has_item names name ]
]

-- The first loop.
unfoldable pub find_entity : List Bytes → Bytes → Option ℕ
unfolding str_eq
find_entity [] name = none
find_entity (e ∷ es) name =
    let rest = find_entity es name in
    if str_eq name e then some 0 else elim rest [ none ↦ none | some n ↦ some (suc n) ]

-- No white space, comma or semicolon.
unfoldable pub is_valid_name : Bytes → Bool
unfolding is_space
is_valid_name [] = true
is_valid_name (c ∷ cs) =
    (not (is_space c) && not (c == b',') && not (c == b';')) && is_valid_name cs

-- The number, -1 as `none`, and the table behind the call.
unfoldable pub get_entity_number : List Bytes → Bytes → Option ℕ × List Bytes
unfolding find_entity is_valid_name
get_entity_number entities name = elim (find_entity entities name) [
  | some n ↦ (some n, entities)
  | none ↦
      if is_valid_name name
      then (some (length entities), entities ++ name ∷ [])
      else (none, entities)
]
