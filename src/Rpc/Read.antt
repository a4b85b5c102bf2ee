-- ===== src/Rpc/Read.antt =====
-- dm_engine/src/DM_ENG_RPCInterface.c: `DM_ENG_GetParameterNames`, `DM_ENG_GetParameterValues` and
-- `DM_ENG_GetParameterAttributes`.
use tr069agent.Prelude.{
  ℕ, ◌==◌, ◌||◌, ◌&&◌, not, Bool, true, false, Option, none, some, List, [], ◌∷◌, ◌++◌, drop,
  length, if◌then◌else◌, Bytes,
}
use tr069agent.Common.CommaList.{has_item}
use tr069agent.Parameter.Struct.{CharPtr, empty, ParameterType, NotificationMode, Parameter}
use tr069agent.Parameter.Name.{starts_with, has_two_dots, is_node, is_valuable}
use tr069agent.Access.{
  Manager, Platform, entity_acs, entity_system, entity_subscriber, invalid_parameter_name, find,
  is_hidden,
}

-- A fault code, or the result.
pub data Outcome {ℓ} (A : Type ℓ) : Type ℓ where
  fault : ℕ → Outcome A
  got : A → Outcome A

-- dm_engine/inc/DM_ENG_ParameterInfoStruct.h.
pub record Info : Type 0 where
  pub name : Bytes
  pub writable : Bool

-- dm_engine/inc/DM_ENG_ParameterValueStruct.h.
pub record NamedValue : Type 0 where
  pub name : Bytes
  pub type : ParameterType
  pub value : CharPtr

-- dm_engine/inc/DM_ENG_ParameterAttributesStruct.h.
pub record ParameterAttributes : Type 0 where
  pub name : Bytes
  pub notification : NotificationMode
  pub access_list : Option (List Bytes)

unfoldable pub info_of : Parameter → Info
info_of p = record { name = p.name; writable = p.writable }

unfoldable pub attributes_of : Parameter → ParameterAttributes
attributes_of p = record {
  name = p.name;
  notification = p.notification;
  access_list = p.access_list;
}

-- The empty name, of the whole data model, or a partial path.
unfoldable pub is_path : Bytes → Bool
unfolding is_node
is_path [] = true
is_path (c ∷ cs) = is_node (c ∷ cs)

-- No dot, or one at the end.
unfoldable pub ends_level : Bytes → Bool
ends_level [] = true
ends_level (c ∷ []) = true
ends_level (c ∷ d ∷ cs) = let rest = ends_level (d ∷ cs) in if c == b'.' then false else rest

unfoldable pub is_next_level : Bytes → Bool
unfolding ends_level
is_next_level [] = false
is_next_level (c ∷ cs) = ends_level (c ∷ cs)

-- A parameter or an object under the path, and not of a prototype.
unfoldable pub is_under : Bytes → Parameter → Bool
unfolding starts_with has_two_dots
is_under path p = starts_with path p.name && not (has_two_dots p.name)

-- With `true` for the next level only.
unfoldable pub is_named : Bytes → Bool → Parameter → Bool
unfolding is_under is_next_level is_hidden
is_named path next_level p =
    is_under path p
    && (not next_level || is_next_level (drop (length path) p.name))
    && not (is_hidden p)

unfoldable pub names_under : Bytes → Bool → List Parameter → List Info
unfolding is_named info_of
names_under path next_level [] = []
names_under path next_level (p ∷ ps) =
    let rest = names_under path next_level ps in
    if is_named path next_level p then info_of p ∷ rest else rest

unfoldable pub is_none_or_hidden : Option Parameter → Bool
unfolding is_hidden
is_none_or_hidden none = true
is_none_or_hidden (some p) = is_hidden p

-- The names of a path that is loaded.
unfoldable pub loaded_names : Manager → Bytes → Bool → Outcome (List Info)
unfolding find is_path has_two_dots is_none_or_hidden names_under info_of
loaded_names m path next_level =
    if (next_level && not (is_path path)) || has_two_dots path
    then fault invalid_parameter_name
    else elim path [
      | [] ↦ got (names_under [] next_level m.tree.parameters)
      | c ∷ cs ↦ elim (find m (c ∷ cs)) [
        | none ↦ fault invalid_parameter_name
        | some p ↦
            if is_hidden p
            then fault invalid_parameter_name
            else if is_path (c ∷ cs)
            then got (names_under (c ∷ cs) next_level m.tree.parameters)
            else got (info_of p ∷ [])
      ]
    ]

-- The system's own calls load nothing.
unfoldable pub load_unless_system : Platform → Manager → ℕ → Bytes → Bool → ℕ × Manager
load_unless_system pf m entity name with_values =
    if entity == entity_system then (0, m) else pf.load m name with_values

unfoldable pub get_parameter_names :
    Platform → Manager → ℕ → Option Bytes → Bool → Outcome (List Info) × Manager
unfolding load_unless_system loaded_names
get_parameter_names pf m entity none next_level = (fault invalid_parameter_name, m)
get_parameter_names pf m entity (some path) next_level =
    let (code, m') = load_unless_system pf m entity path false in
    if code == 0 then (loaded_names m' path next_level, m') else (fault code, m')

-- Passwords are empty for the ACS and for subscribers.
unfoldable pub filtered_value : Platform → ℕ → Parameter → CharPtr
unfolding has_item
filtered_value pf entity p =
    if (entity == entity_acs || entity == entity_subscriber) && has_item pf.names.passwords p.name
    then empty
    else p.value

unfoldable pub value_of : Platform → ℕ → Parameter → NamedValue
unfolding filtered_value
value_of pf entity p = record { name = p.name; type = p.type; value = filtered_value pf entity p }

unfoldable pub values_under : Platform → ℕ → Bytes → List Parameter → List NamedValue
unfolding starts_with is_valuable is_hidden value_of
values_under pf entity path [] = []
values_under pf entity path (p ∷ ps) =
    let rest = values_under pf entity path ps in
    if starts_with path p.name && is_valuable p.name && not (is_hidden p)
    then value_of pf entity p ∷ rest
    else rest

-- The values of a name that is loaded.
unfoldable pub loaded_values : Platform → Manager → ℕ → Bytes → Outcome (List NamedValue)
unfolding find is_path is_hidden values_under value_of
loaded_values pf m entity [] = got (values_under pf entity [] m.tree.parameters)
loaded_values pf m entity (c ∷ cs) = elim (find m (c ∷ cs)) [
  | none ↦ fault invalid_parameter_name
  | some p ↦
      if is_hidden p
      then fault invalid_parameter_name
      else if is_path (c ∷ cs)
      then got (values_under pf entity (c ∷ cs) m.tree.parameters)
      else got (value_of pf entity p ∷ [])
]

-- The loop over names, each of them loaded with or without its value; the first fault ends it, and what
-- was got is dropped.
unfoldable pub read_all {ℓ} :
    {A : Type ℓ}
    → Platform
    → ℕ
    → Bool
    → (Manager → Bytes → Outcome (List A))
    → Manager
    → List Bytes
    → Outcome (List A) × Manager
unfolding load_unless_system
read_all pf entity with_values read m [] = (got [], m)
read_all pf entity with_values read m (name ∷ names) =
    let (code, m') = load_unless_system pf m entity name with_values in
    let (rest, m'') = read_all pf entity with_values read m' names in
    if code == 0
    then (elim (read m' name) [
      | fault f ↦ (fault f, m')
      | got as₁ ↦ elim rest [ fault f ↦ (fault f, m'') | got as₂ ↦ (got (as₁ ++ as₂), m'') ]
    ])
    else (fault code, m')

unfoldable pub get_parameter_values :
    Platform → Manager → ℕ → List Bytes → Outcome (List NamedValue) × Manager
unfolding read_all loaded_values
get_parameter_values pf m entity names =
    read_all pf entity true (λ m' name. loaded_values pf m' entity name) m names

unfoldable pub attributes_under : Bytes → List Parameter → List ParameterAttributes
unfolding is_under is_node is_hidden attributes_of
attributes_under path [] = []
attributes_under path (p ∷ ps) =
    let rest = attributes_under path ps in
    if is_under path p && not (is_node p.name) && not (is_hidden p)
    then attributes_of p ∷ rest
    else rest

-- The attributes of a name that is loaded.
unfoldable pub loaded_attributes : Manager → Bytes → Outcome (List ParameterAttributes)
unfolding find is_path has_two_dots is_hidden attributes_under attributes_of
loaded_attributes m [] = got (attributes_under [] m.tree.parameters)
loaded_attributes m (c ∷ cs) = elim (find m (c ∷ cs)) [
  | none ↦ fault invalid_parameter_name
  | some p ↦
      if has_two_dots (c ∷ cs) || is_hidden p
      then fault invalid_parameter_name
      else if is_path (c ∷ cs)
      then got (attributes_under (c ∷ cs) m.tree.parameters)
      else got (attributes_of p ∷ [])
]

unfoldable pub get_parameter_attributes :
    Platform → Manager → ℕ → List Bytes → Outcome (List ParameterAttributes) × Manager
unfolding read_all loaded_attributes
get_parameter_attributes pf m entity names = read_all pf entity false loaded_attributes m names
