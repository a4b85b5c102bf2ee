-- ===== src/Access/Objects.antt =====
-- dm_engine/src/DM_ENG_ParameterManager.c: `addObject` and `deleteObject`.
pub mod Numbers
pub mod Removed
use mathlib.Core.List.{reverse}
use tr069agent.Prelude.{
  ℕ, suc, ◌+◌, ◌-◌, ◌%◌, ◌==◌, ◌||◌, ◌&&◌, not, Bool, true, false, Option, none, some, ◌>>=◌, List,
  [], ◌∷◌, ◌++◌, drop, length, ltb, leb, if◌then◌else◌, Bytes,
}
use tr069agent.Prelude.Int.{ℤ, pos, sub_ℕ, pos_part, neg_part}
use tr069agent.Common.Number.{skip_spaces, read_digits, uint_to_string, ulong_max, uint_max}
use tr069agent.Parameter.Struct.{Parameter, Engine, null, dm_only, computed, same_storage, save}
use tr069agent.Parameter.Name.{is_node, starts_with}
use tr069agent.Parameter.Check.{to_uint}
use tr069agent.Parameter.Value.{commit, update_value}
use tr069agent.Store.Tree.{Tree, create_instance, delete_object, prototype_rest}
use tr069agent.Access.{
  Manager, Platform, entity_system, request_denied, resources_exceeded, invalid_parameter_name,
  find, change,
}
use tr069agent.Access.Set.{Status, undetermined, applied_status}

-- What follows the name of the object and the dot of its prototype, in the text of a definition.
unfoldable pub behind_prototype : Bytes → Bytes → Option Bytes
unfolding prototype_rest
behind_prototype object def = elim (prototype_rest object def) [
  | none ↦ none
  | some r ↦ some (drop 1 r)
]

-- A definition that starts with a prototype of the object, or counts its instances, is one of the
-- instance.
unfoldable pub relocated : Bytes → Bytes → Bytes → Option Bytes
unfolding behind_prototype
relocated object instance [] = none
relocated object instance (c ∷ cs) =
    if c == b'#'
    then (elim (behind_prototype object cs) [
      | none ↦ none
      | some r ↦ some (b'#' ∷ (instance ++ r))
    ])
    else (elim (behind_prototype object (c ∷ cs)) [ none ↦ none | some r ↦ some (instance ++ r) ])

-- The names without the prefix of the data model.
unfoldable pub relocation : ℕ → Bytes → Bytes → Parameter → Option Bytes
unfolding starts_with same_storage relocated
relocation skip object instance p =
    if starts_with instance (drop skip p.name) && same_storage p.storage_mode computed
    then p.definition >>= relocated object instance
    else none

unfoldable pub relocate_all : ℕ → Bytes → Bytes → Bool → List Parameter → List Parameter × Bool
unfolding relocation
relocate_all skip object instance saved [] = ([], saved)
relocate_all skip object instance saved (p ∷ ps) =
    let (rest, saved') = relocate_all skip object instance saved ps in
    elim (relocation skip object instance p) [
      | none ↦ (p ∷ rest, saved')
      | some d ↦ (record p { definition = some d } ∷ rest, true)
    ]

unfoldable pub relocate_instances : Platform → Tree → Bytes → ℕ → Tree
unfolding relocate_all uint_to_string
relocate_instances pf t object n =
    let skip = length pf.names.prefix in
    let short = drop skip object in
    let (ps, saved) =
      relocate_all skip short (short ++ uint_to_string n ++ b'.' ∷ []) t.data_changed
        t.parameters in
    record t { parameters = ps; data_changed = saved }

-- The fault code, the number of the instance, the status and the manager.
pub record Added : Type 0 where
  pub code : ℕ
  pub number : Option ℕ
  pub status : Status
  pub manager : Manager

unfoldable pub add_fault : ℕ → Status → Manager → Added
add_fault code status m = record { code = code; number = none; status = status; manager = m }

abbrev pub int_max_ℕ : ℕ
int_max_ℕ = 0x7fff_ffff

-- `minValue` has the last number given.
unfoldable pub raise : ℤ → ℤ
raise n = sub_ℕ (pos_part n + 1) (neg_part n)

unfoldable pub numbered : Platform → Engine → Engine
unfolding commit save raise
numbered pf e =
    commit pf.names.device_status (save e (record e.param { min_value = raise e.param.min_value }))

-- The value of the object is dropped, as one that has changed.
unfoldable pub dropped : Platform → Engine → Engine
unfolding update_value
dropped pf e = update_value pf.names.device_status e null true

-- The parameters of the instance; `none` is a write behind the buffer of a name.
unfoldable pub insert_instance : Platform → Manager → Bytes → ℕ → Option Manager
unfolding change dropped find create_instance relocate_instances
insert_instance pf m object n =
    let m' = change m object (dropped pf) in
    elim (find m' object) [
      | none ↦ none
      | some p ↦ elim (create_instance m'.tree p n) [
        | none ↦ none
        | some t ↦ some (record m' { tree = relocate_instances pf t object n })
      ]
    ]

unfoldable pub inserted : Status → Manager → Platform → Bytes → ℕ → Option Added
unfolding insert_instance
inserted status m pf object n = insert_instance pf m object n >>= λ m'.
    some (record { code = 0; number = some n; status = status; manager = m' })

unfoldable pub add_object : Platform → Manager → ℕ → Bytes → Option Added
unfolding find is_node applied_status same_storage to_uint change numbered inserted add_fault
add_object pf m entity object = elim (find m object) [
  | none ↦ some (add_fault invalid_parameter_name undetermined m)
  | some p ↦
      if not (is_node p.name)
      then some (add_fault invalid_parameter_name undetermined m)
      else if not p.writable
      then some (add_fault request_denied undetermined m)
      else if same_storage p.storage_mode dm_only
      then (if leb int_max_ℕ (to_uint p.min_value)
          then some (add_fault resources_exceeded (applied_status p) m)
          else inserted (applied_status p) (change m object (numbered pf)) pf object
              (to_uint (raise p.min_value)))
      else if entity == entity_system
      then some (add_fault request_denied (applied_status p) m)
      else let (code, n) = pf.device.add_instance object in
        if code == 0
        then inserted (applied_status p) m pf object n
        else some (add_fault code (applied_status p) m)
]

-- strtoul, with `none` for a number above UINT_MAX.
unfoldable pub strtoul_from : Bool → Bytes → Option ℕ
unfolding read_digits
strtoul_from negative s =
    let n : ℕ = (read_digits 0 s).0 in
    let value : ℕ = if negative && not (n == 0) then suc ulong_max - n else n in
    if ltb ulong_max n || ltb uint_max value then none else some value

unfoldable pub strtoul_sign : Bytes → Option ℕ
unfolding strtoul_from
strtoul_sign [] = strtoul_from false []
strtoul_sign (c ∷ cs) =
    if c == b'-'
    then strtoul_from true cs
    else if c == b'+'
    then strtoul_from false cs
    else strtoul_from false (c ∷ cs)

-- The name up to a dot, and what follows it, both backwards, from the end that is given.
unfoldable pub last_part : Bytes → Bytes → Option (Bytes × Bytes)
last_part behind [] = none
last_part behind (c ∷ []) = none
last_part behind (c ∷ d ∷ cs) =
    let rest = last_part (c ∷ behind) (d ∷ cs) in
    if c == b'.' then some (c ∷ d ∷ cs, behind) else rest

-- The prototype and the number of an instance: the dot before the last two characters, or further up.
unfoldable pub split_instance : Bytes → Option (Bytes × Option ℕ)
unfolding last_part strtoul_sign skip_spaces
split_instance object = elim (reverse object) [
  | [] ↦ none
  | c ∷ [] ↦ none
  | c ∷ d ∷ cs ↦ elim (last_part (d ∷ c ∷ []) cs) [
    | none ↦ none
    | some (proto, number) ↦ some (reverse proto, strtoul_sign (skip_spaces number))
  ]
]

unfoldable pub is_object : Option Parameter → Bool
unfolding is_node
is_object none = false
is_object (some p) = is_node p.name

-- What the device answers, where it is asked.
unfoldable pub delete_from_device : Platform → ℕ → Parameter → ℕ → ℕ
unfolding same_storage
delete_from_device pf entity p n =
    if not (same_storage p.storage_mode dm_only) && not (entity == entity_system)
    then pf.device.remove_instance p.name n
    else 0

-- An instance that the device does not have goes, too.
unfoldable pub delete_instance :
    Platform → Manager → ℕ → Bytes → Parameter → ℕ → ℕ × Status × Manager
unfolding delete_from_device applied_status change dropped delete_object
delete_instance pf m entity object p n =
    let code = delete_from_device pf entity p n in
    let m' = change m p.name (dropped pf) in
    if code == 0 || code == invalid_parameter_name
    then (code, applied_status p, record m' { tree = delete_object m'.tree object })
    else (code, applied_status p, m)

unfoldable pub delete_parameter_object : Platform → Manager → ℕ → Bytes → ℕ × Status × Manager
unfolding find is_object split_instance delete_instance
delete_parameter_object pf m entity object =
    let refuse : ℕ → ℕ × Status × Manager = λ code. (code, undetermined, m) in
    if is_object (find m object)
    then (elim (split_instance object) [
      | none ↦ refuse invalid_parameter_name
      | some (proto, none) ↦ refuse invalid_parameter_name
      | some (proto, some n) ↦ elim (find m proto) [
        | none ↦ refuse invalid_parameter_name
        | some p ↦
            if not (is_object (some p))
            then refuse invalid_parameter_name
            else if not p.writable
            then refuse request_denied
            else delete_instance pf m entity object p n
      ]
    ])
    else refuse invalid_parameter_name
