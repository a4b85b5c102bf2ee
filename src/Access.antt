-- ===== src/Access.antt =====
-- dm_engine/src/DM_ENG_ParameterManager.c: the access to the parameters, between a lock of the data and
-- its release.
pub mod Set
pub mod Commit
pub mod Lookup
pub mod Recursion
pub mod Given
pub mod Unset
pub mod Restored
pub mod Objects
pub mod Ends
mod Tests
use tr069agent.Prelude.{
  ℕ, ◌==◌, Bool, true, false, ◌||◌, ◌&&◌, Option, none, some, List, [], ◌∷◌, if◌then◌else◌, Bytes,
  codes, str_eq,
}
use tr069agent.Parameter.Struct.{
  CharPtr, empty, heap, null, is_null, Parameter, Engine, Call, computed, system_only, mixed,
  same_storage,
}
use tr069agent.Parameter.Name.{get_long_name, starts_with}
use tr069agent.Parameter.Value.{update_value}
use tr069agent.Store.Tree.{Tree, find_parameter, put_in}

-- What a commit starts elsewhere.
pub data Order : Type 0 where
  bootstrap_order : Order
  statistics_setting : Bytes → Bytes → Order

-- The list of parameters, the calls of the scheduler and the orders, each with the last one first, and
-- the static variables of the file. A diagnostic is an object, with `true` if it is to be started.
pub record Manager : Type 0 where
  pub tree : Tree
  pub calls : List Call
  pub orders : List Order
  pub diagnostics_requested : List (Bytes × Bool)
  pub periodic_inform_changed : Bool
  pub acs_parameters_to_update : Bool

-- The names that depend on the build.
pub record Names : Type 0 where
  pub prefix : Bytes
  pub parameter_key : Bytes
  pub periodic_inform : List Bytes
  pub acs_url : Bytes
  pub acs_account : List Bytes
  pub passwords : List Bytes
  pub device_status : Bytes

-- A value for the system: name, value and the value of the definition.
pub record SystemValue : Type 0 where
  pub name : Bytes
  pub value : Option Bytes
  pub argument : Option Bytes

-- The functions of the device adapter, with 0 or a fault code.
pub record Device : Type 0 where
  pub read_value : Bytes → Option Bytes → ℕ × Option Bytes
  pub send_values : List SystemValue → ℕ
  pub add_instance : Bytes → ℕ × ℕ
  pub remove_instance : Bytes → ℕ → ℕ

-- What the functions below use: `evaluate` is the value of a definition, with the parameters that are
-- loaded for it, and `load` is `DM_ENG_ParameterManager_loadSystemParameters`.
pub record Platform : Type 0 where
  pub names : Names
  pub device : Device
  pub entities : List Bytes
  pub is_date_string : Bytes → Bool
  pub evaluate : Manager → Parameter → Option Bytes × Manager
  pub load : Manager → Bytes → Bool → ℕ × Manager

abbrev pub entity_acs : ℕ
entity_acs = 0

abbrev pub entity_system : ℕ
entity_system = 2

abbrev pub entity_subscriber : ℕ
entity_subscriber = 3

abbrev pub request_denied : ℕ
request_denied = 9001

abbrev pub internal_error : ℕ
internal_error = 9002

abbrev pub resources_exceeded : ℕ
resources_exceeded = 9004

abbrev pub invalid_parameter_name : ℕ
invalid_parameter_name = 9005

abbrev pub read_only_parameter : ℕ
read_only_parameter = 9008

unfoldable pub find : Manager → Bytes → Option Parameter
find m name = find_parameter m.tree.parameters name

-- A parameter of the list with what its functions change besides.
unfoldable pub engine_at : Manager → Parameter → Engine
engine_at m p = record { param = p; data_changed = m.tree.data_changed; calls = m.calls }

unfoldable pub replace : Manager → Engine → Manager
replace m e = record m {
  tree = record m.tree {
    parameters = put_in m.tree.parameters e.param;
    data_changed = e.data_changed;
  };
  calls = e.calls;
}

-- A function of a parameter, at the parameter of that name, which is there.
unfoldable pub change : Manager → Bytes → (Engine → Engine) → Manager
unfolding find engine_at replace
change m name f = elim (find m name) [ none ↦ m | some p ↦ replace m (f (engine_at m p)) ]

-- A NULL value is the empty text.
unfoldable pub system_value : Option Bytes → CharPtr
system_value none = empty
system_value (some s) = heap s

unfoldable pub update_system_value : Platform → Option Bytes → Bool → Engine → Engine
unfolding update_value system_value
update_system_value pf v new_value e =
    update_value pf.names.device_status e (system_value v) new_value

-- The value comes from the system, and there is none.
unfoldable pub is_missing : Parameter → Bool
unfolding same_storage is_null
is_missing p =
    (same_storage p.storage_mode system_only || same_storage p.storage_mode mixed)
    && is_null p.value

unfoldable pub has_definition : Parameter → Bool
has_definition p = elim p.definition [ none ↦ false | some [] ↦ false | some (c ∷ cs) ↦ true ]

unfoldable pub definition_value : Platform → Manager → Parameter → Option Bytes × Manager
unfolding has_definition
definition_value pf m p = if has_definition p then pf.evaluate m p else (none, m)

-- The fault code, the value of the definition and the manager.
unfoldable pub load_system_parameter : Platform → Manager → Parameter → ℕ × Option Bytes × Manager
unfolding is_missing definition_value update_system_value change
load_system_parameter pf m p =
    if is_missing p
    then (let (argument, m') = definition_value pf m p in
        let (code, value) = pf.device.read_value p.name argument in
        if code == 0
        then (0, argument, change m' p.name (update_system_value pf value false))
        else (code, argument, m'))
    else (0, none, m)

-- The name that a redirection leads to: the definition of a computed parameter.
unfoldable pub next_name : Platform → Parameter → Option Bytes
unfolding same_storage get_long_name
next_name pf p =
    if same_storage p.storage_mode computed
    then (elim p.definition [
      | none ↦ none
      | some d ↦ some (get_long_name pf.names.prefix d (some p.name))
    ])
    else none

-- The first entity of the access list is "_".
unfoldable pub is_hidden : Parameter → Bool
unfolding str_eq
is_hidden p = elim p.access_list [
  | none ↦ false
  | some [] ↦ false
  | some (a ∷ others) ↦ str_eq a (codes "_")
]
