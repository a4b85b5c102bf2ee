-- ===== src/Parameter/Struct.antt =====
-- dm_engine/inc/DM_ENG_Parameter.h and dm_engine/src/DM_ENG_Parameter.c: the struct of a parameter,
-- and what the functions on it change besides.
use tr069agent.Prelude.{
  ℕ, Bool, true, false, ◌==◌, ◌||◌, Option, none, some, List, [], Bytes, codes,
}
use tr069agent.Prelude.Int.{ℤ}

-- A `char*` that the code compares with NULL and with the constant `DM_ENG_EMPTY`; a text of its own
-- may be empty, too.
pub data CharPtr : Type 0 where
  null empty : CharPtr
  heap : Bytes → CharPtr

unfoldable pub is_null : CharPtr → Bool
is_null null = true
is_null _ = false

unfoldable pub is_empty_constant : CharPtr → Bool
is_empty_constant empty = true
is_empty_constant _ = false

-- The text at the pointer.
unfoldable pub text_at : CharPtr → Option Bytes
text_at null = none
text_at empty = some []
text_at (heap s) = some s

-- `strdup`, or NULL.
unfoldable pub strdup : Option Bytes → CharPtr
strdup none = null
strdup (some s) = heap s

pub data ParameterType : Type 0 where
  int uint long boolean date string any statistics undefined : ParameterType

pub data StorageMode : Type 0 where
  dm_only system_only mixed computed : StorageMode

pub data NotificationMode : Type 0 where
  off passive active unspecified : NotificationMode

-- The bits of the state.
pub record State : Type 0 where
  pub value_changed : Bool
  pub change_requested : Bool
  pub being_evaluated : Bool
  pub loaded : Bool
  pub pushed : Bool

abbrev pub initial : State
initial = record {
  value_changed = false;
  change_requested = false;
  being_evaluated = false;
  loaded = false;
  pushed = false;
}

-- `state != 0`.
unfoldable pub is_set : State → Bool
is_set s = s.value_changed || s.change_requested || s.being_evaluated || s.loaded || s.pushed

-- Without the link to the next parameter.
pub record Parameter : Type 0 where
  pub name : Bytes
  pub type : ParameterType
  pub min_value : ℤ
  pub max_value : ℤ
  pub storage_mode : StorageMode
  pub writable : Bool
  pub immediate_changes : ℕ
  pub access_list : Option (List Bytes)
  pub notification : NotificationMode
  pub mandatory_notification : Bool
  pub active_notification_denied : Bool
  pub loading_mode : ℕ
  pub state : State
  pub back_value : CharPtr
  pub value : CharPtr
  pub config_key : Option Bytes
  pub definition : Option Bytes

abbrev pub flag_trigger : ℕ
flag_trigger = 3

-- The value is a flag that is cleared as soon as it is notified.
unfoldable pub is_trigger : Parameter → Bool
is_trigger p = p.immediate_changes == flag_trigger

-- The calls of the scheduler of inform messages.
pub data Call : Type 0 where
  diagnostics_complete : Call
  parameter_value_changed : Bytes → Call

-- A parameter with the flag `_dataChanged` of the file and the calls made, the last one first.
pub record Engine : Type 0 where
  pub param : Parameter
  pub data_changed : Bool
  pub calls : List Call

-- The parameter is replaced, and the data are to be saved.
unfoldable pub save : Engine → Parameter → Engine
save e p = record e { param = p; data_changed = true }

unfoldable pub same_storage : StorageMode → StorageMode → Bool
same_storage dm_only dm_only = true
same_storage system_only system_only = true
same_storage mixed mixed = true
same_storage computed computed = true
same_storage _ _ = false

unfoldable pub is_date : ParameterType → Bool
is_date date = true
is_date _ = false

unfoldable pub is_boolean : ParameterType → Bool
is_boolean boolean = true
is_boolean _ = false

unfoldable pub is_active : NotificationMode → Bool
is_active active = true
is_active _ = false

abbrev pub unknown_time : Bytes
unknown_time = codes "0001-01-01T00:00:00Z"

abbrev pub none_state : Bytes
none_state = codes "None"

abbrev pub requested_state : Bytes
requested_state = codes "Requested"

abbrev pub invalid_arguments : ℕ
invalid_arguments = 9003

abbrev pub invalid_parameter_value : ℕ
invalid_parameter_value = 9007

abbrev pub notification_request_rejected : ℕ
notification_request_rejected = 9009
