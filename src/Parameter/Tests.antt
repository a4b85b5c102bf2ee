-- ===== src/Parameter/Tests.antt =====
-- A parameter of dm_engine/src/DM_ENG_Parameter.c on concrete inputs.
use tr069agent.Prelude.{◌≡◌, ◌↔◌, refl, true, false, none, some, [], ◌∷◌, ◌++◌, Bytes, codes, arith}
use tr069agent.Prelude.Int.{pos, negsuc}
use tr069agent.Parameter.Struct.{
  Parameter, Engine, initial, null, heap, int, uint, mixed, active, save,
}
use tr069agent.Parameter.Name.{is_node_instance, get_long_name, starts_with, leading_dots}
use tr069agent.Parameter.Name.Relative.{get_long_name-dots}
use tr069agent.Parameter.Name.Instance.{IsInstance, is_node_instance_iff}
use tr069agent.Parameter.Value.{set_value, get_value}
use tr069agent.Parameter.TypeText.{string_to_type, type_to_string}
use tr069agent.Parameter.TypeText.RoundTrip.{string_to_type-type_to_string}
use tr069agent.Parameter.Step.{done, next, get_step, set_step, end, call}
use tr069agent.Parameter.Step.Unchanged.{Steps-unchanged}
use tr069agent.Parameter.Step.Pending.{Run-value_changed}

abbrev interval : Parameter
interval = record {
  name = codes "Device.ManagementServer.PeriodicInformInterval";
  type = int;
  min_value = negsuc 9;
  max_value = pos 100;
  storage_mode = mixed;
  writable = true;
  immediate_changes = 0;
  access_list = none;
  notification = active;
  mandatory_notification = false;
  active_notification_denied = false;
  loading_mode = 0;
  state = initial;
  back_value = null;
  value = heap (codes "60");
  config_key = none;
  definition = none;
}

abbrev engine : Engine
engine = record { param = interval; data_changed = false; calls = [] }

abbrev status : Bytes
status = codes "Device.DeviceInfo.DeviceStatus"

abbrev counter : Parameter
counter = record interval { type = uint; min_value = pos 1; max_value = negsuc 0 }

is_node_instance_iff_example :
    (is_node_instance (codes "Device.Host.12.") ≡ true) ↔ IsInstance (codes "Device.Host.12.")
is_node_instance_iff_example = is_node_instance_iff (codes "Device.Host.12.")

get_long_name-dots_example :
    get_long_name
      (codes "Device.")
      (codes "..Eee")
      (some (codes "Device.Aaa" ++ b'.' ∷ codes "Bbb.Ddd"))
    ≡ codes "Device.Aaa" ++ b'.' ∷ codes "Eee"
unfolding starts_with leading_dots
get_long_name-dots_example =
    get_long_name-dots (codes "Device.") (codes "Device.Aaa") (codes "Bbb.Ddd") (codes "Eee") 2 refl
      refl refl

Steps-unchanged_example : (get_value engine).1 ≡ engine
unfolding get_value
Steps-unchanged_example =
    Steps-unchanged status engine (get_value engine).1 (next (get_step engine) (done _)) refl

Run-value_changed_example :
    (set_value engine (some (codes "90"))).1.param.state.value_changed ≡ true
unfolding set_value save
Run-value_changed_example =
    Run-value_changed status engine (set_value engine (some (codes "90"))).1
      (call (set_step engine (some (codes "90"))) (end _)) refl refl

string_to_type-type_to_string_example :
    string_to_type (type_to_string int (negsuc 9) (pos 100)) (pos 0) (pos 0)
    ≡ (int, negsuc 9, pos 100)
string_to_type-type_to_string_example =
    string_to_type-type_to_string int (negsuc 9) (pos 100) (pos 0) (pos 0) (omega arith)
      (omega arith) (omega arith) (omega arith)
