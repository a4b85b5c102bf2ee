-- ===== src/Scheduler/Reboots.antt =====
-- From the reboots that are asked for to the events of the boot.
use tr069agent.Prelude.{false, Option, none, some, ◌>>=◌, List, [], ◌∷◌, ◌≡◌, Bytes}
use tr069agent.Common.CommaList.{build_comma_separated_list}
use tr069agent.Store.Struct.{Control}
use tr069agent.Store.ControlLine.{OtherData, other_data}
use tr069agent.Store.Keys.{add_reboot_command_key}
use tr069agent.Scheduler.{Scheduler}

-- Calls of `DM_ENG_ParameterData_addRebootCommandKey`, one after the other.
abbrev pub add_keys : List Bytes → Control → Option Control
add_keys [] c = some c
add_keys (k ∷ ks) c = add_reboot_command_key c (some k) >>= add_keys ks

abbrev IsJoined : Control → Bytes → List Bytes → Type 0
IsJoined c x xs = c.reboot_command_key ≡ build_comma_separated_list (x ∷ xs)

-- All but the reboot command keys.
abbrev bare : Control → Control
bare c = record c { reboot_command_key = none; control_data_changed = false }

-- The other data with a list of reboot command keys.
abbrev pub with_keys : Control → List Bytes → OtherData
with_keys c keys = record (other_data c) { reboot_command_key = build_comma_separated_list keys }
