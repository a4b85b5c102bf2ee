-- ===== src/Store/Keys.antt =====
-- dm_target_implementation/PCLINUX/dm_target_dataManagement/src/DM_DAT1_ParameterData.c: the command keys
-- of reboots, the count of attempts, and the time of the periodic Inform.
use tr069agent.Prelude.{
  Bool, true, false, Option, none, some, [], ◌∷◌, ◌++◌, ◌==◌, if◌then◌else◌, Bytes,
}
use tr069agent.Prelude.Int.{ℤ}
use tr069agent.Store.Struct.{Control}

unfoldable pub set_periodic_inform_time : Control → ℤ → Control
set_periodic_inform_time c t = record c { periodic_inform_time = t; control_data_changed = true }

-- The key that is given: the pointer of the data itself, or another one.
pub data KeyArg : Type 0 where
  stored : KeyArg
  given : Option Bytes → KeyArg

-- Two NULL pointers are the same.
unfoldable pub set_reboot_command_key : Control → KeyArg → Control
set_reboot_command_key c stored = c
set_reboot_command_key c (given none) = elim c.reboot_command_key [
  | none ↦ c
  | some _ ↦ record c { reboot_command_key = none; control_data_changed = true }
]
set_reboot_command_key c (given (some k)) = record c {
  reboot_command_key = some k;
  control_data_changed = true;
}

-- `*sRebootCommandKey = '*'`; on an empty text it writes over the NUL, and `none` is that the text then
-- has no end.
unfoldable pub mark_factory_reset : Bytes → Option Bytes
mark_factory_reset [] = none
mark_factory_reset (c ∷ cs) = some (b'*' ∷ cs)

unfoldable pub is_star : Bytes → Bool
is_star [] = false
is_star (c ∷ cs) = c == b'*'

unfoldable pub joined_keys : Bytes → Bytes → Option Bytes
unfolding is_star mark_factory_reset
joined_keys old key = if is_star key then mark_factory_reset old else some (old ++ b',' ∷ key)

unfoldable pub with_key : Control → Option Bytes → Option Control
with_key c none = none
with_key c (some k) = some (record c { reboot_command_key = some k; control_data_changed = true })

unfoldable pub add_reboot_command_key : Control → Option Bytes → Option Control
unfolding joined_keys with_key
add_reboot_command_key c none = some c
add_reboot_command_key c (some key) = elim c.reboot_command_key [
  | none ↦ with_key c (some key)
  | some old ↦ with_key c (joined_keys old key)
]

unfoldable pub reset_retry_count : Control → Control
reset_retry_count c = record c { retry_count = 0; control_data_changed = true }
