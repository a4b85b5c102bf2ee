-- ===== src/Store/Schedule.antt =====
-- dm_target_implementation/PCLINUX/dm_target_dataManagement/src/DM_DAT1_ParameterData.c: the scheduled
-- Informs, whose times and command keys stand in two comma-separated texts.
pub mod Packed
pub mod Passed
pub mod Insert
pub mod Refinement
use tr069agent.Prelude.{
  ℕ, zero, suc, ◌≤◌, Bool, true, false, ◌&&◌, ◌||◌, not, Option, none, some, ◌>>=◌, [], ◌∷◌, ◌++◌,
  if◌then◌else◌, Bytes, cut_at, length,
}
use tr069agent.Prelude.Int.{ℤ, pos, leb_ℤ, is_zero, is_positive}
use tr069agent.Common.Number.{strtol, int_to_string}
use tr069agent.Store.Struct.{Control}

-- The text up to the first comma.
unfoldable pub first_item : Bytes → Bytes
unfolding cut_at
first_item s = elim (cut_at b',' s) [ none ↦ s | some (a, b) ↦ a ]

-- What follows the first comma.
unfoldable pub rest_items : Option Bytes → Option Bytes
unfolding cut_at
rest_items none = none
rest_items (some s) = elim (cut_at b',' s) [ none ↦ none | some (a, b) ↦ some b ]

-- `atol` is strtol without its errors.
unfoldable pub scheduled_time : Option Bytes → ℤ
unfolding first_item strtol
scheduled_time none = pos 0
scheduled_time (some s) = (strtol (first_item s)).val

unfoldable pub get_scheduled_inform_time : Control → ℤ
unfolding scheduled_time
get_scheduled_inform_time c = scheduled_time c.scheduled_inform_time

unfoldable pub scheduled_key : Option Bytes → Option Bytes
unfolding first_item
scheduled_key none = none
scheduled_key (some s) = some (first_item s)

unfoldable pub get_scheduled_inform_command_key : Control → Option Bytes
unfolding scheduled_key
get_scheduled_inform_command_key c = scheduled_key c.scheduled_inform_command_key

unfoldable pub is_null_text : Option Bytes → Bool
is_null_text none = true
is_null_text (some s) = false

unfoldable pub next_scheduled_inform_command : Control → Control
unfolding rest_items is_null_text
next_scheduled_inform_command c =
    if is_null_text c.scheduled_inform_time || is_null_text c.scheduled_inform_command_key
    then c
    else record c {
      scheduled_inform_time = rest_items c.scheduled_inform_time;
      scheduled_inform_command_key = rest_items c.scheduled_inform_command_key;
      control_data_changed = true;
    }

-- The loop over the informs that are not later than `time`: the remaining data, and the two texts
-- that collect the items passed, each with a comma. `none` is strcat of a NULL key, or no fuel: the
-- loop does not end where a key is missing.
unfoldable pub pass_earlier : ℕ → ℤ → Control → Bytes → Bytes → Option (Control × Bytes × Bytes)
unfolding get_scheduled_inform_time get_scheduled_inform_command_key next_scheduled_inform_command
    int_to_string
pass_earlier zero time c times keys = none
pass_earlier (suc fuel) time c times keys =
    let prev : ℤ = get_scheduled_inform_time c in
    elim (not (is_zero prev) && leb_ℤ prev time) [
      | false ↦ some (c, times, keys)
      | true ↦ elim (get_scheduled_inform_command_key c) [
        | none ↦ none
        | some key ↦
            pass_earlier fuel time (next_scheduled_inform_command c)
              (times ++ (int_to_string prev ++ b',' ∷ [])) (keys ++ (key ++ b',' ∷ []))
      ]
    ]

-- What follows a text that is appended, with its comma; `none` is strcat of NULL.
unfoldable pub append_rest : Bytes → Option Bytes → Option Bytes
append_rest s none = none
append_rest s (some rest) = some (s ++ b',' ∷ rest)

unfoldable pub close_lists : ℤ → Bytes → Control × Bytes × Bytes → Option (Bytes × Bytes)
unfolding append_rest get_scheduled_inform_time int_to_string
close_lists time key (c, times, keys) =
    let times' : Bytes = times ++ int_to_string time in
    let keys' : Bytes = keys ++ key in
    if is_zero (get_scheduled_inform_time c)
    then some (times', keys')
    else elim (append_rest times' c.scheduled_inform_time) [
      | none ↦ none
      | some t ↦ elim (append_rest keys' c.scheduled_inform_command_key) [
        | none ↦ none
        | some k ↦ some (t, k)
      ]
    ]

unfoldable pub with_schedule : Control → Bytes → Bytes → Control
with_schedule c times keys = record c {
  scheduled_inform_time = some times;
  scheduled_inform_command_key = some keys;
  control_data_changed = true;
}

-- The fuel is the length of the times, which every round shortens. `none` is strlen of a NULL key.
unfoldable pub insert_scheduled : Control → ℤ → Bytes → Option Bytes → Option Bytes → Option Control
unfolding pass_earlier close_lists with_schedule int_to_string
insert_scheduled c time key none _ = some (with_schedule c (int_to_string time) key)
insert_scheduled c time key (some times) none = none
insert_scheduled c time key (some times) (some keys) = do
  passed ← pass_earlier (suc (length times)) time c [] []
  (t, k) ← close_lists time key passed
  some (with_schedule c t k)

unfoldable pub add_scheduled_inform_command : Control → ℤ → Option Bytes → Option Control
unfolding insert_scheduled
add_scheduled_inform_command c time none = some c
add_scheduled_inform_command c time (some key) =
    if is_positive time
    then insert_scheduled c time key c.scheduled_inform_time c.scheduled_inform_command_key
    else some c
