-- ===== src/Store/Line/Tests.antt =====
-- The line of a parameter.
use tr069agent.Prelude.{true, false, none, some, [], ◌∷◌, ◌≡◌, refl, Bytes, codes, arith}
use tr069agent.Prelude.Int.{pos, negsuc}
use tr069agent.Common.Number.{uint_to_string, uint_loop, int_to_string}
use tr069agent.Common.CommaList.{build_comma_separated_list, join_rest, text_or_empty}
use tr069agent.Common.Escape.{is_special, hex_char}
use tr069agent.Parameter.Struct.{Parameter, int, heap, null, dm_only, active, text_at}
use tr069agent.Parameter.Name.{starts_with}
use tr069agent.Parameter.TypeText.{type_to_string, bounds_text, int_bounds_text, code_of_type}
use tr069agent.Store.Line.{
  write_parameter, read_parameter, parameter, state_number, semicolons, number, flag,
  storage_number, notification_number,
}
use tr069agent.Store.Line.Stored.{IsStored}
use tr069agent.Store.Line.RoundTrip.{read_parameter-write_parameter}

-- An access list of one name.
abbrev level : Parameter
level = record {
  name = codes "Device.LAN.Level";
  type = int;
  min_value = negsuc 4;
  max_value = pos 10;
  storage_mode = dm_only;
  writable = true;
  immediate_changes = 1;
  access_list = some (codes "Subscriber" ∷ []);
  notification = active;
  mandatory_notification = false;
  active_notification_denied = true;
  loading_mode = 0;
  state = record {
    value_changed = true;
    change_requested = true;
    being_evaluated = false;
    loaded = false;
    pushed = false;
  };
  back_value = null;
  value = heap (codes "a;b");
  config_key = none;
  definition = some (codes "Other < 3");
}

level-IsStored : IsStored (codes "LAN.Level") level
unfolding starts_with state_number join_rest
level-IsStored = record {
  name_field = ground arith;
  no_comment = refl;
  no_crc = refl;
  min_ge = omega arith;
  min_le = omega arith;
  max_ge = omega arith;
  max_le = omega arith;
  bounds = refl;
  immediate_lt = omega arith;
  loading_lt = omega arith;
  state_lt = omega arith;
  access = (
    (record { no_comma = ground arith; starts = refl; ends = refl }, tt),
    ground arith,
    λ e. ground (arith, e),
  );
  value = (λ e. ground (arith, e), ground arith);
  back_value = tt;
  config_key = tt;
  definition = (λ e. ground (arith, e), ground arith);
}

read_parameter-write_parameter_example :
    (line : Bytes) × (write_parameter (codes "Device.") level ≡ some line)
    × (read_parameter (codes "Device.") false line ≡ parameter level)
unfolding semicolons type_to_string bounds_text int_bounds_text code_of_type number flag
    storage_number notification_number state_number is_special hex_char text_or_empty text_at
    build_comma_separated_list join_rest int_to_string uint_to_string uint_loop
read_parameter-write_parameter_example =
    read_parameter-write_parameter (codes "Device.") (codes "LAN.Level") level refl level-IsStored
      (omega arith)
