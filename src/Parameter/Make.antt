-- ===== src/Parameter/Make.antt =====
-- dm_engine/src/DM_ENG_Parameter.c: the constructors of a parameter.
use tr069agent.Prelude.{
  ℕ, ◌/◌, ◌%◌, Bool, true, false, not, Option, none, some, ◌>>=◌, List, [], ◌∷◌, ◌++◌, ◌==◌,
  if◌then◌else◌, Bytes, codes, str_eq,
}
use tr069agent.Prelude.Int.{ℤ, pos, negsuc}
use tr069agent.Common.Number.{char_to_int}
use tr069agent.Common.CommaList.{split_comma_separated_list}
use tr069agent.Entity.{default_access_list}
use tr069agent.Parameter.Struct.{
  null, strdup, text_at, ParameterType, any, statistics, StorageMode, dm_only, system_only, mixed,
  computed, NotificationMode, off, passive, active, unspecified, State, initial, Parameter,
}
use tr069agent.Parameter.TypeText.{string_to_type}

-- The fields of a line of the data file.
pub record Attributes : Type 0 where
  pub name : Bytes
  pub type : Bytes
  pub storage_mode : Bytes
  pub writable : Bytes
  pub immediate_changes : Bytes
  pub notification : Bytes
  pub mandatory_notification : Bytes
  pub active_notification_denied : Bytes
  pub access_list : Bytes
  pub value : Bytes
  pub loading_mode : Bytes
  pub state : Bytes
  pub back_value : Bytes
  pub config_key : Bytes
  pub definition : Bytes

-- `DM_ENG_charToInt (*attr)`: the NUL of an empty text is no digit.
unfoldable pub first_digit : Bytes → Option ℕ
unfolding char_to_int
first_digit [] = none
first_digit (c ∷ cs) = char_to_int c

-- Digits above the constants of an enum are no value that the model has.
unfoldable pub storage_of : Option ℕ → Option StorageMode
storage_of none = some dm_only
storage_of (some n) =
    if n == 0
    then some dm_only
    else if n == 1
    then some system_only
    else if n == 2
    then some mixed
    else if n == 3
    then some computed
    else none

unfoldable pub notification_of : Option ℕ → Option NotificationMode
notification_of none = some off
notification_of (some n) =
    if n == 0
    then some off
    else if n == 1
    then some passive
    else if n == 2
    then some active
    else if n == 3
    then some unspecified
    else none

-- A digit, or the letter that stands for yes.
unfoldable pub flag_of : Bytes → Bytes → Bool
unfolding first_digit str_eq
flag_of word s = elim (first_digit s) [ none ↦ str_eq s word | some n ↦ not (n == 0) ]

unfoldable pub immediate_of : Bytes → ℕ
unfolding first_digit str_eq
immediate_of s = elim (first_digit s) [ none ↦ if str_eq s (codes "Y") then 1 else 0 | some n ↦ n ]

unfoldable pub digit_or_zero : Bytes → ℕ
unfolding first_digit
digit_or_zero s = elim (first_digit s) [ none ↦ 0 | some n ↦ n ]

-- The bits of a state below 32.
unfoldable pub state_of : ℕ → State
state_of n = record {
  value_changed = n % 2 == 1;
  change_requested = (n / 2) % 2 == 1;
  being_evaluated = (n / 4) % 2 == 1;
  loaded = (n / 8) % 2 == 1;
  pushed = (n / 16) % 2 == 1;
}

unfoldable pub access_list_of : Bool → Bytes → Option (List Bytes)
unfolding split_comma_separated_list str_eq
access_list_of ini [] = if ini then some default_access_list else none
access_list_of ini (c ∷ cs) =
    if str_eq (c ∷ cs) (codes "Subscriber")
    then some default_access_list
    else split_comma_separated_list (some (c ∷ cs))

-- NULL for the empty text.
unfoldable pub text_or_null : Bytes → Option Bytes
text_or_null [] = none
text_or_null (c ∷ cs) = some (c ∷ cs)

-- `prefix` is `DM_ENG_PARAMETER_PREFIX`; the type comes with its bounds.
unfoldable pub filled :
    Bytes → Attributes → Bool → ParameterType × ℤ × ℤ → StorageMode → NotificationMode → Parameter
unfolding flag_of immediate_of digit_or_zero state_of access_list_of text_or_null strdup
filled prefix attr ini (type, min, max) storage_mode notification = record {
  name = prefix ++ attr.name;
  type = type;
  min_value = min;
  max_value = max;
  storage_mode = storage_mode;
  writable = flag_of (codes "W") attr.writable;
  immediate_changes = immediate_of attr.immediate_changes;
  access_list = access_list_of ini attr.access_list;
  notification = notification;
  mandatory_notification = flag_of (codes "Y") attr.mandatory_notification;
  active_notification_denied = flag_of (codes "Y") attr.active_notification_denied;
  loading_mode = digit_or_zero attr.loading_mode;
  state = state_of (digit_or_zero attr.state);
  back_value = strdup (text_or_null attr.back_value);
  value = strdup (text_or_null attr.value);
  config_key = text_or_null attr.config_key;
  definition = text_or_null attr.definition;
}

-- `none` is an enum that the digit gives no constant of.
unfoldable pub new_parameter : Bytes → Attributes → Bool → Option Parameter
unfolding filled string_to_type storage_of notification_of first_digit
new_parameter prefix attr ini = do
  storage_mode ← storage_of (first_digit attr.storage_mode)
  notification ← notification_of (first_digit attr.notification)
  some (filled prefix attr ini (string_to_type attr.type (pos 0) (pos 0)) storage_mode notification)

unfoldable pub is_statistics : ParameterType → Bool
is_statistics statistics = true
is_statistics _ = false

-- The list of access is shared with the prototype in the code.
unfoldable pub new_instance_parameter : Bytes → Parameter → Parameter
unfolding is_statistics text_at strdup
new_instance_parameter name proto = record proto {
  name = name;
  type = if is_statistics proto.type then any else proto.type;
  min_value = if is_statistics proto.type then pos 0 else proto.min_value;
  loading_mode = proto.loading_mode % 2;
  state = initial;
  back_value = strdup (text_at proto.back_value);
  value = strdup (text_at proto.value);
}

-- `maxValue` is UINT_MAX as an `int`.
unfoldable pub new_defined_parameter : Bytes → ParameterType → Option Bytes → Bool → Parameter
unfolding split_comma_separated_list
new_defined_parameter name type def hidden = record {
  name = name;
  type = type;
  min_value = pos 0;
  max_value = negsuc 0;
  storage_mode = dm_only;
  writable = false;
  immediate_changes = 0;
  access_list =
      if hidden then split_comma_separated_list (some (codes "_")) else some default_access_list;
  notification = off;
  mandatory_notification = false;
  active_notification_denied = false;
  loading_mode = 0;
  state = initial;
  back_value = null;
  value = null;
  config_key = none;
  definition = def;
}
