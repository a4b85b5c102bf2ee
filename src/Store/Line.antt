-- ===== src/Store/Line.antt =====
-- dm_target_implementation/PCLINUX/dm_target_dataManagement/src/DM_DAT1_ParameterData.c: the line of a
-- parameter in the data file, as `_writeParameters` writes it and as `_readFileParameters` reads it.
pub mod Fields
pub mod Values
pub mod Stored
pub mod RoundTrip
mod Tests
use tr069agent.Prelude.{
  ℕ, zero, suc, ◌+◌, ◌*◌, Bool, true, false, ◌&&◌, ◌||◌, Option, none, some, ◌>>=◌, List, [], ◌∷◌,
  ◌++◌, ltb, leb, ◌==◌, if◌then◌else◌, Bytes, cut_at, length, drop,
}
use tr069agent.Prelude.Int.{pos}
use tr069agent.Common.Number.{int_to_string}
use tr069agent.Common.CommaList.{build_comma_separated_list, text_or_empty}
use tr069agent.Common.Escape.{Coded, unchanged, coded, fault, encode_value, decode_value}
use tr069agent.Parameter.Struct.{
  Parameter, StorageMode, dm_only, system_only, mixed, computed, NotificationMode, off, passive,
  active, unspecified, State, text_at,
}
use tr069agent.Parameter.Name.{starts_with}
use tr069agent.Parameter.TypeText.{type_to_string}
use tr069agent.Parameter.Make.{Attributes, new_parameter}
use tr069agent.Store.Tree.{max_line_len}

abbrev bit : Bool → ℕ
bit true = 1
bit false = 0

unfoldable pub storage_number : StorageMode → ℕ
storage_number dm_only = 0
storage_number system_only = 1
storage_number mixed = 2
storage_number computed = 3

unfoldable pub notification_number : NotificationMode → ℕ
notification_number off = 0
notification_number passive = 1
notification_number active = 2
notification_number unspecified = 3

unfoldable pub state_number : State → ℕ
state_number s =
    bit s.value_changed
    + 2 * bit s.change_requested
    + 4 * bit s.being_evaluated
    + 8 * bit s.loaded
    + 16 * bit s.pushed

-- "%d".
unfoldable pub number : ℕ → Bytes
unfolding int_to_string
number n = int_to_string (pos n)

-- The text, coded where it has something to code; `none` is a write outside of the buffer.
unfoldable pub text_or_coded : Bytes → Coded → Option Bytes
text_or_coded s unchanged = some s
text_or_coded s (coded t) = some t
text_or_coded s fault = none

-- NULL is written as the empty text.
unfoldable pub encoded_field : Option Bytes → Option Bytes
unfolding text_or_coded encode_value
encoded_field none = some []
encoded_field (some s) = text_or_coded s (encode_value (some s))

-- Each text behind a semicolon.
unfoldable pub semicolons : List Bytes → Bytes
semicolons [] = []
semicolons (x ∷ xs) = b';' ∷ (x ++ semicolons xs)

unfoldable pub flag : Bool → Bytes
unfolding number
flag b = number (bit b)

-- The fields behind the name.
unfoldable pub written_fields : Parameter → Bytes → Bytes → Bytes → Bytes → List Bytes
unfolding type_to_string number flag storage_number notification_number state_number text_or_empty
    build_comma_separated_list
written_fields p val b_val k_val sys_val =
    type_to_string p.type p.min_value p.max_value
    ∷ number (storage_number p.storage_mode)
    ∷ flag p.writable
    ∷ number p.immediate_changes
    ∷ number (notification_number p.notification)
    ∷ flag p.mandatory_notification
    ∷ flag p.active_notification_denied
    ∷ text_or_empty (p.access_list >>= build_comma_separated_list)
    ∷ val
    ∷ number p.loading_mode
    ∷ number (state_number p.state)
    ∷ b_val
    ∷ k_val
    ∷ sys_val
    ∷ []

-- `_line` has 800 bytes; `none` is a write outside of a buffer.
unfoldable pub in_line : Bytes → Option Bytes
in_line s = if ltb (length s) max_line_len then some s else none

-- The line of a parameter whose name has the prefix.
unfoldable pub write_parameter : Bytes → Parameter → Option Bytes
unfolding encoded_field written_fields semicolons in_line text_at
write_parameter prefix p = do
  val ← encoded_field (text_at p.value)
  b_val ← encoded_field (text_at p.back_value)
  k_val ← encoded_field p.config_key
  sys_val ← encoded_field p.definition
  in_line (drop (length prefix) p.name ++ semicolons (written_fields p val b_val k_val sys_val))

-- The text without the characters at its end that are below a space, as a signed `char`.
unfoldable pub trim_line : Bytes → Bytes
trim_line [] = []
trim_line (c ∷ cs) = elim (trim_line cs) [
  | [] ↦ if ltb c b' ' || leb 128 c then [] else c ∷ []
  | d ∷ ds ↦ c ∷ d ∷ ds
]

-- `none` is the line of the CRC, which ends the data.
unfoldable pub readln : Bytes → Option Bytes
unfolding trim_line starts_with
readln s =
    let t = trim_line s in if ltb 1 (length t) && starts_with (b'*' ∷ []) t then none else some t

-- The field up to the next semicolon, and what follows it; no text is left behind the last field.
unfoldable pub next_field : Option Bytes → Bytes × Option Bytes
unfolding cut_at
next_field none = ([], none)
next_field (some s) = elim (cut_at b';' s) [ none ↦ (s, none) | some (a, b) ↦ (a, some b) ]

unfoldable pub decoded_field : Bytes → Option Bytes
unfolding text_or_coded decode_value
decoded_field s = text_or_coded s (decode_value (some s))

unfoldable pub attributes : Bytes → Attributes
unfolding next_field
attributes line =
    let (name, s1) = next_field (some line) in
    let (type, s2) = next_field s1 in
    let (storage_mode, s3) = next_field s2 in
    let (writable, s4) = next_field s3 in
    let (immediate_changes, s5) = next_field s4 in
    let (notification, s6) = next_field s5 in
    let (mandatory_notification, s7) = next_field s6 in
    let (active_notification_denied, s8) = next_field s7 in
    let (access_list, s9) = next_field s8 in
    let (value, s10) = next_field s9 in
    let (loading_mode, s11) = next_field s10 in
    let (state, s12) = next_field s11 in
    let (back_value, s13) = next_field s12 in
    let (config_key, s14) = next_field s13 in
    let (definition, s15) = next_field s14 in
    record {
      name = name;
      type = type;
      storage_mode = storage_mode;
      writable = writable;
      immediate_changes = immediate_changes;
      notification = notification;
      mandatory_notification = mandatory_notification;
      active_notification_denied = active_notification_denied;
      access_list = access_list;
      value = value;
      loading_mode = loading_mode;
      state = state;
      back_value = back_value;
      config_key = config_key;
      definition = definition;
    }

unfoldable pub decoded : Attributes → Option Attributes
unfolding decoded_field
decoded attr = do
  val ← decoded_field attr.value
  b_val ← decoded_field attr.back_value
  k_val ← decoded_field attr.config_key
  sys_val ← decoded_field attr.definition
  some (record attr { value = val; back_value = b_val; config_key = k_val; definition = sys_val })

-- An empty line or a comment.
unfoldable pub is_ignored : Bytes → Bool
unfolding starts_with
is_ignored s = leb (length s) 1 || starts_with (b'#' ∷ []) s

-- What a line gives.
pub data Line : Type 0 where
  crc_line ignored failed : Line
  parameter : Parameter → Line

unfoldable pub parameter_or_failed : Option Parameter → Line
parameter_or_failed none = failed
parameter_or_failed (some p) = parameter p

unfoldable pub read_parameter : Bytes → Bool → Bytes → Line
unfolding readln is_ignored attributes decoded new_parameter parameter_or_failed
read_parameter prefix ini s = elim (readln s) [
  | none ↦ crc_line
  | some line ↦
      if is_ignored line
      then ignored
      else parameter_or_failed (decoded (attributes line) >>= λ attr. new_parameter prefix attr ini)
]
