-- ===== src/Store/Line/Stored.antt =====
-- The parameters that a line can hold, written and read.
use tr069agent.Prelude.{
  ℕ, ◌<◌, false, Option, none, some, [], ◌∷◌, ◌++◌, ◌≡◌, refl, ap, ◌∙◌, Bytes, codes, length, drop,
  All,
}
use tr069agent.Prelude.Int.{pos, ◌≤ℤ◌}
use tr069agent.Common.Number.{int_min, int_max}
use tr069agent.Common.CommaList.{text_or_empty}
use tr069agent.Common.Escape.Ascii.{IsAscii, encoded}
use tr069agent.Parameter.Struct.{CharPtr, null, empty, heap, text_at, Parameter}
use tr069agent.Parameter.Name.{starts_with}
use tr069agent.Parameter.TypeText.{string_to_type, type_to_string}
use tr069agent.Parameter.TypeText.RoundTrip.{kept_bounds, string_to_type-type_to_string}
use tr069agent.Parameter.Make.{Attributes, immediate_of, digit_or_zero, filled, new_parameter}
use tr069agent.Store.Line.{
  storage_number, notification_number, state_number, number, encoded_field, semicolons,
  written_fields, in_line, write_parameter, decoded,
}
use tr069agent.Store.Line.Fields.{IsField, encoded_field-encoded, decoded_field-encoded}
use tr069agent.Store.Line.Values.{
  list_of, fields, IsStoredText, IsStoredValue, IsStoredAccess, first_digit-number, state_of-number,
  storage_of-number, storage_number-lt, notification_of-number, notification_number-lt,
  flag_of-flag, strdup-stored, text_or_null-empty, access_list_of-stored,
}

-- A parameter that a line can hold: its numbers have one digit, its bounds are those that its type
-- writes, and its texts are ASCII and not empty.
pub record IsStored (short : Bytes) (p : Parameter) : Type 0 where
  pub name_field : IsField short
  pub no_comment : starts_with (b'#' ∷ []) short ≡ false
  pub no_crc : starts_with (b'*' ∷ []) short ≡ false
  pub min_ge : int_min ≤ℤ p.min_value
  pub min_le : p.min_value ≤ℤ int_max
  pub max_ge : int_min ≤ℤ p.max_value
  pub max_le : p.max_value ≤ℤ int_max
  pub bounds :
      kept_bounds p.type p.min_value p.max_value (pos 0) (pos 0) ≡ (p.min_value, p.max_value)
  pub immediate_lt : p.immediate_changes < 10
  pub loading_lt : p.loading_mode < 10
  pub state_lt : state_number p.state < 10
  pub access : IsStoredAccess p.access_list
  pub value : IsStoredValue p.value
  pub back_value : IsStoredValue p.back_value
  pub config_key : IsStoredText p.config_key
  pub definition : IsStoredText p.definition

pub stored-IsAscii : (o : Option Bytes) → IsStoredText o → All IsAscii (text_or_empty o)
unfolding text_or_empty
stored-IsAscii none h = tt
stored-IsAscii (some s) h = h.1

pub value-IsAscii : (v : CharPtr) → IsStoredValue v → All IsAscii (text_or_empty (text_at v))
unfolding text_at
value-IsAscii null h = stored-IsAscii none tt
value-IsAscii empty h = absurd h
value-IsAscii (heap s) h = stored-IsAscii (some s) h

encoded_field-text :
    (o : Option Bytes)
    → All IsAscii (text_or_empty o)
    → encoded_field o ≡ some (encoded (text_or_empty o))
unfolding text_or_empty encoded_field
encoded_field-text none h = refl
encoded_field-text (some s) h = encoded_field-encoded s h

-- The fields that are read, once decoded.
abbrev pub plain_fields : Parameter → Bytes → Attributes
plain_fields p short =
    fields p short (text_or_empty (text_at p.value)) (text_or_empty (text_at p.back_value))
      (text_or_empty p.config_key) (text_or_empty p.definition)

abbrev pub line_fields : Parameter → Bytes → Attributes
line_fields p short =
    fields p short (encoded (text_or_empty (text_at p.value)))
      (encoded (text_or_empty (text_at p.back_value))) (encoded (text_or_empty p.config_key))
      (encoded (text_or_empty p.definition))

abbrev pub line_of : Parameter → Bytes → Bytes
line_of p short = short ++ semicolons (list_of (line_fields p short))

drop-prefix : (a b : Bytes) → drop (length a) (a ++ b) ≡ b
drop-prefix [] b = refl
drop-prefix (x ∷ a) b = drop-prefix a b

pub write_parameter-line :
    (prefix short : Bytes) (p : Parameter)
    → p.name ≡ prefix ++ short
    → IsStored short p
    → write_parameter prefix p ≡ in_line (line_of p short)
unfolding write_parameter written_fields
write_parameter-line prefix short p e h =
    rw
      (
        write_parameter,
        encoded_field-text (text_at p.value) (value-IsAscii p.value h.value),
        encoded_field-text (text_at p.back_value) (value-IsAscii p.back_value h.back_value),
        encoded_field-text p.config_key (stored-IsAscii p.config_key h.config_key),
        encoded_field-text p.definition (stored-IsAscii p.definition h.definition),
        e,
        drop-prefix prefix short,
      )
      refl

pub decoded-fields :
    (p : Parameter) (short : Bytes)
    → IsStored short p
    → decoded (line_fields p short) ≡ some (plain_fields p short)
unfolding decoded
decoded-fields p short h =
    rw
      (
        decoded,
        decoded_field-encoded (text_or_empty (text_at p.value)) (value-IsAscii p.value h.value),
        decoded_field-encoded (text_or_empty (text_at p.back_value))
            (value-IsAscii p.back_value h.back_value),
        decoded_field-encoded (text_or_empty p.config_key)
            (stored-IsAscii p.config_key h.config_key),
        decoded_field-encoded (text_or_empty p.definition)
            (stored-IsAscii p.definition h.definition),
      )
      refl

immediate_of-number : (n : ℕ) → n < 10 → immediate_of (number n) ≡ n
unfolding immediate_of
immediate_of-number n h = rw (immediate_of, first_digit-number n h) refl

digit_or_zero-number : (n : ℕ) → n < 10 → digit_or_zero (number n) ≡ n
unfolding digit_or_zero
digit_or_zero-number n h = rw (digit_or_zero, first_digit-number n h) refl

stored_type :
    (p : Parameter) (short : Bytes)
    → IsStored short p
    → string_to_type (type_to_string p.type p.min_value p.max_value) (pos 0) (pos 0)
      ≡ (p.type, p.min_value, p.max_value)
stored_type p short h =
    string_to_type-type_to_string p.type p.min_value p.max_value (pos 0) (pos 0) h.min_ge h.min_le
      h.max_ge h.max_le
    ∙ ap (λ b. (p.type, b.0, b.1)) h.bounds

filled-fields :
    (prefix short : Bytes) (p : Parameter)
    → p.name ≡ prefix ++ short
    → IsStored short p
    → filled prefix
        (plain_fields p short)
        false
        (p.type, p.min_value, p.max_value)
        p.storage_mode
        p.notification
      ≡ p
unfolding filled
filled-fields prefix short p e h =
    rw
      (
        filled,
        flag_of-flag (codes "W") p.writable,
        immediate_of-number p.immediate_changes h.immediate_lt,
        access_list_of-stored p.access_list h.access,
        flag_of-flag (codes "Y") p.mandatory_notification,
        flag_of-flag (codes "Y") p.active_notification_denied,
        digit_or_zero-number p.loading_mode h.loading_lt,
        digit_or_zero-number (state_number p.state) h.state_lt,
        state_of-number p.state,
        strdup-stored p.value h.value,
        strdup-stored p.back_value h.back_value,
        text_or_null-empty p.config_key h.config_key,
        text_or_null-empty p.definition h.definition,
        ← e,
      )
      refl

pub new_parameter-fields :
    (prefix short : Bytes) (p : Parameter)
    → p.name ≡ prefix ++ short
    → IsStored short p
    → new_parameter prefix (plain_fields p short) false ≡ some p
unfolding new_parameter
new_parameter-fields prefix short p e h =
    rw
      (
        new_parameter,
        first_digit-number (storage_number p.storage_mode) (storage_number-lt p.storage_mode),
        storage_of-number p.storage_mode,
        first_digit-number (notification_number p.notification)
            (notification_number-lt p.notification),
        notification_of-number p.notification,
      )
      (ap some (
        ap (λ r. filled prefix (plain_fields p short) false r p.storage_mode p.notification)
          (stored_type p short h)
        ∙ filled-fields prefix short p e h))
