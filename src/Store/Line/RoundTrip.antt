-- ===== src/Store/Line/RoundTrip.antt =====
-- What is written comes back.
use tr069agent.Prelude.{
  ℕ, ◌≤◌, ◌<◌, Bool, false, Option, none, some, ◌>>=◌, List, [], ◌∷◌, ◌++◌, ◌≡◌, refl, ap, ◌∙◌,
  ◌==◌, Bytes, length, length-append, lt→ltb, All, All-append, arith,
}
use tr069agent.Common.CommaList.{build_comma_separated_list, text_or_empty}
use tr069agent.Parameter.Struct.{text_at, Parameter}
use tr069agent.Parameter.Name.{starts_with}
use tr069agent.Parameter.TypeText.{type_to_string}
use tr069agent.Parameter.Make.{new_parameter}
use tr069agent.Store.Tree.{max_line_len}
use tr069agent.Store.Line.{
  storage_number, notification_number, state_number, semicolons, flag, in_line, write_parameter,
  trim_line, readln, attributes, decoded, is_ignored, parameter, parameter_or_failed,
  read_parameter,
}
use tr069agent.Store.Line.Fields.{IsField, number-IsField, type-IsField, encoded-IsField}
use tr069agent.Store.Line.Values.{list_of, HasFields, IsStoredAccess, attributes-fields}
use tr069agent.Store.Line.Stored.{
  IsStored, stored-IsAscii, value-IsAscii, line_fields, line_of, write_parameter-line,
  decoded-fields, new_parameter-fields,
}

-- The characters of a line are no control characters.
abbrev pub IsPrinted : Bytes → Type 0
IsPrinted = All (λ c. (32 ≤ c) × (c < 128))

pub IsField-IsPrinted : (s : Bytes) → IsField s → IsPrinted s
IsField-IsPrinted [] h = tt
IsField-IsPrinted (c ∷ s) h = ((h.0.1, h.0.2), IsField-IsPrinted s h.1)

semicolons-IsPrinted : (xs : List Bytes) → All IsField xs → IsPrinted (semicolons xs)
unfolding semicolons
semicolons-IsPrinted [] h = tt
semicolons-IsPrinted (x ∷ xs) h = (
  (omega arith, omega arith),
  All-append (λ c. (32 ≤ c) × (c < 128)) x (semicolons xs) (IsField-IsPrinted x h.0)
      (semicolons-IsPrinted xs h.1),
)

access-IsField :
    (al : Option (List Bytes))
    → IsStoredAccess al
    → IsField (text_or_empty (al >>= build_comma_separated_list))
unfolding text_or_empty build_comma_separated_list
access-IsField none h = tt
access-IsField (some []) h = absurd h
access-IsField (some (x ∷ xs)) h = h.1

flag-IsField : (b : Bool) → IsField (flag b)
unfolding flag
flag-IsField b = number-IsField _

HasFields-line :
    (p : Parameter) (short : Bytes) → IsStored short p → HasFields (line_fields p short)
HasFields-line p short h = (
  h.name_field,
  (
    type-IsField p.type p.min_value p.max_value,
    (
      number-IsField (storage_number p.storage_mode),
      (
        flag-IsField p.writable,
        (
          number-IsField p.immediate_changes,
          (
            number-IsField (notification_number p.notification),
            (
              flag-IsField p.mandatory_notification,
              (
                flag-IsField p.active_notification_denied,
                (
                  access-IsField p.access_list h.access,
                  (
                    encoded-IsField (text_or_empty (text_at p.value))
                        (value-IsAscii p.value h.value),
                    (
                      number-IsField p.loading_mode,
                      (
                        number-IsField (state_number p.state),
                        (
                          encoded-IsField (text_or_empty (text_at p.back_value))
                              (value-IsAscii p.back_value h.back_value),
                          (
                            encoded-IsField (text_or_empty p.config_key)
                                (stored-IsAscii p.config_key h.config_key),
                            (
                              encoded-IsField (text_or_empty p.definition)
                                  (stored-IsAscii p.definition h.definition),
                              tt,
                            ),
                          ),
                        ),
                      ),
                    ),
                  ),
                ),
              ),
            ),
          ),
        ),
      ),
    ),
  ),
)

pub trim_line-IsPrinted : (s : Bytes) → IsPrinted s → trim_line s ≡ s
unfolding trim_line
trim_line-IsPrinted [] h = refl
trim_line-IsPrinted (c ∷ []) h = ground arith
trim_line-IsPrinted (c ∷ d ∷ s) h = rw (trim_line, trim_line-IsPrinted (d ∷ s) h.1) refl

-- A line is no comment, no CRC and not short.
starts_with-semicolons :
    (c : ℕ) (s : Bytes) (xs : List Bytes)
    → (c == b';') ≡ false
    → starts_with (c ∷ []) s ≡ false
    → starts_with (c ∷ []) (s ++ semicolons xs) ≡ false
unfolding starts_with semicolons
starts_with-semicolons c [] [] h k = refl
starts_with-semicolons c [] (x ∷ xs) h k = rw h refl
starts_with-semicolons c (d ∷ s) xs h k = k

length_two : (a b c : Bytes) → 1 < length (a ++ b';' ∷ (b ++ b';' ∷ c))
length_two a b c =
    omega (arith, length-append a (b';' ∷ (b ++ b';' ∷ c)), length-append b (b';' ∷ c))

length-line : (p : Parameter) (short : Bytes) → 1 < length (line_of p short)
unfolding semicolons
length-line p short = length_two short (type_to_string p.type p.min_value p.max_value) _

readln-printed : (s : Bytes) → IsPrinted s → starts_with (b'*' ∷ []) s ≡ false → readln s ≡ some s
unfolding readln
readln-printed s h k = rw (readln, trim_line-IsPrinted s h, k) (ground arith)

read_line :
    (prefix : Bytes) (line : Bytes) (p : Parameter)
    → readln line ≡ some line
    → is_ignored line ≡ false
    → (decoded (attributes line) >>= λ attr. new_parameter prefix attr false) ≡ some p
    → read_parameter prefix false line ≡ parameter p
unfolding read_parameter parameter_or_failed
read_line prefix line p e f g = rw (read_parameter, e, f, g) refl

is_ignored-line :
    (p : Parameter) (short : Bytes) → IsStored short p → is_ignored (line_of p short) ≡ false
unfolding is_ignored
is_ignored-line p short h = ground (
  arith,
  length-line p short,
  starts_with-semicolons b'#' short (list_of (line_fields p short)) refl h.no_comment,
)

-- A parameter whose line fits in the buffer of 800 bytes is written without a write outside of a
-- buffer, and the line is read back as the same parameter: the name is the prefix with a text behind
-- it, and the parameter is one that a line can hold.
pub read_parameter-write_parameter :
    (prefix short : Bytes) (p : Parameter)
    → p.name ≡ prefix ++ short
    → IsStored short p
    → length (line_of p short) < max_line_len
    → (line : Bytes) × (write_parameter prefix p ≡ some line)
      × (read_parameter prefix false line ≡ parameter p)
unfolding in_line
read_parameter-write_parameter prefix short p e h fits =
    let whole = HasFields-line p short h in
    let line = line_of p short in
    (
      line,
      write_parameter-line prefix short p e h
          ∙ rw (in_line, lt→ltb (length line) max_line_len fits) refl,
      read_line prefix line p
          (readln-printed line
            (All-append (λ c. (32 ≤ c) × (c < 128)) short
              (semicolons (list_of (line_fields p short))) (IsField-IsPrinted short whole.0)
              (semicolons-IsPrinted (list_of (line_fields p short)) whole.1))
            (starts_with-semicolons b'*' short (list_of (line_fields p short)) refl h.no_crc))
          (is_ignored-line p short h)
          (ap (λ a. decoded a >>= λ attr. new_parameter prefix attr false)
              (attributes-fields (line_fields p short) whole)
            ∙ ap (λ a. a >>= λ attr. new_parameter prefix attr false) (decoded-fields p short h)
            ∙ new_parameter-fields prefix short p e h),
    )
