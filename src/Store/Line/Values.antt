-- ===== src/Store/Line/Values.antt =====
-- Every field of a line comes back.
use tr069agent.Prelude.{
  ℕ, ◌+◌, ◌<◌, ◌≢◌, Bool, true, false, Option, none, some, ◌>>=◌, List, [], ◌∷◌, ◌++◌, ◌≡◌, refl,
  ap, sym, ◌∙◌, Bytes, codes, str_eq, str_eq_iff, All, arith, Bool-cases, inl, inr,
}
use tr069agent.Common.Number.{int_to_string, uint_to_string, uint_loop, char_to_int}
use tr069agent.Common.CommaList.{
  build_comma_separated_list, join_rest, split_list, split_from, scan_char,
  split_comma_separated_list, text_or_empty,
}
use tr069agent.Common.CommaList.RoundTrip.{IsClean, split-build_comma_separated_list}
use tr069agent.Common.Escape.Ascii.{IsAscii}
use tr069agent.Parameter.Struct.{
  CharPtr, null, empty, heap, text_at, strdup, Parameter, StorageMode, NotificationMode, State,
}
use tr069agent.Parameter.TypeText.{type_to_string}
use tr069agent.Parameter.Make.{
  Attributes, first_digit, storage_of, notification_of, flag_of, state_of, access_list_of,
  text_or_null,
}
use tr069agent.Entity.{default_access_list}
use tr069agent.Store.Line.{
  storage_number, notification_number, state_number, number, semicolons, flag, attributes,
}
use tr069agent.Store.Line.Fields.{IsField, next_field-semicolons}

abbrev pub list_of : Attributes → List Bytes
list_of a =
    a.type ∷ a.storage_mode ∷ a.writable ∷ a.immediate_changes ∷ a.notification
    ∷ a.mandatory_notification ∷ a.active_notification_denied ∷ a.access_list ∷ a.value
    ∷ a.loading_mode ∷ a.state ∷ a.back_value ∷ a.config_key ∷ a.definition ∷ []

abbrev pub HasFields : Attributes → Type 0
HasFields a = IsField a.name × All IsField (list_of a)

pub attributes-fields :
    (a : Attributes) → HasFields a → attributes (a.name ++ semicolons (list_of a)) ≡ a
unfolding attributes
attributes-fields a (h, hs) =
    rw
      (
        attributes,
        next_field-semicolons a.name
            (a.type ∷ a.storage_mode ∷ a.writable ∷ a.immediate_changes ∷ a.notification
              ∷ a.mandatory_notification ∷ a.active_notification_denied ∷ a.access_list ∷ a.value
              ∷ a.loading_mode ∷ a.state ∷ a.back_value ∷ a.config_key ∷ a.definition ∷ [])
            h,
        next_field-semicolons a.type
            (a.storage_mode ∷ a.writable ∷ a.immediate_changes ∷ a.notification
              ∷ a.mandatory_notification ∷ a.active_notification_denied ∷ a.access_list ∷ a.value
              ∷ a.loading_mode ∷ a.state ∷ a.back_value ∷ a.config_key ∷ a.definition ∷ [])
            hs.0,
        next_field-semicolons a.storage_mode
            (a.writable ∷ a.immediate_changes ∷ a.notification ∷ a.mandatory_notification
              ∷ a.active_notification_denied ∷ a.access_list ∷ a.value ∷ a.loading_mode ∷ a.state
              ∷ a.back_value ∷ a.config_key ∷ a.definition ∷ [])
            hs.1.0,
        next_field-semicolons a.writable
            (a.immediate_changes ∷ a.notification ∷ a.mandatory_notification
              ∷ a.active_notification_denied ∷ a.access_list ∷ a.value ∷ a.loading_mode ∷ a.state
              ∷ a.back_value ∷ a.config_key ∷ a.definition ∷ [])
            hs.1.1.0,
        next_field-semicolons a.immediate_changes
            (a.notification ∷ a.mandatory_notification ∷ a.active_notification_denied
              ∷ a.access_list ∷ a.value ∷ a.loading_mode ∷ a.state ∷ a.back_value ∷ a.config_key
              ∷ a.definition ∷ [])
            hs.1.1.1.0,
        next_field-semicolons a.notification
            (a.mandatory_notification ∷ a.active_notification_denied ∷ a.access_list ∷ a.value
              ∷ a.loading_mode ∷ a.state ∷ a.back_value ∷ a.config_key ∷ a.definition ∷ [])
            hs.1.1.1.1.0,
        next_field-semicolons a.mandatory_notification
            (a.active_notification_denied ∷ a.access_list ∷ a.value ∷ a.loading_mode ∷ a.state
              ∷ a.back_value ∷ a.config_key ∷ a.definition ∷ [])
            hs.1.1.1.1.1.0,
        next_field-semicolons a.active_notification_denied
            (a.access_list ∷ a.value ∷ a.loading_mode ∷ a.state ∷ a.back_value ∷ a.config_key
              ∷ a.definition ∷ [])
            hs.1.1.1.1.1.1.0,
        next_field-semicolons a.access_list
            (a.value ∷ a.loading_mode ∷ a.state ∷ a.back_value ∷ a.config_key ∷ a.definition ∷ [])
            hs.1.1.1.1.1.1.1.0,
        next_field-semicolons a.value
            (a.loading_mode ∷ a.state ∷ a.back_value ∷ a.config_key ∷ a.definition ∷ [])
            hs.1.1.1.1.1.1.1.1.0,
        next_field-semicolons a.loading_mode
            (a.state ∷ a.back_value ∷ a.config_key ∷ a.definition ∷ []) hs.1.1.1.1.1.1.1.1.1.0,
        next_field-semicolons a.state (a.back_value ∷ a.config_key ∷ a.definition ∷ [])
            hs.1.1.1.1.1.1.1.1.1.1.0,
        next_field-semicolons a.back_value (a.config_key ∷ a.definition ∷ [])
            hs.1.1.1.1.1.1.1.1.1.1.1.0,
        next_field-semicolons a.config_key (a.definition ∷ []) hs.1.1.1.1.1.1.1.1.1.1.1.1.0,
        next_field-semicolons a.definition ([]) hs.1.1.1.1.1.1.1.1.1.1.1.1.1.0,
      )
      refl

-- The fields that are written, before or behind their coding.
abbrev pub fields : Parameter → Bytes → Bytes → Bytes → Bytes → Bytes → Attributes
fields p short val b_val k_val sys_val = record {
  name = short;
  type = type_to_string p.type p.min_value p.max_value;
  storage_mode = number (storage_number p.storage_mode);
  writable = flag p.writable;
  immediate_changes = number p.immediate_changes;
  notification = number (notification_number p.notification);
  mandatory_notification = flag p.mandatory_notification;
  active_notification_denied = flag p.active_notification_denied;
  access_list = text_or_empty (p.access_list >>= build_comma_separated_list);
  value = val;
  loading_mode = number p.loading_mode;
  state = number (state_number p.state);
  back_value = b_val;
  config_key = k_val;
  definition = sys_val;
}

-- A text that NULL stands for where it is empty.
abbrev pub IsStoredText : Option Bytes → Type 0
IsStoredText none = Unit {0}
IsStoredText (some s) = (s ≢ []) × All IsAscii s

abbrev pub IsStoredValue : CharPtr → Type 0
IsStoredValue null = Unit {0}
IsStoredValue empty = ⊥
IsStoredValue (heap s) = IsStoredText (some s)

abbrev pub IsStoredAccess : Option (List Bytes) → Type 0
IsStoredAccess none = Unit {0}
IsStoredAccess (some []) = ⊥
IsStoredAccess (some (x ∷ xs)) =
    All IsClean (x ∷ xs) × IsField (x ++ join_rest xs) × (x ++ join_rest xs ≢ [])

uint_to_string_digit : (n : ℕ) → n < 10 → uint_to_string n ≡ (b'0' + n) ∷ []
unfolding uint_to_string uint_loop
uint_to_string_digit n h = ground arith

pub first_digit-number : (n : ℕ) → n < 10 → first_digit (number n) ≡ some n
unfolding first_digit number int_to_string char_to_int
first_digit-number n h = rw (uint_to_string_digit n h) (ground arith)

pub state_of-number : (s : State) → state_of (state_number s) ≡ s
unfolding state_of state_number
state_of-number s = ground arith

pub storage_of-number : (m : StorageMode) → storage_of (some (storage_number m)) ≡ some m
unfolding storage_of storage_number
storage_of-number m = ground arith

pub storage_number-lt : (m : StorageMode) → storage_number m < 10
unfolding storage_number
storage_number-lt m = ground arith

pub notification_of-number :
    (m : NotificationMode) → notification_of (some (notification_number m)) ≡ some m
unfolding notification_of notification_number
notification_of-number m = ground arith

pub notification_number-lt : (m : NotificationMode) → notification_number m < 10
unfolding notification_number
notification_number-lt m = ground arith

pub flag_of-flag : (word : Bytes) (b : Bool) → flag_of word (flag b) ≡ b
unfolding flag_of flag first_digit char_to_int number int_to_string uint_to_string uint_loop
flag_of-flag word true = refl
flag_of-flag word false = refl

pub text_or_null-empty : (s : Option Bytes) → IsStoredText s → text_or_null (text_or_empty s) ≡ s
unfolding text_or_null text_or_empty
text_or_null-empty none h = refl
text_or_null-empty (some []) h = absurd (h.0 refl)
text_or_null-empty (some (c ∷ cs)) h = refl

pub strdup-stored :
    (v : CharPtr) → IsStoredValue v → strdup (text_or_null (text_or_empty (text_at v))) ≡ v
unfolding strdup text_at
strdup-stored null h = ap strdup (text_or_null-empty none tt)
strdup-stored empty h = absurd h
strdup-stored (heap s) h = ap strdup (text_or_null-empty (some s) h)

split_subscriber : split_comma_separated_list (some (codes "Subscriber")) ≡ some default_access_list
unfolding split_comma_separated_list split_list split_from scan_char
split_subscriber = refl

access_list_of-full :
    (s : Bytes) (l : List Bytes)
    → s ≢ []
    → split_comma_separated_list (some s) ≡ some l
    → access_list_of false s ≡ some l
unfolding access_list_of
access_list_of-full [] l full e = absurd (full refl)
access_list_of-full (c ∷ cs) l full e = elim (Bool-cases (str_eq (c ∷ cs) (codes "Subscriber"))) [
  | inl eq ↦
      rw (access_list_of, eq)
        (sym split_subscriber
          ∙ ap (λ s. split_comma_separated_list (some s))
              (sym ((str_eq_iff (c ∷ cs) (codes "Subscriber")).0 eq))
          ∙ e)
  | inr ne ↦ rw (access_list_of, ne) e
]

pub access_list_of-stored :
    (al : Option (List Bytes))
    → IsStoredAccess al
    → access_list_of false (text_or_empty (al >>= build_comma_separated_list)) ≡ al
unfolding access_list_of text_or_empty build_comma_separated_list
access_list_of-stored none h = refl
access_list_of-stored (some []) h = absurd h
access_list_of-stored (some (x ∷ xs)) (clean, field, full) =
    access_list_of-full (x ++ join_rest xs) (x ∷ xs) full
      (split-build_comma_separated_list x xs clean)
