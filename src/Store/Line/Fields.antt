-- ===== src/Store/Line/Fields.antt =====
-- The characters of the fields of a line, and a line taken apart.
use tr069agent.Prelude.{
  ℕ, suc, ◌+◌, ◌%◌, ◌/◌, ◌≤◌, ◌<◌, Bool, true, false, Option, none, some, List, [], ◌∷◌, ◌++◌, ◌≡◌,
  refl, ap, sym, ◌∙◌, if◌then◌else◌, ◌==◌, Bytes, contains, cut_at, All, All-append, append-nil,
  arith, Bool-cases, inl, inr,
}
use tr069agent.Prelude.Int.{ℤ, pos, negsuc, leb_ℤ}
use tr069agent.Common.Number.{int_to_string, uint_to_string}
use tr069agent.Common.Number.RoundTrip.{IsDecimal, uint_to_string-IsDecimal}
use tr069agent.Common.Escape.{
  Coded, unchanged, coded, fault, is_special, hex_char, encode_value, decode_value, count_special,
}
use tr069agent.Common.Escape.Ascii.{IsAscii, encoding, encoded, encode_value-encoded, encoded_plain}
use tr069agent.Common.Escape.Decode.{kept, decode-encode_value}
use tr069agent.Parameter.Struct.{
  ParameterType, int, uint, long, boolean, date, string, any, statistics, undefined,
}
use tr069agent.Parameter.TypeText.{
  type_to_string, bounds_text, int_bounds_text, uint_bounds_text, code_of_type,
}
use tr069agent.Parameter.Check.{to_uint}
use tr069agent.Store.Line.{
  text_or_coded, encoded_field, decoded_field, semicolons, next_field, number,
}

-- A character that a field may have: no semicolon and no control character, below 128.
abbrev pub IsPlain : ℕ → Type 0
IsPlain c = ((c == b';') ≡ false) × (32 ≤ c) × (c < 128)

abbrev pub IsField : Bytes → Type 0
IsField = All IsPlain

IsDecimal-IsField : (s : Bytes) → IsDecimal s → IsField s
IsDecimal-IsField [] h = tt
IsDecimal-IsField (c ∷ s) h =
    ((ground (arith, h.0), omega (arith, h.0.0), omega (arith, h.0.1)), IsDecimal-IsField s h.1)

uint-IsField : (n : ℕ) → IsField (uint_to_string n)
uint-IsField n = IsDecimal-IsField (uint_to_string n) (uint_to_string-IsDecimal n)

pub int-IsField : (v : ℤ) → IsField (int_to_string v)
unfolding int_to_string
int-IsField (pos n) = uint-IsField n
int-IsField (negsuc n) = ((refl, omega arith, omega arith), uint-IsField (suc n))

pub number-IsField : (n : ℕ) → IsField (number n)
unfolding number
number-IsField n = int-IsField (pos n)

colon_IsPlain : IsPlain b':'
colon_IsPlain = (refl, omega arith, omega arith)

IsField-if : (b : Bool) (x y : Bytes) → IsField x → IsField y → IsField (if b then x else y)
IsField-if true x y h k = h
IsField-if false x y h k = k

-- A minimum, a maximum, or both, behind colons.
bounds-IsField :
    (a b c : Bool) (lo hi : Bytes)
    → IsField lo
    → IsField hi
    → IsField (
        if a
        then (if b then b':' ∷ lo else if c then b':' ∷ b':' ∷ hi else b':' ∷ (lo ++ b':' ∷ hi))
        else [])
bounds-IsField a b c lo hi h k =
    IsField-if a _ _
      (IsField-if b _ _ (colon_IsPlain, h)
        (IsField-if c _ _ (colon_IsPlain, (colon_IsPlain, k))
          (colon_IsPlain, All-append IsPlain lo (b':' ∷ hi) h (colon_IsPlain, k))))
      tt

int_bounds-IsField : (min max : ℤ) → IsField (int_bounds_text min max)
unfolding int_bounds_text
int_bounds-IsField min max =
    bounds-IsField _ _ _ (int_to_string min) (int_to_string max) (int-IsField min) (int-IsField max)

uint_bounds-IsField : (min max : ℕ) → IsField (uint_bounds_text min max)
unfolding uint_bounds_text
uint_bounds-IsField min max =
    bounds-IsField _ _ _ (uint_to_string min) (uint_to_string max) (uint-IsField min)
      (uint-IsField max)

digit_IsPlain : (t : ParameterType) → IsPlain (b'0' + code_of_type t)
unfolding code_of_type
digit_IsPlain t = (ground arith, omega arith, ground arith)

bounds_text-IsField : (t : ParameterType) (min max : ℤ) → IsField (bounds_text t min max)
unfolding bounds_text
bounds_text-IsField int min max = int_bounds-IsField min max
bounds_text-IsField uint min max = uint_bounds-IsField (to_uint min) (to_uint max)
bounds_text-IsField any min max = uint_bounds-IsField (to_uint min) (to_uint max)
bounds_text-IsField statistics min max = uint_bounds-IsField (to_uint min) (to_uint max)
bounds_text-IsField string min max =
    IsField-if (leb_ℤ min (negsuc 0)) [] (b':' ∷ int_to_string min) tt
      (colon_IsPlain, int-IsField min)
bounds_text-IsField long min max = tt
bounds_text-IsField boolean min max = tt
bounds_text-IsField date min max = tt
bounds_text-IsField undefined min max = tt

pub type-IsField : (t : ParameterType) (min max : ℤ) → IsField (type_to_string t min max)
unfolding type_to_string
type-IsField t min max = (digit_IsPlain t, bounds_text-IsField t min max)

hex_char-IsPlain : (d : ℕ) → d < 16 → IsPlain (hex_char d)
unfolding hex_char
hex_char-IsPlain d h = ground arith

encoding-IsField : (c : ℕ) → IsAscii c → IsField (encoding c)
unfolding is_special contains hex_char
encoding-IsField c h = elim (Bool-cases (is_special c)) [
  | inl s ↦ rw s (
    (refl, omega arith, omega arith),
    (hex_char-IsPlain (c / 16) (omega (arith, h.1)), (hex_char-IsPlain (c % 16) (omega arith), tt)),
  )
  | inr s ↦ rw s ((ground (arith, s), ground (arith, s, h), h.1), tt)
]

pub encoded-IsField : (s : Bytes) → All IsAscii s → IsField (encoded s)
encoded-IsField [] h = tt
encoded-IsField (c ∷ s) h =
    All-append IsPlain (encoding c) (encoded s) (encoding-IsField c h.0) (encoded-IsField s h.1)

pub encoded_field-encoded : (s : Bytes) → All IsAscii s → encoded_field (some s) ≡ some (encoded s)
unfolding encoded_field text_or_coded
encoded_field-encoded s h = elim (Bool-cases (count_special s == 0)) [
  | inl z ↦ rw (encode_value-encoded s h, z) (ap some (sym (encoded_plain s z)))
  | inr nz ↦ rw (encode_value-encoded s h, nz) refl
]

-- The text that encodeValue leaves, as it is or in a new buffer.
kept_encode : (s : Bytes) → All IsAscii s → kept s (encode_value (some s)) ≡ some (encoded s)
kept_encode s h = elim (Bool-cases (count_special s == 0)) [
  | inl z ↦ rw (encode_value-encoded s h, z) (ap some (sym (encoded_plain s z)))
  | inr nz ↦ rw (encode_value-encoded s h, nz) refl
]

text_or_coded-kept : (s : Bytes) (r : Coded) → text_or_coded s r ≡ kept s r
unfolding text_or_coded
text_or_coded-kept s unchanged = refl
text_or_coded-kept s (coded t) = refl
text_or_coded-kept s fault = refl

pub decoded_field-encoded : (s : Bytes) → All IsAscii s → decoded_field (encoded s) ≡ some s
unfolding decoded_field
decoded_field-encoded s h =
    let (t, e, d) = decode-encode_value s h in
    let same : some t ≡ some (encoded s) = sym e ∙ kept_encode s h in
    let t-eq : t ≡ encoded s = ground (arith, same) in
    text_or_coded-kept (encoded s) (decode_value (some (encoded s)))
    ∙ ap (λ x. kept x (decode_value (some x))) (sym t-eq)
    ∙ d

cut_at-IsField : (x t : Bytes) → IsField x → cut_at b';' (x ++ b';' ∷ t) ≡ some (x, t)
unfolding cut_at
cut_at-IsField [] t h = refl
cut_at-IsField (c ∷ x) t h = rw (h.0.0, cut_at-IsField x t h.1) refl

cut_at-last : (x : Bytes) → IsField x → cut_at b';' x ≡ none
unfolding cut_at
cut_at-last [] h = refl
cut_at-last (c ∷ x) h = rw (h.0.0, cut_at-last x h.1) refl

abbrev pub rest_of : List Bytes → Option Bytes
rest_of [] = none
rest_of (y ∷ ys) = some (y ++ semicolons ys)

pub next_field-semicolons :
    (x : Bytes) (xs : List Bytes)
    → IsField x
    → next_field (some (x ++ semicolons xs)) ≡ (x, rest_of xs)
unfolding next_field semicolons
next_field-semicolons x [] h =
    ap (λ s. next_field (some s)) (append-nil x) ∙ rw (next_field, cut_at-last x h) refl
next_field-semicolons x (y ∷ ys) h = rw (next_field, cut_at-IsField x (y ++ semicolons ys) h) refl
