-- ===== src/Common/Number/Signed.antt =====
-- The texts of signed numbers: the size that is allocated for them, and reading them back.
use tr069agent.Prelude.{
  ℕ, zero, suc, ◌+◌, ◌/◌, ◌%◌, ◌^◌, ◌<◌, ◌≡◌, refl, ap, subst, ◌∙◌, Bool, true, false, none, some,
  [], ◌∷◌, ◌≢◌, arith, Bytes, ◌&&◌, is_space, is_digit, length, if◌then◌else◌, All,
}
use tr069agent.Prelude.Int.{ℤ, pos, negsuc, ◌≤ℤ◌, signed, leb_ℤ}
use tr069agent.Common.Number.RoundTrip.{
  StartsDigit, uint_to_string-StartsDigit, read_digits-uint_to_string, pow_step,
}
use tr069agent.Common.Number.{
  read_digits, uint_loop, uint_to_string, digit_count, decimal_size, int_to_string, strtol, Strtol,
  strtol_sign, strtol_digits, strtol_range, string_to_int, string_to_long, skip_spaces, int_min,
  int_max, long_min, long_max, checked_int, checked_long,
}

length-digit_count :
    (room i : ℕ) (p : Bytes)
    → i < 10 ^ suc room
    → length (uint_loop (suc room) i p) ≡ digit_count (suc room) i (length p + 1)
unfolding uint_loop digit_count
length-digit_count zero i p h = ground arith
length-digit_count (suc room) i p h =
    ground (arith, length-digit_count room (i / 10) ((b'0' + i % 10) ∷ p) (pow_step i (suc room) h))

length-uint_to_string_count : (n : ℕ) → n < 10 ^ 20 → length (uint_to_string n) ≡ digit_count 20 n 1
length-uint_to_string_count n h = unfold uint_to_string in length-digit_count 19 n [] h

suc-digit_count : (fuel k lg : ℕ) → suc (digit_count fuel k lg) ≡ digit_count fuel k (lg + 1)
unfolding digit_count
suc-digit_count zero k lg = omega arith
suc-digit_count (suc fuel) k lg = ground (arith, suc-digit_count fuel (k / 10) (lg + 1))

-- The size computed by counting divisions is the length of the text that sprintf writes, so the
-- allocation of one more byte holds it with its NUL, for every `long` and hence for every `int`.
pub length-int_to_string :
    (v : ℤ) → long_min ≤ℤ v → v ≤ℤ long_max → length (int_to_string v) ≡ decimal_size v
unfolding int_to_string decimal_size
length-int_to_string (pos n) lo hi = length-uint_to_string_count n (omega arith)
length-int_to_string (negsuc n) lo hi =
    ap suc (length-uint_to_string_count (suc n) (omega arith)) ∙ suc-digit_count 20 (suc n) 1

strtol_digits-uint :
    (text : Bytes) (neg : Bool) (s : Bytes)
    → StartsDigit s
    → strtol_digits text neg s ≡ strtol_range neg (read_digits 0 s)
unfolding strtol_digits
strtol_digits-uint text neg [] h = absurd h
strtol_digits-uint text neg (c ∷ cs) h = rw (h.0)

skip_spaces_digit : (s : Bytes) → StartsDigit s → skip_spaces s ≡ s
unfolding skip_spaces
skip_spaces_digit [] h = refl
skip_spaces_digit (c ∷ cs) h = rw (h.1)

strtol_sign_digit :
    (text s : Bytes) → StartsDigit s → strtol_sign text s ≡ strtol_digits text false s
unfolding strtol_sign is_digit
strtol_sign_digit text [] h = absurd h
strtol_sign_digit text (c ∷ cs) h = ground arith

strtol_digit : (s : Bytes) → StartsDigit s → strtol s ≡ strtol_range false (read_digits 0 s)
strtol_digit s h =
    unfold strtol in
    ap (strtol_sign s) (skip_spaces_digit s h)
    ∙ strtol_sign_digit s s h
    ∙ strtol_digits-uint s false s h

strtol_minus : (s : Bytes) → StartsDigit s → strtol (b'-' ∷ s) ≡ strtol_range true (read_digits 0 s)
strtol_minus s h = unfold strtol strtol_sign is_space in strtol_digits-uint (b'-' ∷ s) true s h

abbrev pub converted : ℤ → Strtol
converted v = record { val = v; end = []; range_error = false }

strtol_range-signed :
    (neg : Bool) (n : ℕ)
    → long_min ≤ℤ signed neg n
    → signed neg n ≤ℤ long_max
    → strtol_range neg (n, []) ≡ converted (signed neg n)
unfolding strtol_range
strtol_range-signed neg n lo hi = ground arith

pub strtol-int_to_string :
    (v : ℤ) → long_min ≤ℤ v → v ≤ℤ long_max → strtol (int_to_string v) ≡ converted v
unfolding int_to_string
strtol-int_to_string (pos n) lo hi =
    strtol_digit _ (uint_to_string-StartsDigit n)
    ∙ ap (strtol_range false) (read_digits-uint_to_string n (omega arith))
    ∙ strtol_range-signed false n lo hi
strtol-int_to_string (negsuc n) lo hi =
    strtol_minus _ (uint_to_string-StartsDigit (suc n))
    ∙ ap (strtol_range true) (read_digits-uint_to_string (suc n) (omega arith))
    ∙ strtol_range-signed true (suc n) lo hi

int_to_string_ne_nil : (v : ℤ) → int_to_string v ≢ []
unfolding int_to_string
int_to_string_ne_nil (pos n) e = subst StartsDigit e (uint_to_string-StartsDigit n)
int_to_string_ne_nil (negsuc n) e = cc

string_to_long-strtol : (s : Bytes) → s ≢ [] → string_to_long (some s) ≡ checked_long (strtol s)
unfolding string_to_long
string_to_long-strtol [] h = absurd (h refl)
string_to_long-strtol (c ∷ cs) h = refl

string_to_int-strtol : (s : Bytes) → s ≢ [] → string_to_int (some s) ≡ checked_int (strtol s)
unfolding string_to_int
string_to_int-strtol [] h = absurd (h refl)
string_to_int-strtol (c ∷ cs) h = refl

-- Every `long` is read back from the text that `DM_ENG_longToString` makes of it.
pub string_to_long-int_to_string :
    (v : ℤ) → long_min ≤ℤ v → v ≤ℤ long_max → string_to_long (some (int_to_string v)) ≡ some v
string_to_long-int_to_string v lo hi =
    string_to_long-strtol _ (int_to_string_ne_nil v)
    ∙ rw (strtol-int_to_string v lo hi) (unfold checked_long in refl)

-- A `long` is read back as an `int` from its text exactly when it is in the range of `int`: the
-- texts of other `long` values are refused.
pub string_to_int-int_to_string :
    (v : ℤ)
    → long_min ≤ℤ v
    → v ≤ℤ long_max
    → string_to_int (some (int_to_string v))
      ≡ (if leb_ℤ int_min v && leb_ℤ v int_max then some v else none)
string_to_int-int_to_string v lo hi =
    string_to_int-strtol _ (int_to_string_ne_nil v)
    ∙ rw (strtol-int_to_string v lo hi) (unfold checked_int in refl)

abbrev IsBlank : Bytes → Type 0
IsBlank = All (λ c. is_space c ≡ true)

skip_spaces_blank : (s : Bytes) → IsBlank s → skip_spaces s ≡ []
unfolding skip_spaces
skip_spaces_blank [] h = refl
skip_spaces_blank (c ∷ cs) h = rw (h.0) (skip_spaces_blank cs h.1)

strtol_blank :
    (s : Bytes) → IsBlank s → strtol s ≡ record { val = pos 0; end = s; range_error = false }
strtol_blank s h = unfold strtol in ap (strtol_sign s) (skip_spaces_blank s h)

-- A text of white space alone, not empty, with no digit, is accepted as the `int` 0.
pub string_to_int_blank :
    (s : Bytes) → s ≢ [] → All (λ c. is_space c ≡ true) s → string_to_int (some s) ≡ some (pos 0)
string_to_int_blank s ne h =
    string_to_int-strtol s ne
    ∙ rw (strtol_blank s h) (unfold checked_int in rw (skip_spaces_blank s h))
