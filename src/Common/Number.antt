-- ===== src/Common/Number.antt =====
-- dm_engine/src/DM_ENG_Common.c: conversions between texts and numbers. `char*` that may be NULL is
-- an `Option Bytes`; the result and the `OUT` pointer of a conversion are one `Option`. `int` has 32
-- bits and `long` 64. strtol and strtoul of the C library are modelled at base 10.
pub mod RoundTrip
pub mod Signed
use tr069agent.Prelude.{
  ℕ, zero, suc, ◌+◌, ◌-◌, ◌*◌, ◌/◌, ◌%◌, ◌^◌, Bool, true, false, not, ◌&&◌, ◌||◌, Option, none,
  some, List, [], ◌∷◌, ◌++◌, ltb, leb, ◌==◌, if◌then◌else◌, Bytes, codes, is_space, is_digit,
  to_lower, length,
}
use tr069agent.Prelude.Int.{ℤ, pos, negsuc, pos_part, neg_part, leb_ℤ, signed}

abbrev pub uint_max : ℕ
uint_max = 0xffff_ffff

abbrev pub ulong_max : ℕ
ulong_max = 0xffff_ffff_ffff_ffff

abbrev pub int_min : ℤ
int_min = negsuc 0x7fff_ffff

abbrev pub int_max : ℤ
int_max = pos 0x7fff_ffff

abbrev pub long_min : ℤ
long_min = negsuc 0x7fff_ffff_ffff_ffff

abbrev pub long_max : ℤ
long_max = pos 0x7fff_ffff_ffff_ffff

-- `none` is the result -1.
unfoldable pub char_to_int : ℕ → Option ℕ
char_to_int c = if leb b'0' c && leb c b'9' then some (c - b'0') else none

unfoldable pub skip_spaces : Bytes → Bytes
skip_spaces [] = []
skip_spaces (c ∷ cs) = let rest = skip_spaces cs in if is_space c then rest else c ∷ cs

-- The digits that strtol and strtoul read: their value, and what follows them.
unfoldable pub read_digits : ℕ → Bytes → ℕ × Bytes
read_digits acc [] = (acc, [])
read_digits acc (c ∷ cs) =
    let rest = read_digits (acc * 10 + (c - b'0')) cs in if is_digit c then rest else (acc, c ∷ cs)

-- `(end != NULL) && (*end != '\0')` after the trailing spaces, negated.
unfoldable pub at_end : Bytes → Bool
at_end [] = true
at_end (c ∷ cs) = false

unfoldable pub checked_uint : ℕ × Bytes → Option ℕ
unfolding at_end skip_spaces
checked_uint (val, end) =
    if ltb ulong_max val
    then none
    else if at_end (skip_spaces end) && leb val uint_max
    then some val
    else none

-- The test of the first character, then strtoul.
unfoldable pub uint_at : Bytes → Option ℕ
unfolding is_digit checked_uint read_digits
uint_at [] = none
uint_at (c ∷ cs) = if is_digit c then checked_uint (read_digits 0 (c ∷ cs)) else none

unfoldable pub string_to_uint : Option Bytes → Option ℕ
unfolding skip_spaces uint_at
string_to_uint none = none
string_to_uint (some []) = none
string_to_uint (some (c ∷ cs)) = uint_at (skip_spaces (c ∷ cs))

-- What strtol returns: the value, where it stops, and whether it sets `errno` to ERANGE.
pub record Strtol : Type 0 where
  pub val : ℤ
  pub end : Bytes
  pub range_error : Bool

unfoldable pub strtol_range : Bool → ℕ × Bytes → Strtol
strtol_range neg (n, rest) = record {
  val = signed neg n;
  end = rest;
  range_error = not (leb_ℤ long_min (signed neg n) && leb_ℤ (signed neg n) long_max);
}

-- With no digit nothing is converted, and the text itself is where it stops.
unfoldable pub strtol_digits : Bytes → Bool → Bytes → Strtol
unfolding strtol_range is_digit read_digits
strtol_digits text neg [] = record { val = pos 0; end = text; range_error = false }
strtol_digits text neg (c ∷ cs) =
    if is_digit c
    then strtol_range neg (read_digits 0 (c ∷ cs))
    else record { val = pos 0; end = text; range_error = false }

unfoldable pub strtol_sign : Bytes → Bytes → Strtol
unfolding strtol_digits
strtol_sign text [] = strtol_digits text false []
strtol_sign text (c ∷ cs) =
    if c == b'-'
    then strtol_digits text true cs
    else if c == b'+'
    then strtol_digits text false cs
    else strtol_digits text false (c ∷ cs)

unfoldable pub strtol : Bytes → Strtol
unfolding strtol_sign skip_spaces
strtol text = strtol_sign text (skip_spaces text)

unfoldable pub checked_long : Strtol → Option ℤ
unfolding at_end skip_spaces
checked_long r =
    if r.range_error then none else if at_end (skip_spaces r.end) then some r.val else none

unfoldable pub string_to_long : Option Bytes → Option ℤ
unfolding checked_long strtol
string_to_long none = none
string_to_long (some []) = none
string_to_long (some (c ∷ cs)) = checked_long (strtol (c ∷ cs))

unfoldable pub checked_int : Strtol → Option ℤ
unfolding at_end skip_spaces
checked_int r =
    if r.range_error
    then none
    else if at_end (skip_spaces r.end) && (leb_ℤ int_min r.val && leb_ℤ r.val int_max)
    then some r.val
    else none

unfoldable pub string_to_int : Option Bytes → Option ℤ
unfolding checked_int strtol
string_to_int none = none
string_to_int (some []) = none
string_to_int (some (c ∷ cs)) = checked_int (strtol (c ∷ cs))

-- `strncasecmp (s, p, strlen (p)) == 0`, with what follows the prefix.
unfoldable pub strip_nocase : Bytes → Bytes → Option Bytes
unfolding to_lower
strip_nocase [] s = some s
strip_nocase (p ∷ ps) [] = none
strip_nocase (p ∷ ps) (c ∷ cs) =
    let rest = strip_nocase ps cs in if to_lower p == to_lower c then rest else none

abbrev pub false_string : Bytes
false_string = codes "false"

abbrev pub true_string : Bytes
true_string = codes "true"

-- The tests of the single characters.
unfoldable pub bool_char : Bytes → Option (Bool × Bytes)
bool_char [] = none
bool_char (c ∷ cs) =
    if c == b'0' then some (false, cs) else if c == b'1' then some (true, cs) else none

unfoldable pub bool_word : Bytes → Option (Bool × Bytes)
unfolding strip_nocase bool_char
bool_word s = elim (strip_nocase false_string s) [
  | some rest ↦ some (false, rest)
  | none ↦ elim (strip_nocase true_string s) [ some rest ↦ some (true, rest) | none ↦ bool_char s ]
]

unfoldable pub string_to_bool : Option Bytes → Option Bool
unfolding bool_word at_end skip_spaces
string_to_bool none = none
string_to_bool (some []) = none
string_to_bool (some (c ∷ cs)) = elim (bool_word (skip_spaces (c ∷ cs))) [
  | none ↦ none
  | some (val, rest) ↦ if at_end (skip_spaces rest) then some val else none
]

-- The loop that fills `buf` from its end. The room is the fuel: the buffer holds 20 digits and the
-- NUL.
unfoldable pub uint_loop : ℕ → ℕ → Bytes → Bytes
uint_loop zero i p = p
uint_loop (suc room) i p =
    let more = uint_loop room (i / 10) ((b'0' + i % 10) ∷ p) in
    if i / 10 == 0 then (b'0' + i % 10) ∷ p else more

unfoldable pub uint_to_string : ℕ → Bytes
unfolding uint_loop
uint_to_string i = uint_loop 20 i []

-- `while ((k /= 10) != 0) { lg++; }` on the magnitude of `k`; a `long` has 19 digits at most.
unfoldable pub digit_count : ℕ → ℕ → ℕ → ℕ
digit_count zero k lg = lg
digit_count (suc fuel) k lg =
    let more = digit_count fuel (k / 10) (lg + 1) in if k / 10 == 0 then lg else more

-- The size that `DM_ENG_intToString` and `DM_ENG_longToString` allocate, less the NUL.
unfoldable pub decimal_size : ℤ → ℕ
decimal_size (pos n) = digit_count 20 n 1
decimal_size (negsuc n) = digit_count 20 (suc n) 2

-- What sprintf writes for "%d" and "%ld".
unfoldable pub int_to_string : ℤ → Bytes
int_to_string (pos n) = uint_to_string n
int_to_string (negsuc n) = b'-' ∷ uint_to_string (suc n)
