-- ===== src/Common/Number/RoundTrip.antt =====
-- The decimal texts of the conversions are read back, and fit the buffers allocated for them.
use native.Mathlib.Nat.{pow-suc}
use tr069agent.Prelude.{
  ℕ, zero, suc, ◌+◌, ◌*◌, ◌/◌, ◌%◌, ◌^◌, ◌≤◌, ◌<◌, ◌≡◌, ap, ◌∙◌, inl, inr, true, false, some, [],
  ◌∷◌, arith, ◌==◌, Bool-cases, Bytes, is_space, is_digit, length, All,
}
use tr069agent.Common.Number.{read_digits, uint_loop, uint_to_string, string_to_uint, checked_uint}

-- A digit of the loop is a digit, and no space.
digit_char : (i : ℕ) → (is_digit (b'0' + i % 10) ≡ true) × (is_space (b'0' + i % 10) ≡ false)
unfolding is_digit is_space
digit_char i = ground arith

read_digits_digit :
    (acc i : ℕ) (p : Bytes)
    → read_digits acc ((b'0' + i % 10) ∷ p) ≡ read_digits (acc * 10 + i % 10) p
unfolding read_digits
read_digits_digit acc i p = ground (arith, digit_char i)

pub pow_step : (i room : ℕ) → i < 10 ^ suc room → i / 10 < 10 ^ room
pow_step i room h = omega (arith, pow-suc 10 room)

-- Reading the digits that the loop writes in front of `p` gives the number, and goes on at `p`.
read_digits-uint_loop :
    (room i : ℕ) (p : Bytes) → i < 10 ^ room → read_digits 0 (uint_loop room i p) ≡ read_digits i p
unfolding uint_loop
read_digits-uint_loop zero i p h = ap (λ k. read_digits k p) (omega arith)
read_digits-uint_loop (suc room) i p h = elim (Bool-cases (i / 10 == 0)) [
  | inl last ↦ rw last (read_digits_digit 0 i p ∙ ap (λ k. read_digits k p) (ground arith))
  | inr more ↦ rw more (
      read_digits-uint_loop room (i / 10) _ (pow_step i room h)
      ∙ read_digits_digit (i / 10) i p
      ∙ ap (λ k. read_digits k p) (omega arith))
]

abbrev pub StartsDigit : Bytes → Type 0
StartsDigit [] = ⊥
StartsDigit (c ∷ cs) = (is_digit c ≡ true) × (is_space c ≡ false)

uint_loop-StartsDigit : (room i : ℕ) (p : Bytes) → StartsDigit p → StartsDigit (uint_loop room i p)
unfolding uint_loop
uint_loop-StartsDigit zero i p h = h
uint_loop-StartsDigit (suc room) i p h = elim (Bool-cases (i / 10 == 0)) [
  | inl last ↦ rw last (digit_char i)
  | inr more ↦ rw more (uint_loop-StartsDigit room (i / 10) _ (digit_char i))
]

pub uint_to_string-StartsDigit : (i : ℕ) → StartsDigit (uint_to_string i)
unfolding uint_to_string
uint_to_string-StartsDigit i = elim (Bool-cases (i / 10 == 0)) [
  | inl last ↦ rw last (digit_char i)
  | inr more ↦ rw more (uint_loop-StartsDigit 19 (i / 10) _ (digit_char i))
]

string_to_uint_digits :
    (s : Bytes) → StartsDigit s → string_to_uint (some s) ≡ checked_uint (read_digits 0 s)
unfolding string_to_uint
string_to_uint_digits [] h = absurd h
string_to_uint_digits (c ∷ cs) h = rw (h.1) (rw (h.0))

pub read_digits-uint_to_string : (i : ℕ) → i < 10 ^ 20 → read_digits 0 (uint_to_string i) ≡ (i, [])
unfolding uint_to_string read_digits
read_digits-uint_to_string i h = read_digits-uint_loop 20 i [] h

-- Every `unsigned int` is read back from the text that `DM_ENG_uintToString` makes of it.
pub string_to_uint-uint_to_string :
    (i : ℕ) → i < 2 ^ 32 → string_to_uint (some (uint_to_string i)) ≡ some i
string_to_uint-uint_to_string i h =
    string_to_uint_digits _ (uint_to_string-StartsDigit i)
    ∙ rw (read_digits-uint_to_string i (omega arith)) (unfold checked_uint in ground arith)

length-uint_loop :
    (room i : ℕ) (p : Bytes) (k : ℕ)
    → i < 10 ^ suc k
    → length (uint_loop room i p) ≤ suc k + length p
unfolding uint_loop
length-uint_loop zero i p k h = omega arith
length-uint_loop (suc room) i p zero h = ground arith
length-uint_loop (suc room) i p (suc k) h =
    ground (arith, length-uint_loop room (i / 10) ((b'0' + i % 10) ∷ p) k (pow_step i (suc k) h))

-- The text of an `unsigned int` has ten digits at most: it fits the buffer of 21 bytes.
pub length-uint_to_string : (i : ℕ) → i < 2 ^ 32 → length (uint_to_string i) ≤ 10
unfolding uint_to_string
length-uint_to_string i h = length-uint_loop 20 i [] 9 (omega arith)

-- The digits of the text of a number.
abbrev pub IsDecimal : Bytes → Type 0
IsDecimal = All (λ c. (b'0' ≤ c) × (c ≤ b'9'))

uint_loop-IsDecimal : (room i : ℕ) (p : Bytes) → IsDecimal p → IsDecimal (uint_loop room i p)
unfolding uint_loop
uint_loop-IsDecimal zero i p h = h
uint_loop-IsDecimal (suc room) i p h =
    let digit : (b'0' ≤ b'0' + i % 10) × (b'0' + i % 10 ≤ b'9') = omega arith in
    ground (arith, uint_loop-IsDecimal room (i / 10) ((b'0' + i % 10) ∷ p) (digit, h))

pub uint_to_string-IsDecimal : (i : ℕ) → IsDecimal (uint_to_string i)
unfolding uint_to_string
uint_to_string-IsDecimal i = uint_loop-IsDecimal 20 i [] tt
