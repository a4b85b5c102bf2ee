-- ===== src/Common/Escape.antt =====
-- dm_engine/src/DM_ENG_Common.c: the `%XX` coding of values. The loops write through an index into a
-- buffer of the size that the code computes first; a write outside of it is a fault of the model.
-- `char` is signed, as with gcc on x86: a byte from 128 on is negative.
pub mod Ascii
pub mod Decode
pub mod Overflow
use tr069agent.Prelude.{
  ℕ, ◌+◌, ◌-◌, ◌*◌, ◌/◌, ◌%◌, Bool, true, false, ◌&&◌, ◌||◌, Option, none, some, ◌>>=◌, [], ◌∷◌,
  ◌++◌, ltb, leb, ◌==◌, if◌then◌else◌, Bytes, codes, contains, length, replicate,
}
use tr069agent.Common.Buffer.{write_at, read_string}
use tr069agent.Common.Number.{skip_spaces}

-- NULL, a new text, or memory written outside of the buffer.
pub data Coded : Type 0 where
  unchanged : Coded
  coded : Bytes → Coded
  fault : Coded

unfoldable pub is_special : ℕ → Bool
unfolding contains
is_special c = (ltb c b' ' || leb 128 c) || contains (codes "%\\;\"<") c

-- A digit of "%X".
unfoldable pub hex_char : ℕ → ℕ
hex_char d = if ltb d 10 then b'0' + d else b'A' + (d - 10)

-- What sprintf writes for "%%%.2X" at a `char` that is promoted to `int`: a negative one has eight
-- digits.
unfoldable pub sprintf_hex : ℕ → Bytes
sprintf_hex c =
    b'%'
    ∷ ((if leb 128 c then codes "FFFFFF" else []) ++ hex_char (c / 16) ∷ hex_char (c % 16) ∷ [])

unfoldable pub count_special : Bytes → ℕ
count_special [] = 0
count_special (c ∷ cs) = (if is_special c then 1 else 0) + count_special cs

-- The bytes written at index `j` for one character; sprintf ends its text with a NUL.
unfoldable pub encode_char : ℕ → ℕ → Bytes → Option Bytes
encode_char c j b = write_at j (if is_special c then sprintf_hex c ++ 0 ∷ [] else c ∷ []) b

unfoldable pub encode_loop : Bytes → ℕ → Bytes → Option Bytes
encode_loop [] j b = some b
encode_loop (c ∷ cs) j b = do
  b' ← encode_char c j b
  encode_loop cs (j + (if is_special c then 3 else 1)) b'

-- The text that the caller reads in the buffer.
unfoldable pub coded_text : Option Bytes → Coded
coded_text none = fault
coded_text (some b) = elim (read_string b) [ none ↦ fault | some s ↦ coded s ]

unfoldable pub encode_value : Option Bytes → Coded
encode_value none = unchanged
encode_value (some str) =
    if count_special str == 0
    then unchanged
    else coded_text (encode_loop str 0 (replicate (length str + 2 * count_special str + 1) 0))

-- The value of a digit that "%X" reads.
unfoldable pub hex_value : ℕ → Option ℕ
hex_value c =
    if leb b'0' c && leb c b'9'
    then some (c - b'0')
    else if leb b'A' c && leb c b'F'
    then some (c - b'A' + 10)
    else if leb b'a' c && leb c b'f'
    then some (c - b'a' + 10)
    else none

-- sscanf with "%2X": two characters at most, the sign included. What does not match leaves `v` 0.
unfoldable pub hex_field : Bytes → ℕ
hex_field [] = 0
hex_field (a ∷ []) = elim (hex_value a) [ some x ↦ x | none ↦ 0 ]
hex_field (a ∷ b ∷ _) =
    let digit : ℕ = elim (hex_value b) [ some y ↦ y | none ↦ 0 ] in
    if a == b'+'
    then digit
    else if a == b'-'
    then (0x1_0000_0000 - digit) % 0x1_0000_0000
    else elim (hex_value a) [
      | none ↦ 0
      | some x ↦ elim (hex_value b) [ some y ↦ 16 * x + y | none ↦ x ]
    ]

-- The byte that is stored.
unfoldable pub scan_hex2 : Bytes → ℕ
unfolding hex_field skip_spaces
scan_hex2 s = hex_field (skip_spaces s) % 256

-- `echap` of the loop: 0, 1 and 2.
pub data Echap : Type 0 where
  plain percent digit : Echap

unfoldable pub echap_next : Echap → ℕ → Echap
echap_next plain c = if c == b'%' then percent else plain
echap_next percent c = if c == b'%' then percent else digit
echap_next digit c = if c == b'%' then percent else plain

-- The bytes stored at the character `c`, which `cs` follows.
unfoldable pub echap_output : Echap → ℕ → Bytes → Bytes
echap_output plain c cs = if c == b'%' then [] else c ∷ []
echap_output percent c cs = if c == b'%' then [] else scan_hex2 (c ∷ cs) ∷ []
echap_output digit c cs = []

unfoldable pub decode_loop : Bytes → Echap → ℕ → Bytes → Option Bytes
decode_loop [] e j b = some b
decode_loop (c ∷ cs) e j b = do
  b' ← write_at j (echap_output e c cs) b
  decode_loop cs (echap_next e c) (j + length (echap_output e c cs)) b'

unfoldable pub count_percent : Bytes → ℕ
count_percent [] = 0
count_percent (c ∷ cs) = (if c == b'%' then 1 else 0) + count_percent cs

-- The size `strlen - 2 * nbSpe + 1` is negative, hence huge, on some malformed texts: calloc then
-- returns NULL, and so does the function unless it writes.
unfoldable pub null_unless_written : Option Bytes → Coded
null_unless_written none = fault
null_unless_written (some b) = unchanged

unfoldable pub decode_value : Option Bytes → Coded
decode_value none = unchanged
decode_value (some str) =
    if count_percent str == 0
    then unchanged
    else if ltb (length str + 1) (2 * count_percent str)
    then null_unless_written (decode_loop str plain 0 [])
    else coded_text (decode_loop str plain 0 (replicate (length str + 1 - 2 * count_percent str) 0))
