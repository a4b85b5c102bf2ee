-- ===== src/Common/Escape/Overflow.antt =====
-- Encoding a text that ends in a byte from 128 on: sprintf writes eight digits for it.
use tr069agent.Prelude.{
  ℕ, suc, ◌+◌, ◌*◌, ◌<◌, ◌≤◌, true, false, none, some, [], ◌∷◌, ◌++◌, leb, ◌==◌, Bytes, length, ◌≡◌,
  ap, arith, Option-cases, inl, inr, length-append, length-replicate,
}
use tr069agent.Common.Buffer.{write_at_overflow, length-write_at}
use tr069agent.Common.Escape.{
  fault, is_special, sprintf_hex, count_special, encode_char, encode_loop, coded_text, encode_value,
}

is_special_negative : (c : ℕ) → 128 ≤ c → is_special c ≡ true
unfolding is_special
is_special_negative c h = ground arith

-- Ten bytes: the per cent sign, eight digits and the NUL.
encode_char_negative :
    (c j : ℕ) (b : Bytes) → 128 ≤ c → length b < j + 10 → encode_char c j b ≡ none
unfolding encode_char sprintf_hex
encode_char_negative c j b h short =
    rw (is_special_negative c h)
      (let n : leb 128 c ≡ true = ground arith in rw n (write_at_overflow j b'%' _ b short))

length-encode_char :
    (c j : ℕ) (b : Bytes) {r : Bytes} → encode_char c j b ≡ some r → length r ≡ length b
unfolding encode_char
length-encode_char c j b h = length-write_at j _ b h

encode_loop_negative :
    (s : Bytes) (c j : ℕ) (b : Bytes)
    → 128 ≤ c
    → length b ≡ j + (length s + 2 * count_special s) + 4
    → encode_loop (s ++ c ∷ []) j b ≡ none
unfolding encode_loop count_special
encode_loop_negative [] c j b h size = rw (encode_char_negative c j b h (omega arith))
encode_loop_negative (x ∷ s) c j b h size = elim (Option-cases (encode_char x j b)) [
  | inl e ↦ rw e
  | inr (r, e) ↦ rw e (encode_loop_negative s c _ r h (ground (arith, length-encode_char x j b e)))
]

count_special-append :
    (s : Bytes) (c : ℕ) → 128 ≤ c → count_special (s ++ c ∷ []) ≡ suc (count_special s)
unfolding count_special
count_special-append [] c h = rw (is_special_negative c h) (omega arith)
count_special-append (x ∷ s) c h = ground (arith, count_special-append s c h)

-- Every text that ends in a byte from 128 on makes the function write outside of its buffer.
pub encode_value_overflow :
    (s : Bytes) (c : ℕ) → 128 ≤ c → encode_value (some (s ++ c ∷ [])) ≡ fault
unfolding encode_value coded_text
encode_value_overflow s c h =
    let some_special : (suc (count_special s) == 0) ≡ false = ground arith in
    rw (count_special-append s c h, some_special)
      (ap coded_text (
        encode_loop_negative s c 0 _ h (
          omega (
            arith,
            length-replicate {A = ℕ} (length (s ++ c ∷ []) + 2 * suc (count_special s) + 1) 0,
            length-append s (c ∷ []),
          ))))
