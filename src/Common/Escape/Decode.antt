-- ===== src/Common/Escape/Decode.antt =====
-- Decoding what was encoded.
use tr069agent.Prelude.{
  ℕ, suc, ◌+◌, ◌*◌, ◌/◌, ◌%◌, ◌<◌, true, false, Option, none, some, [], ◌∷◌, ◌++◌, ltb, ◌==◌,
  if◌then◌else◌, Bytes, length, ◌≡◌, refl, ap, sym, ◌∙◌, arith, All, Bool-cases, inl, inr,
  append_assoc, length-append, is_space,
}
use tr069agent.Common.Buffer.{write_at, write_at-append, read_string-append}
use tr069agent.Common.Escape.Ascii.{
  IsAscii, escape, encoding, encoded, encoded_plain, encode_value-encoded, zeros, coded_text_string,
}
use tr069agent.Common.Escape.{
  Coded, Echap, coded, unchanged, fault, is_special, count_special, encode_value, hex_char,
  hex_value, scan_hex2, plain, percent, digit, echap_next, echap_output, decode_loop, count_percent,
  decode_value, coded_text,
}

hex_value-hex_char : (d : ℕ) → d < 16 → hex_value (hex_char d) ≡ some d
unfolding hex_value hex_char
hex_value-hex_char d h = ground arith

hex_char_plain :
    (d : ℕ)
    → d < 16
    → (is_space (hex_char d) ≡ false)
      × ((hex_char d == b'+') ≡ false)
      × ((hex_char d == b'-') ≡ false)
      × ((hex_char d == b'%') ≡ false)
unfolding is_space hex_char
hex_char_plain d h = ground arith

scan_hex2_escape :
    (c : ℕ) (rest : Bytes) → c < 256 → scan_hex2 (hex_char (c / 16) ∷ hex_char (c % 16) ∷ rest) ≡ c
unfolding scan_hex2
scan_hex2_escape c rest h =
    let p = hex_char_plain (c / 16) (omega arith) in
    let hi = hex_value-hex_char (c / 16) (omega arith) in
    let lo = hex_value-hex_char (c % 16) (omega arith) in ground (arith, p, hi, lo)

not_percent : (c : ℕ) → is_special c ≡ false → (c == b'%') ≡ false
unfolding is_special
not_percent c h = ground arith

decode_loop-write :
    (c : ℕ) (cs : Bytes) (e : Echap) (j j' : ℕ) (b b' : Bytes)
    → write_at j (echap_output e c cs) b ≡ some b'
    → j + length (echap_output e c cs) ≡ j'
    → decode_loop (c ∷ cs) e j b ≡ decode_loop cs (echap_next e c) j' b'
unfolding decode_loop
decode_loop-write c cs e j j' b b' h k = rw (h, k)

-- The loop writes one byte behind the others.
decode_loop_byte :
    (c v n : ℕ) (cs done : Bytes) (e : Echap)
    → echap_output e c cs ≡ v ∷ []
    → decode_loop (c ∷ cs) e (length done) (done ++ zeros (suc n))
      ≡ decode_loop cs (echap_next e c) (length (done ++ v ∷ [])) ((done ++ v ∷ []) ++ zeros n)
decode_loop_byte c v n cs done e h =
    decode_loop-write c cs e _ _ _ _
      (ap (λ o. write_at (length done) o (done ++ zeros (suc n))) h
        ∙ write_at-append done (v ∷ []) (zeros (suc n)) (omega arith)
        ∙ ap some (sym (append_assoc done (v ∷ []) (zeros n))))
      (omega (arith, ap length h, length-append done (v ∷ [])))

-- The loop passes over a character.
decode_loop_skip :
    (c n : ℕ) (cs done : Bytes) (e : Echap)
    → echap_output e c cs ≡ []
    → decode_loop (c ∷ cs) e (length done) (done ++ zeros n)
      ≡ decode_loop cs (echap_next e c) (length done) (done ++ zeros n)
decode_loop_skip c n cs done e h =
    decode_loop-write c cs e _ _ _ _
      (ap (λ o. write_at (length done) o (done ++ zeros n)) h
        ∙ write_at-append done [] (zeros n) (omega arith))
      (omega (arith, ap length h))

echap_output_mark : (cs : Bytes) → echap_output plain b'%' cs ≡ []
unfolding echap_output
echap_output_mark cs = refl

echap_next_mark : echap_next plain b'%' ≡ percent
unfolding echap_next
echap_next_mark = refl

echap_output_percent :
    (c : ℕ) (cs : Bytes) → (c == b'%') ≡ false → echap_output percent c cs ≡ scan_hex2 (c ∷ cs) ∷ []
unfolding echap_output
echap_output_percent c cs h = rw h

echap_next_percent : (c : ℕ) → (c == b'%') ≡ false → echap_next percent c ≡ digit
unfolding echap_next
echap_next_percent c h = rw h

echap_output_digit : (c : ℕ) (cs : Bytes) → echap_output digit c cs ≡ []
unfolding echap_output
echap_output_digit c cs = refl

echap_next_digit : (c : ℕ) → (c == b'%') ≡ false → echap_next digit c ≡ plain
unfolding echap_next
echap_next_digit c h = rw h

decode_loop-escape :
    (c n : ℕ) (rest done : Bytes)
    → c < 128
    → decode_loop (escape c ++ rest) plain (length done) (done ++ zeros (suc n))
      ≡ decode_loop rest plain (length (done ++ c ∷ [])) ((done ++ c ∷ []) ++ zeros n)
decode_loop-escape c n rest done h =
    decode_loop_skip b'%' (suc n) (hi ∷ lo ∷ rest) done plain (echap_output_mark _)
    ∙ ap (λ e. decode_loop (hi ∷ lo ∷ rest) e (length done) (done ++ zeros (suc n))) echap_next_mark
    ∙ decode_loop_byte hi c n (lo ∷ rest) done percent (
        echap_output_percent hi (lo ∷ rest) (hex_char_plain (c / 16) (omega arith)).3
        ∙ ap (λ v. v ∷ []) (scan_hex2_escape c rest (omega arith)))
    ∙ ap (λ e. decode_loop (lo ∷ rest) e (length (done ++ c ∷ [])) ((done ++ c ∷ []) ++ zeros n))
        (echap_next_percent hi (hex_char_plain (c / 16) (omega arith)).3)
    ∙ decode_loop_skip lo n rest (done ++ c ∷ []) digit (echap_output_digit lo rest)
    ∙ ap (λ e. decode_loop rest e (length (done ++ c ∷ [])) ((done ++ c ∷ []) ++ zeros n))
        (echap_next_digit lo (hex_char_plain (c % 16) (omega arith)).3)
  where
    hi : ℕ
    hi = hex_char (c / 16)

    lo : ℕ
    lo = hex_char (c % 16)

decode_loop-plain :
    (c n : ℕ) (rest done : Bytes)
    → (c == b'%') ≡ false
    → decode_loop (c ∷ rest) plain (length done) (done ++ zeros (suc n))
      ≡ decode_loop rest plain (length (done ++ c ∷ [])) ((done ++ c ∷ []) ++ zeros n)
decode_loop-plain c n rest done h =
    decode_loop_byte c c n rest done plain (unfold echap_output in rw h)
    ∙ ap (λ e. decode_loop rest e (length (done ++ c ∷ [])) ((done ++ c ∷ []) ++ zeros n))
        (unfold echap_next in rw h)

decode_loop-encoded :
    (cs done : Bytes)
    → All IsAscii cs
    → decode_loop (encoded cs) plain (length done) (done ++ zeros (suc (length cs)))
      ≡ some (done ++ (cs ++ 0 ∷ []))
decode_loop-encoded [] done h = unfold decode_loop in refl
decode_loop-encoded (c ∷ cs) done h = elim (Bool-cases (is_special c)) [
  | inl s ↦ rw s (
      decode_loop-escape c (suc (length cs)) (encoded cs) done (h.0.1)
      ∙ decode_loop-encoded cs (done ++ c ∷ []) h.1
      ∙ simp append_assoc)
  | inr s ↦ rw s (
      decode_loop-plain c (suc (length cs)) (encoded cs) done (not_percent c s)
      ∙ decode_loop-encoded cs (done ++ c ∷ []) h.1
      ∙ simp append_assoc)
]

count_percent-append : (s t : Bytes) → count_percent (s ++ t) ≡ count_percent s + count_percent t
unfolding count_percent
count_percent-append [] t = omega arith
count_percent-append (c ∷ s) t = omega (arith, count_percent-append s t)

count_percent-encoding :
    (c : ℕ)
    → c < 128
    → (count_percent (encoding c) ≡ (if is_special c then 1 else 0))
      × (length (encoding c) ≡ (if is_special c then 3 else 1))
unfolding count_percent
count_percent-encoding c h = elim (Bool-cases (is_special c)) [
  | inl s ↦ rw s (
      rw ((hex_char_plain (c / 16) (omega arith)).3, (hex_char_plain (c % 16) (omega arith)).3)
        (omega arith, omega arith))
  | inr s ↦ rw s (rw (not_percent c s) (omega arith, omega arith))
]

-- The text shrinks by two characters at each per cent sign.
count_percent-encoded :
    (cs : Bytes)
    → All IsAscii cs
    → (count_percent (encoded cs) ≡ count_special cs)
      × (length (encoded cs) ≡ length cs + 2 * count_special cs)
unfolding count_special
count_percent-encoded [] h = (unfold count_percent in refl, omega arith)
count_percent-encoded (c ∷ cs) h = ground (
  arith,
  count_percent-append (encoding c) (encoded cs),
  length-append (encoding c) (encoded cs),
  count_percent-encoding c h.0.1,
  count_percent-encoded cs h.1,
)

-- What the caller keeps: the result, or the text itself where the result is NULL.
abbrev pub kept : Bytes → Coded → Option Bytes
kept s unchanged = some s
kept s (coded t) = some t
kept s fault = none

ascii_NonZero : (s : Bytes) → All IsAscii s → All (λ c. (c == 0) ≡ false) s
ascii_NonZero [] h = tt
ascii_NonZero (c ∷ s) h = (ground arith, ascii_NonZero s h.1)

decoded_text :
    (s : Bytes) (size : ℕ)
    → All IsAscii s
    → size ≡ suc (length s)
    → coded_text (decode_loop (encoded s) plain 0 (zeros size)) ≡ coded s
decoded_text s size h e =
    ap (λ m. coded_text (decode_loop (encoded s) plain 0 (zeros m))) e
    ∙ ap coded_text (decode_loop-encoded s [] h)
    ∙ coded_text_string (s ++ 0 ∷ []) s (read_string-append s [] (ascii_NonZero s h))

decode_value_plain : (s : Bytes) → (count_percent s == 0) ≡ true → decode_value (some s) ≡ unchanged
unfolding decode_value
decode_value_plain s h = rw h

decode_value-encoded :
    (s : Bytes)
    → All IsAscii s
    → (count_special s == 0) ≡ false
    → decode_value (some (encoded s)) ≡ coded s
unfolding decode_value
decode_value-encoded s h nz =
    let (marks, size) = count_percent-encoded s h in
    let room : ltb (length (encoded s) + 1) (2 * count_special s) ≡ false = ground arith in
    rw (marks, nz) (rw room (decoded_text s _ h (omega arith)))

-- A text of ASCII characters that is stored encoded, where `DM_ENG_encodeValue` finds something to
-- code, is the one that comes back when it is decoded, where `DM_ENG_decodeValue` finds something to
-- decode. Neither function writes outside of its buffer.
pub decode-encode_value :
    (s : Bytes)
    → All IsAscii s
    → (t : Bytes) × (kept s (encode_value (some s)) ≡ some t)
      × (kept t (decode_value (some t)) ≡ some s)
decode-encode_value s h = elim (Bool-cases (count_special s == 0)) [
  | inl z ↦
      let marks = (count_percent-encoded s h).0 in
      (
        s,
        rw (encode_value-encoded s h, z) refl,
        ap (kept s) (decode_value_plain s (rw (← marks, encoded_plain s z) at z)),
      )
  | inr nz ↦ (
    encoded s,
    rw (encode_value-encoded s h, nz) refl,
    ap (kept (encoded s)) (decode_value-encoded s h nz),
  )
]
