-- ===== src/Common/Escape/Ascii.antt =====
-- Encoding a text of ASCII characters.
use tr069agent.Prelude.{
  ℕ, suc, ◌+◌, ◌*◌, ◌/◌, ◌%◌, ◌<◌, true, false, some, [], ◌∷◌, ◌++◌, ◌==◌, if◌then◌else◌, Bytes,
  length, replicate, ◌≡◌, refl, ap, ◌∙◌, arith, All, All-append, Bool-cases, inl, inr, append_assoc,
  length-append,
}
use tr069agent.Common.Buffer.{write_at-append, read_string, read_string-append}
use tr069agent.Common.Escape.{
  coded, unchanged, is_special, sprintf_hex, count_special, encode_char, encode_loop, coded_text,
  encode_value, hex_char,
}

-- A character of the text: neither the NUL nor beyond 127.
abbrev pub IsAscii : ℕ → Type 0
IsAscii c = (0 < c) × (c < 128)

-- The coding of one character, and of a text.
abbrev pub escape : ℕ → Bytes
escape c = b'%' ∷ hex_char (c / 16) ∷ hex_char (c % 16) ∷ []

abbrev pub encoding : ℕ → Bytes
encoding c = if is_special c then escape c else c ∷ []

abbrev pub encoded : Bytes → Bytes
encoded [] = []
encoded (c ∷ cs) = encoding c ++ encoded cs

abbrev pub zeros : ℕ → Bytes
zeros n = replicate n 0

sprintf_hex_ascii : (c : ℕ) → c < 128 → sprintf_hex c ≡ escape c
unfolding sprintf_hex
sprintf_hex_ascii c h = ground arith

encode_char_special :
    (c n : ℕ) (done : Bytes)
    → c < 128
    → is_special c ≡ true
    → encode_char c (length done) (done ++ zeros (suc (suc (suc (suc n)))))
      ≡ some ((done ++ escape c) ++ zeros (suc n))
unfolding encode_char
encode_char_special c n done h s =
    rw (s, sprintf_hex_ascii c h)
      (write_at-append done (escape c ++ 0 ∷ []) (zeros (suc (suc (suc (suc n))))) (omega arith)
        ∙ simp append_assoc)

encode_char_plain :
    (c n : ℕ) (done : Bytes)
    → is_special c ≡ false
    → encode_char c (length done) (done ++ zeros (suc (suc n)))
      ≡ some ((done ++ c ∷ []) ++ zeros (suc n))
unfolding encode_char
encode_char_plain c n done s =
    rw s (write_at-append done (c ∷ []) (zeros (suc (suc n))) (omega arith) ∙ simp append_assoc)

-- One round of the loop on a character whose coding is known to fit.
encode_loop-cons :
    (c k : ℕ) (cs b b' : Bytes) (j j' : ℕ)
    → encode_char c j b ≡ some b'
    → j + (if is_special c then 3 else 1) ≡ j'
    → encode_loop (c ∷ cs) j b ≡ encode_loop cs j' b'
unfolding encode_loop
encode_loop-cons c k cs b b' j j' h e = rw (h, e)

encode_loop-encoded :
    (cs done : Bytes)
    → All IsAscii cs
    → encode_loop cs (length done) (done ++ zeros (suc (length cs + 2 * count_special cs)))
      ≡ some (done ++ (encoded cs ++ 0 ∷ []))
unfolding count_special
encode_loop-encoded [] done h = unfold encode_loop in refl
encode_loop-encoded (c ∷ cs) done h = elim (Bool-cases (is_special c)) [
  | inl s ↦ rw s (
      ap (λ m. encode_loop (c ∷ cs) (length done) (done ++ zeros m))
        (let e : suc (length (c ∷ cs) + 2 * (1 + count_special cs))
              ≡ suc (suc (suc (suc (length cs + 2 * count_special cs)))) =
            omega arith in
          e)
      ∙ encode_loop-cons c 0 cs _ _ _ (length (done ++ escape c))
          (encode_char_special c _ done (h.0.1) s)
          (rw s (omega (arith, length-append done (escape c))))
      ∙ encode_loop-encoded cs (done ++ escape c) h.1
      ∙ simp append_assoc)
  | inr s ↦ rw s (
      ap (λ m. encode_loop (c ∷ cs) (length done) (done ++ zeros m))
        (let e : suc (length (c ∷ cs) + 2 * (0 + count_special cs))
              ≡ suc (suc (length cs + 2 * count_special cs)) =
            omega arith in
          e)
      ∙ encode_loop-cons c 0 cs _ _ _ (length (done ++ c ∷ [])) (encode_char_plain c _ done s)
          (rw s (omega (arith, length-append done (c ∷ []))))
      ∙ encode_loop-encoded cs (done ++ c ∷ []) h.1
      ∙ simp append_assoc)
]

abbrev NonZero : ℕ → Type 0
NonZero c = (c == 0) ≡ false

escape-NonZero : (c : ℕ) → c < 128 → All NonZero (escape c)
unfolding hex_char
escape-NonZero c h = ground arith

encoding-NonZero : (c : ℕ) → IsAscii c → All NonZero (encoding c)
encoding-NonZero c h = elim (Bool-cases (is_special c)) [
  | inl s ↦ rw s (escape-NonZero c (h.1))
  | inr s ↦ rw s (ground arith)
]

pub encoded-NonZero : (cs : Bytes) → All IsAscii cs → All (λ c. (c == 0) ≡ false) (encoded cs)
encoded-NonZero [] h = tt
encoded-NonZero (c ∷ cs) h =
    All-append NonZero (encoding c) (encoded cs) (encoding-NonZero c h.0) (encoded-NonZero cs h.1)

pub coded_text_string : (b s : Bytes) → read_string b ≡ some s → coded_text (some b) ≡ coded s
unfolding coded_text
coded_text_string b s h = ground arith

-- The buffer of a text of ASCII characters is large enough, and the text in it is the coding: NULL
-- stands for a text that has nothing to code.
pub encode_value-encoded :
    (str : Bytes)
    → All IsAscii str
    → encode_value (some str) ≡ (if count_special str == 0 then unchanged else coded (encoded str))
unfolding encode_value
encode_value-encoded str h = elim (Bool-cases (count_special str == 0)) [
  | inl z ↦ rw z
  | inr s ↦ rw s (
      ap coded_text fits
      ∙ coded_text_string _ _ (read_string-append (encoded str) [] (encoded-NonZero str h)))
]
  where
    fits :
        encode_loop str 0 (replicate (length str + 2 * count_special str + 1) 0)
        ≡ some (encoded str ++ 0 ∷ [])
    fits =
        ap (λ m. encode_loop str 0 (zeros m))
          (let e : length str + 2 * count_special str + 1
                ≡ suc (length str + 2 * count_special str) =
              omega arith in
            e)
        ∙ encode_loop-encoded str [] h

-- A text with nothing to code is its own coding.
pub encoded_plain : (str : Bytes) → (count_special str == 0) ≡ true → encoded str ≡ str
unfolding count_special
encoded_plain [] h = refl
encoded_plain (c ∷ cs) h = ground (arith, encoded_plain cs)
