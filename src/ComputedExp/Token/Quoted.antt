-- ===== src/ComputedExp/Token/Quoted.antt =====
-- Quoted texts: what is quoted with its delimiters and backslashes escaped is read as one token, and
-- its text is what was quoted.
use tr069agent.Prelude.{
  ℕ, false, ◌||◌, [], ◌∷◌, ◌++◌, ◌≡◌, refl, ap, ◌∙◌, arith, ◌==◌, if◌then◌else◌, Bytes, is_alnum,
  Bool-cases, inl, inr, ◌⊎◌,
}
use tr069agent.ComputedExp.Token.{quoted, token_at, is_name_char, is_op_char, unquote}

-- A backslash in front of the delimiter and of the backslash.
abbrev pub quoting : ℕ → Bytes → Bytes
quoting delim [] = []
quoting delim (c ∷ cs) =
    if c == b'\\' || c == delim then b'\\' ∷ c ∷ quoting delim cs else c ∷ quoting delim cs

abbrev IsDelimiter : ℕ → Type 0
IsDelimiter d = (d ≡ b'"') ⊎ (d ≡ b'\'')

quoted-quoting :
    (s rest : Bytes) (d : ℕ)
    → IsDelimiter d
    → quoted d false (quoting d s ++ d ∷ rest) ≡ (quoting d s ++ d ∷ [], rest)
unfolding quoted
quoted-quoting [] rest d h = ground arith
quoted-quoting (c ∷ s) rest d h = ground (arith, quoted-quoting s rest d h)

unquote_plain :
    (c d : ℕ) (t : Bytes) → (c == b'\\' || c == d) ≡ false → unquote d (c ∷ t) ≡ c ∷ unquote d t
unfolding unquote
unquote_plain c d [] h = rw h
unquote_plain c d (x ∷ t) h = rw h

unquote_escaped : (c d : ℕ) (t : Bytes) → unquote d (b'\\' ∷ c ∷ t) ≡ c ∷ unquote d t
unfolding unquote
unquote_escaped c d t = refl

unquote-quoting : (s : Bytes) (d : ℕ) → unquote d (quoting d s ++ d ∷ []) ≡ s
unquote-quoting [] d = unfold unquote in ground arith
unquote-quoting (c ∷ s) d = elim (Bool-cases (c == b'\\' || c == d)) [
  | inl y ↦ rw y (unquote_escaped c d _ ∙ ap (◌∷◌ c) (unquote-quoting s d))
  | inr n ↦ rw n (unquote_plain c d _ n ∙ ap (◌∷◌ c) (unquote-quoting s d))
]

token_at_quote :
    (d : ℕ) (s : Bytes)
    → IsDelimiter d
    → token_at d s ≡ (d ∷ (quoted d false s).0, (quoted d false s).1)
unfolding token_at is_name_char is_op_char is_alnum
token_at_quote d s (inl e) = rw e
token_at_quote d s (inr e) = rw e

-- A text, quoted in single or double quotes with a backslash in front of each delimiter and each
-- backslash in it, is read as one token whatever follows it, and the parser gets the text back.
pub token_at-quoting :
    (s rest : Bytes) (d : ℕ)
    → (d ≡ b'"') ⊎ (d ≡ b'\'')
    → (token_at d (quoting d s ++ d ∷ rest) ≡ (d ∷ (quoting d s ++ d ∷ []), rest))
      × (unquote d (quoting d s ++ d ∷ []) ≡ s)
token_at-quoting s rest d h =
    (token_at_quote d _ h ∙ rw (quoted-quoting s rest d h), unquote-quoting s d)
