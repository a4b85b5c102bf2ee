-- ===== src/ComputedExp/Token/Lexing.antt =====
-- What the tokens of a text are: they come in order, and only white space stands between them.
use tr069agent.Prelude.{
  ℕ, suc, zero, ◌<◌, Bool, true, false, not, ◌&&◌, some, List, [], ◌∷◌, ◌++◌, ◌≡◌, ◌≢◌, refl, ap,
  sym, subst, append-nil, ◌∙◌, arith, ◌==◌, Bytes, is_space, length, length-append, All, Bool-cases,
  inl, inr,
}
use tr069agent.Common.Number.{skip_spaces}
use tr069agent.ComputedExp.Token.{
  span, quoted, token_at, is_name_char, is_op_char, tokens, all_tokens,
}

span-append : (p : ℕ → Bool) (s : Bytes) → (span p s).0 ++ (span p s).1 ≡ s
unfolding span
span-append p [] = refl
span-append p (c ∷ cs) = ground (arith, span-append p cs)

quoted-append :
    (delim : ℕ) (echap : Bool) (s : Bytes)
    → (quoted delim echap s).0 ++ (quoted delim echap s).1 ≡ s
unfolding quoted
quoted-append delim echap [] = refl
quoted-append delim echap (c ∷ cs) =
    ground (arith, quoted-append delim (not echap && c == b'\\') cs)

-- The token and what follows it make up the text.
token_at-append : (c : ℕ) (cs : Bytes) → (token_at c cs).0 ++ (token_at c cs).1 ≡ c ∷ cs
unfolding token_at
token_at-append c cs = ground (
  arith,
  span-append is_name_char (c ∷ cs),
  span-append is_op_char (c ∷ cs),
  quoted-append c false cs,
)

span-ne-nil : (p : ℕ → Bool) (c : ℕ) (cs : Bytes) → p c ≡ true → (span p (c ∷ cs)).0 ≢ []
unfolding span
span-ne-nil p c cs h = ground arith

token_at-ne-nil : (c : ℕ) (cs : Bytes) → (token_at c cs).0 ≢ []
unfolding token_at
token_at-ne-nil c cs = ground (arith, span-ne-nil is_name_char c cs, span-ne-nil is_op_char c cs)

abbrev pub IsBlank : Bytes → Type 0
IsBlank = All (λ c. is_space c ≡ true)

-- White space stands in front of each token and at the end, and nothing else is left out.
pub data Lexes : Bytes → List Bytes → Type 0 where
  end : {s : Bytes} → IsBlank s → Lexes s []
  next :
      {s tok rest : Bytes} {toks : List Bytes} (ws : Bytes)
      → IsBlank ws
      → tok ≢ []
      → s ≡ ws ++ (tok ++ rest)
      → Lexes rest toks
      → Lexes s (tok ∷ toks)

skip_spaces-split : (s : Bytes) → (ws : Bytes) × IsBlank ws × (s ≡ ws ++ skip_spaces s)
unfolding skip_spaces
skip_spaces-split [] = ([], tt, refl)
skip_spaces-split (c ∷ cs) = elim (Bool-cases (is_space c)) [
  | inl y ↦ let (ws, blank, e) = skip_spaces-split cs in (c ∷ ws, (y, blank), rw y (ap (◌∷◌ c) e))
  | inr n ↦ ([], tt, rw n)
]

length_pos : (s : Bytes) → s ≢ [] → 0 < length s
length_pos [] h = absurd (h refl)
length_pos (c ∷ s) h = omega arith

-- The reading goes on behind a token that is not empty, so the text left is shorter.
rest-lt : (c : ℕ) (cs ws s : Bytes) → s ≡ ws ++ c ∷ cs → length (token_at c cs).1 < length s
rest-lt c cs ws s e = omega (
  arith,
  ap length e,
  length-append ws (c ∷ cs),
  ap length (token_at-append c cs),
  length-append (token_at c cs).0 (token_at c cs).1,
  length_pos (token_at c cs).0 (token_at-ne-nil c cs),
)

tokens_rest :
    (c : ℕ) (cs ws s : Bytes)
    → s ≡ ws ++ c ∷ cs
    → s ≡ ws ++ ((token_at c cs).0 ++ (token_at c cs).1)
tokens_rest c cs ws s e = e ∙ ap (◌++◌ ws) (sym (token_at-append c cs))

tokens_end : (n : ℕ) (s : Bytes) → skip_spaces s ≡ [] → tokens (suc n) s ≡ some []
unfolding tokens
tokens_end n s e = rw (e, tokens)

tokens_next :
    (n c : ℕ) (cs s : Bytes) (ts : List Bytes)
    → skip_spaces s ≡ c ∷ cs
    → tokens n (token_at c cs).1 ≡ some ts
    → tokens (suc n) s ≡ some ((token_at c cs).0 ∷ ts)
unfolding tokens
tokens_next n c cs s ts e h = rw (e, tokens) (rw h)

-- The tokens behind the white space `ws`.
tokens_behind-Lexes :
    (n : ℕ) (s ws w : Bytes)
    → IsBlank ws
    → skip_spaces s ≡ w
    → s ≡ ws ++ w
    → ((c : ℕ) (cs : Bytes)
        → w ≡ c ∷ cs
        → (ts : List Bytes) × (tokens n (token_at c cs).1 ≡ some ts) × Lexes (token_at c cs).1 ts)
    → (ts : List Bytes) × (tokens (suc n) s ≡ some ts) × Lexes s ts
tokens_behind-Lexes n s ws [] blank e split ih =
    ([], tokens_end n s e, end (subst IsBlank (sym (split ∙ append-nil ws)) blank))
tokens_behind-Lexes n s ws (c ∷ cs) blank e split ih =
    let (ts, h, l) = ih c cs refl in
    (
      (token_at c cs).0 ∷ ts,
      tokens_next n c cs s ts e h,
      next ws blank (token_at-ne-nil c cs) (tokens_rest c cs ws s split) l,
    )

tokens-Lexes :
    (n : ℕ) (s : Bytes) → length s < n → (ts : List Bytes) × (tokens n s ≡ some ts) × Lexes s ts
tokens-Lexes zero s h = absurd (omega arith)
tokens-Lexes (suc n) s h =
    let (ws, blank, split) = skip_spaces-split s in
    tokens_behind-Lexes n s ws (skip_spaces s) blank refl split
      λ c cs e. tokens-Lexes n _ (omega (arith, rest-lt c cs ws s (split ∙ ap (◌++◌ ws) e)))

-- Every text is read to its end: its tokens are not empty, stand in the text in their order, and
-- only white space is left out between them.
pub all_tokens-Lexes : (s : Bytes) → (ts : List Bytes) × (all_tokens s ≡ some ts) × Lexes s ts
unfolding all_tokens
all_tokens-Lexes s = tokens-Lexes (suc (length s)) s (omega arith)
