-- ===== src/ComputedExp/Token.antt =====
-- dm_engine/src/DM_ENG_ComputedExp.c: the tokens. `_getToken` reads a token where the last one was
-- dropped by `_nextToken`, and leaves it otherwise; so the parser sees the list of the tokens.
pub mod Lexing
pub mod Quoted
use tr069agent.Prelude.{
  ℕ, suc, zero, ◌+◌, Bool, true, false, not, ◌&&◌, ◌||◌, Option, none, some, List, [], ◌∷◌, ◌++◌,
  ◌==◌, if◌then◌else◌, Bytes, codes, contains, is_space, is_alnum, length,
}
use tr069agent.Common.Number.{skip_spaces}

abbrev pub op_char : Bytes
op_char = codes "!%*+-/:<=>?^|~"

unfoldable pub is_name_char : ℕ → Bool
is_name_char c = is_alnum c || c == b'.' || c == b'_'

unfoldable pub is_op_char : ℕ → Bool
unfolding contains
is_op_char c = contains op_char c

-- The longest start whose characters pass the test, and what follows it.
unfoldable pub span : (ℕ → Bool) → Bytes → Bytes × Bytes
span p [] = ([], [])
span p (c ∷ cs) = let (a, b) = span p cs in if p c then (c ∷ a, b) else ([], c ∷ cs)

-- The loop over a quoted text behind its delimiter: the characters up to and with the closing
-- delimiter, or up to the end.
unfoldable pub quoted : ℕ → Bool → Bytes → Bytes × Bytes
quoted delim echap [] = ([], [])
quoted delim echap (c ∷ cs) =
    let (a, b) = quoted delim (not echap && c == b'\\') cs in
    if not echap && c == delim then (c ∷ [], cs) else (c ∷ a, b)

-- The token that starts with the character `c`, and what follows it: a name or number, an operator,
-- a quoted text, or a single character.
unfoldable pub token_at : ℕ → Bytes → Bytes × Bytes
token_at c cs =
    if is_name_char c
    then span is_name_char (c ∷ cs)
    else if is_op_char c
    then span is_op_char (c ∷ cs)
    else if c == b'"' || c == b'\''
    then (let (a, b) = quoted c false cs in (c ∷ a, b))
    else (c ∷ [], cs)

-- The tokens of the text, read one after the other; `none` where the fuel ends.
unfoldable pub tokens : ℕ → Bytes → Option (List Bytes)
tokens zero s = none
tokens (suc n) s = elim (skip_spaces s) [
  | [] ↦ some []
  | c ∷ cs ↦
      let (tok, rest) = token_at c cs in
      elim (tokens n rest) [ none ↦ none | some toks ↦ some (tok ∷ toks) ]
]

-- One token at most for each character, and the end.
unfoldable pub all_tokens : Bytes → Option (List Bytes)
all_tokens s = tokens (suc (length s)) s

-- The loop of `_parsePrim` over a quoted token behind its delimiter.
unfoldable pub unquote : ℕ → Bytes → Bytes
unquote delim [] = []
unquote delim (c ∷ []) = if c == b'\\' || c == delim then [] else c ∷ []
unquote delim (c ∷ d ∷ cs) =
    let rest = unquote delim (d ∷ cs) in
    let escaped = unquote delim cs in if c == b'\\' || c == delim then d ∷ escaped else c ∷ rest
