-- ===== src/Parameter/Name.antt =====
-- dm_engine/src/DM_ENG_Parameter.c: what the name of a parameter tells, and relative names.
pub mod Relative
pub mod Instance
use mathlib.Core.List.{reverse}
use tr069agent.Prelude.{
  ℕ, zero, suc, ◌-◌, Bool, true, false, not, ◌&&◌, ◌||◌, Option, none, some, [], ◌∷◌, ◌++◌, ltb,
  ◌==◌, if◌then◌else◌, Bytes, codes, str_eq, is_digit, length, drop,
}

abbrev pub diagnostics_state_suffix : Bytes
diagnostics_state_suffix = codes ".DiagnosticsState"

-- `strncmp (s, p, strlen (p)) == 0`.
unfoldable pub starts_with : Bytes → Bytes → Bool
starts_with [] s = true
starts_with (p ∷ ps) [] = false
starts_with (p ∷ ps) (c ∷ cs) = p == c && starts_with ps cs

-- `strstr (s, "..") != NULL`.
unfoldable pub has_two_dots : Bytes → Bool
unfolding starts_with
has_two_dots [] = false
has_two_dots (c ∷ cs) = starts_with (codes "..") (c ∷ cs) || has_two_dots cs

-- The last character is a dot. The code reads in front of an empty text, which is no name.
unfoldable pub is_node : Bytes → Bool
is_node [] = false
is_node (c ∷ []) = c == b'.'
is_node (c ∷ d ∷ cs) = is_node (d ∷ cs)

unfoldable pub is_valuable : Bytes → Bool
unfolding is_node has_two_dots
is_valuable name = not (is_node name) && not (has_two_dots name)

unfoldable pub is_diagnostics_state : Bytes → Bool
unfolding str_eq
is_diagnostics_state name =
    ltb (length diagnostics_state_suffix) (length name)
    && str_eq (drop (length name - length diagnostics_state_suffix) name) diagnostics_state_suffix

-- The loop from the end of the name, on the characters up to index `k`, the last one first.
unfoldable pub node_instance_loop : Bytes → Bool
node_instance_loop [] = false
node_instance_loop (c ∷ []) = false
node_instance_loop (c ∷ d ∷ cs) =
    let more = node_instance_loop (d ∷ cs) in
    if ltb 1 (length (d ∷ cs)) && is_digit c then (if d == b'.' then true else more) else false

unfoldable pub node_instance_at : Bytes → Bool
unfolding node_instance_loop
node_instance_at [] = false
node_instance_at (c ∷ cs) = c == b'.' && node_instance_loop cs

unfoldable pub is_node_instance : Bytes → Bool
unfolding node_instance_at
is_node_instance name = node_instance_at (reverse name)

-- The dots at the start of a name, and the rest.
unfoldable pub leading_dots : Bytes → ℕ × Bytes
leading_dots [] = (0, [])
leading_dots (c ∷ cs) =
    let (n, rest) = leading_dots cs in if c == b'.' then (suc n, rest) else (0, c ∷ cs)

-- The loop that goes back over the levels of the name `destName`, given backwards: `pts + 1` dots are
-- to be found, and `kept` is what the last one found has left.
unfoldable pub climb : ℕ → Bytes → Bytes → Bytes
climb pts [] kept = kept
climb zero (c ∷ cs) kept = let more = climb zero cs kept in if c == b'.' then c ∷ cs else more
climb (suc pts) (c ∷ cs) kept =
    let found = climb pts cs (c ∷ cs) in
    let more = climb (suc pts) cs kept in if c == b'.' then found else more

-- `pts` is at least 1.
unfoldable pub relative_name : ℕ × Bytes → Bytes → Bytes
unfolding climb
relative_name (pts, rest) dest = reverse (climb (pts - 1) (reverse dest) (reverse dest)) ++ rest

-- `prefix` is `DM_ENG_PARAMETER_PREFIX`, which depends on the build.
unfoldable pub get_long_name : Bytes → Bytes → Option Bytes → Bytes
unfolding relative_name starts_with leading_dots
get_long_name prefix prm none = prm
get_long_name prefix prm (some []) = prm
get_long_name prefix prm (some (c ∷ cs)) =
    if starts_with prefix prm then prm else relative_name (leading_dots prm) (c ∷ cs)
