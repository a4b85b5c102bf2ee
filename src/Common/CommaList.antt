-- ===== src/Common/CommaList.antt =====
-- dm_engine/src/DM_ENG_Common.c: comma-separated lists. An array of strings that ends with NULL is
-- a list; a `char*` that may be NULL is an `Option Bytes`.
pub mod RoundTrip
pub mod Members
use tr069agent.Prelude.{
  ℕ, Bool, true, false, not, ◌&&◌, ◌||◌, Option, none, some, List, [], ◌∷◌, ◌++◌, ◌==◌,
  if◌then◌else◌, Bytes, str_eq,
}

-- The scan of one item: whether only spaces were read so far, the text from `deb` to `fin`, and the
-- spaces behind `fin`.
pub record Scan : Type 0 where
  pub skipping : Bool
  pub item : Bytes
  pub pending : Bytes

abbrev pub scan_start : Scan
scan_start = record { skipping = true; item = []; pending = [] }

-- One character, other than the comma.
unfoldable pub scan_char : Scan → ℕ → Scan
scan_char s c =
    if c == b' '
    then (if s.skipping then s else record s { pending = s.pending ++ c ∷ [] })
    else record { skipping = false; item = s.item ++ s.pending ++ c ∷ []; pending = [] }

unfoldable pub split_from : Scan → Bytes → List Bytes
unfolding scan_char
split_from s [] = s.item ∷ []
split_from s (c ∷ cs) =
    let rest = split_from (if c == b',' then scan_start else scan_char s c) cs in
    if c == b',' then s.item ∷ rest else rest

unfoldable pub split_list : Bytes → List Bytes
unfolding split_from
split_list = split_from scan_start

unfoldable pub split_comma_separated_list : Option Bytes → Option (List Bytes)
unfolding split_list
split_comma_separated_list none = none
split_comma_separated_list (some ch) = some (split_list ch)

-- The items behind the first one, each with its comma.
unfoldable pub join_rest : List Bytes → Bytes
join_rest [] = []
join_rest (x ∷ xs) = b',' ∷ (x ++ join_rest xs)

unfoldable pub build_comma_separated_list : List Bytes → Option Bytes
unfolding join_rest
build_comma_separated_list [] = none
build_comma_separated_list (x ∷ xs) = some (x ++ join_rest xs)

unfoldable pub has_item : List Bytes → Bytes → Bool
has_item [] ch = false
has_item (x ∷ xs) ch = str_eq x ch || has_item xs ch

unfoldable pub belongs_to_comma_separated_list : Option Bytes → Option Bytes → Bool
unfolding has_item split_list
belongs_to_comma_separated_list none ch = false
belongs_to_comma_separated_list (some csl) none = false
belongs_to_comma_separated_list (some csl) (some ch) = has_item (split_list csl) ch

-- NULL is taken for the empty text.
unfoldable pub text_or_empty : Option Bytes → Bytes
text_or_empty none = []
text_or_empty (some s) = s

unfoldable pub add_to_comma_separated_list : Option Bytes → Option Bytes → Option Bytes
unfolding text_or_empty belongs_to_comma_separated_list
add_to_comma_separated_list csl ch =
    if belongs_to_comma_separated_list csl ch
    then csl
    else some (text_or_empty csl ++ b',' ∷ text_or_empty ch)

-- The first item equal to `ch` is taken out, and those behind it move up.
unfoldable pub remove_item : List Bytes → Bytes → List Bytes
remove_item [] ch = []
remove_item (x ∷ xs) ch = let rest = remove_item xs ch in if str_eq x ch then xs else x ∷ rest

-- The result tells whether the item was found; the list is rebuilt only then.
unfoldable pub delete_from_comma_separated_list : Option Bytes → Option Bytes → Bool × Option Bytes
unfolding has_item split_list build_comma_separated_list remove_item
delete_from_comma_separated_list none ch = (false, none)
delete_from_comma_separated_list (some csl) none = (false, some csl)
delete_from_comma_separated_list (some csl) (some ch) =
    let items = split_list csl in
    if has_item items ch
    then (true, build_comma_separated_list (remove_item items ch))
    else (false, some csl)
