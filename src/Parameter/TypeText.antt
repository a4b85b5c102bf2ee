-- ===== src/Parameter/TypeText.antt =====
-- dm_engine/src/DM_ENG_ParameterType.c: the texts of parameter types with their bounds.
pub mod Fields
pub mod RoundTrip
pub mod Room
use tr069agent.Prelude.{
  ℕ, ◌+◌, Bool, true, false, ◌&&◌, ◌||◌, not, Option, none, some, List, [], ◌∷◌, ◌++◌, ltb, leb,
  ◌==◌, if◌then◌else◌, Bytes, codes,
}
use tr069agent.Prelude.Int.{ℤ, pos, negsuc, leb_ℤ}
use tr069agent.Common.Number.{
  char_to_int, string_to_int, string_to_uint, int_to_string, uint_to_string, strip_nocase, int_min,
  int_max, uint_max,
}
use tr069agent.Parameter.Struct.{
  ParameterType, int, uint, long, boolean, date, string, any, statistics, undefined,
}
use tr069agent.Parameter.Check.{to_int, to_uint}

abbrev pub max_str_type_len : ℕ
max_str_type_len = 30

-- The texts between the colons, which the code replaces by NUL: the first one, and the others.
unfoldable pub split_colons : Bytes → Bytes × List Bytes
split_colons [] = ([], [])
split_colons (c ∷ cs) =
    let (field, fields) = split_colons cs in
    if c == b':' then ([], field ∷ fields) else (c ∷ field, fields)

unfoldable pub min_field : List Bytes → Option Bytes
min_field [] = none
min_field (m ∷ _) = some m

unfoldable pub max_field : List Bytes → Option Bytes
max_field (m ∷ n ∷ _) = some n
max_field _ = none

-- The enumeration; 9, which the code keeps as a number, is no type.
unfoldable pub type_of_code : ℕ → ParameterType
type_of_code n =
    if n == 0
    then int
    else if n == 1
    then uint
    else if n == 2
    then long
    else if n == 3
    then boolean
    else if n == 4
    then date
    else if n == 5
    then string
    else if n == 6
    then any
    else if n == 7
    then statistics
    else undefined

unfoldable pub code_of_type : ParameterType → ℕ
code_of_type int = 0
code_of_type uint = 1
code_of_type long = 2
code_of_type boolean = 3
code_of_type date = 4
code_of_type string = 5
code_of_type any = 6
code_of_type statistics = 7
code_of_type undefined = 8

unfoldable pub is_word : Bytes → Bytes → Bool
unfolding strip_nocase
is_word word s = elim (strip_nocase word s) [ some [] ↦ true | _ ↦ false ]

unfoldable pub type_of_word : Bytes → ParameterType
unfolding is_word
type_of_word s =
    if is_word (codes "INT") s
    then int
    else if is_word (codes "UINT") s
    then uint
    else if is_word (codes "LONG") s
    then long
    else if is_word (codes "BOOLEAN") s
    then boolean
    else if is_word (codes "DATE") s
    then date
    else if is_word (codes "STRING") s
    then string
    else if is_word (codes "STATISTICS") s
    then statistics
    else if is_word (codes "ANY") s
    then any
    else undefined

unfoldable pub type_of_text : Bytes → ParameterType
unfolding type_of_word type_of_code char_to_int
type_of_text (c ∷ []) = elim (char_to_int c) [ none ↦ undefined | some n ↦ type_of_code n ]
type_of_text s = type_of_word s

unfoldable pub int_or : ℤ → Option Bytes → ℤ
int_or default s = elim (string_to_int s) [ none ↦ default | some v ↦ v ]

-- An `unsigned int` stored in an `int`.
unfoldable pub uint_or : ℕ → Option Bytes → ℤ
unfolding to_int
uint_or default s = elim (string_to_uint s) [ none ↦ to_int default | some v ↦ to_int v ]

-- The bounds that the type sets, from the fields and the values at the pointers.
unfoldable pub bounds_of : ParameterType → Option Bytes → Option Bytes → ℤ → ℤ → ℤ × ℤ
unfolding int_or uint_or
bounds_of int lo hi min max = (int_or int_min lo, int_or int_max hi)
bounds_of uint lo hi min max = (uint_or 0 lo, uint_or uint_max hi)
bounds_of any lo hi min max = (uint_or 0 lo, uint_or uint_max hi)
bounds_of statistics lo hi min max = (uint_or 0 lo, uint_or uint_max hi)
bounds_of string lo hi min max = (int_or (negsuc 0) lo, max)
bounds_of _ lo hi min max = (min, max)

unfoldable pub string_to_type : Bytes → ℤ → ℤ → ParameterType × ℤ × ℤ
unfolding split_colons min_field max_field type_of_text bounds_of
string_to_type s min max =
    let (field, fields) = split_colons s in
    let type : ParameterType = type_of_text field in
    let (lo, hi) = bounds_of type (min_field fields) (max_field fields) min max in (type, lo, hi)

unfoldable pub int_bounds_text : ℤ → ℤ → Bytes
int_bounds_text min max =
    if not (leb_ℤ min int_min) || not (leb_ℤ int_max max)
    then (if leb_ℤ int_max max
        then b':' ∷ int_to_string min
        else if leb_ℤ min int_min
        then b':' ∷ b':' ∷ int_to_string max
        else b':' ∷ (int_to_string min ++ b':' ∷ int_to_string max))
    else []

unfoldable pub uint_bounds_text : ℕ → ℕ → Bytes
uint_bounds_text min max =
    if ltb 0 min || ltb max uint_max
    then (if leb uint_max max
        then b':' ∷ uint_to_string min
        else if min == 0
        then b':' ∷ b':' ∷ uint_to_string max
        else b':' ∷ (uint_to_string min ++ b':' ∷ uint_to_string max))
    else []

unfoldable pub bounds_text : ParameterType → ℤ → ℤ → Bytes
unfolding int_bounds_text uint_bounds_text to_uint
bounds_text int min max = int_bounds_text min max
bounds_text uint min max = uint_bounds_text (to_uint min) (to_uint max)
bounds_text any min max = uint_bounds_text (to_uint min) (to_uint max)
bounds_text statistics min max = uint_bounds_text (to_uint min) (to_uint max)
bounds_text string min max = if leb_ℤ min (negsuc 0) then [] else b':' ∷ int_to_string min
bounds_text _ min max = []

unfoldable pub type_to_string : ParameterType → ℤ → ℤ → Bytes
unfolding code_of_type bounds_text
type_to_string type min max = (b'0' + code_of_type type) ∷ bounds_text type min max
