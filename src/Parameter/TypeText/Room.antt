-- ===== src/Parameter/TypeText/Room.antt =====
-- The text of a type fits the 30 bytes that are allocated for it.
use tr069agent.Prelude.{ℕ, suc, ◌+◌, ◌≤◌, ◌∷◌, length, length-append, arith}
use tr069agent.Prelude.Int.{ℤ, pos, negsuc, ◌≤ℤ◌}
use tr069agent.Common.Number.{int_to_string, uint_to_string, int_min, int_max}
use tr069agent.Common.Number.RoundTrip.{length-uint_to_string}
use tr069agent.Parameter.Struct.{ParameterType}
use tr069agent.Parameter.Check.{to_uint}
use tr069agent.Parameter.TypeText.{
  int_bounds_text, uint_bounds_text, bounds_text, type_to_string, max_str_type_len,
}
use tr069agent.Parameter.TypeText.Fields.{to_uint-le}

length-int_to_string_le : (v : ℤ) → int_min ≤ℤ v → v ≤ℤ int_max → length (int_to_string v) ≤ 11
unfolding int_to_string
length-int_to_string_le (pos n) lo hi = omega (arith, length-uint_to_string n (omega arith))
length-int_to_string_le (negsuc n) lo hi =
    omega (arith, length-uint_to_string (suc n) (omega arith))

length-int_bounds_text :
    (min max : ℤ)
    → length (int_to_string min) ≤ 11
    → length (int_to_string max) ≤ 11
    → length (int_bounds_text min max) ≤ 24
unfolding int_bounds_text
length-int_bounds_text min max h k =
    ground (arith, length-append (int_to_string min) (b':' ∷ int_to_string max))

length-uint_bounds_text :
    (min max : ℕ)
    → length (uint_to_string min) ≤ 10
    → length (uint_to_string max) ≤ 10
    → length (uint_bounds_text min max) ≤ 24
unfolding uint_bounds_text
length-uint_bounds_text min max h k =
    ground (arith, length-append (uint_to_string min) (b':' ∷ uint_to_string max))

length-bounds_text :
    (t : ParameterType) (min max : ℤ)
    → int_min ≤ℤ min
    → min ≤ℤ int_max
    → int_min ≤ℤ max
    → max ≤ℤ int_max
    → length (bounds_text t min max) ≤ 24
unfolding bounds_text
length-bounds_text t min max l1 h1 l2 h2 =
    let lo = length-uint_to_string (to_uint min) (omega (arith, to_uint-le min)) in
    let hi = length-uint_to_string (to_uint max) (omega (arith, to_uint-le max)) in
    let unsigned = length-uint_bounds_text (to_uint min) (to_uint max) lo hi in
    let first = length-int_to_string_le min l1 h1 in
    let signed = length-int_bounds_text min max first (length-int_to_string_le max l2 h2) in
    ground arith

-- With its NUL, the text of a type with bounds of type `int` fits the buffer that is allocated.
pub length-type_to_string :
    (t : ParameterType) (min max : ℤ)
    → int_min ≤ℤ min
    → min ≤ℤ int_max
    → int_min ≤ℤ max
    → max ≤ℤ int_max
    → length (type_to_string t min max) + 1 ≤ max_str_type_len
unfolding type_to_string
length-type_to_string t min max l1 h1 l2 h2 =
    omega (arith, length-bounds_text t min max l1 h1 l2 h2)
