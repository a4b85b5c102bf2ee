-- ===== src/Parameter/Check/Range.antt =====
-- The numbers that a parameter of a number type accepts.
use tr069agent.Prelude.{
  ℕ, Bool, false, none, some, ◌≡◌, refl, ◌<◌, ◌^◌, Bytes, arith, if◌then◌else◌, ◌&&◌, leb,
}
use tr069agent.Prelude.Int.{ℤ, leb_ℤ, ◌≤ℤ◌}
use tr069agent.Common.Number.{int_to_string, uint_to_string, int_min, int_max, long_min, long_max}
use tr069agent.Common.Number.RoundTrip.{string_to_uint-uint_to_string}
use tr069agent.Common.Number.Signed.{string_to_int-int_to_string}
use tr069agent.Parameter.Struct.{Parameter, int, uint, invalid_parameter_value}
use tr069agent.Parameter.Check.{check_before_set_value, type_ok, int_in, uint_in, to_uint}

int_in-narrow :
    (lo hi v : ℤ)
    → int_min ≤ℤ lo
    → hi ≤ℤ int_max
    → int_in lo hi (if leb_ℤ int_min v && leb_ℤ v int_max then some v else none)
      ≡ (leb_ℤ lo v && leb_ℤ v hi)
unfolding int_in
int_in-narrow lo hi v h k = ground arith

-- A parameter of type INT whose bounds are of type `int`, with no change requested, accepts the
-- decimal text of a `long` exactly if the number lies between the bounds; the fault is 9007 otherwise.
pub check_before_set_value-int_to_string :
    (is_date_string : Bytes → Bool) (p : Parameter) (v : ℤ)
    → p.type ≡ int
    → p.state.change_requested ≡ false
    → int_min ≤ℤ p.min_value
    → p.max_value ≤ℤ int_max
    → long_min ≤ℤ v
    → v ≤ℤ long_max
    → check_before_set_value is_date_string p (some (int_to_string v))
      ≡ (if leb_ℤ p.min_value v && leb_ℤ v p.max_value then 0 else invalid_parameter_value)
unfolding check_before_set_value type_ok
check_before_set_value-int_to_string d p v t c lo hi h k =
    rw (t, c, string_to_int-int_to_string v h k, int_in-narrow p.min_value p.max_value v lo hi) refl

-- A parameter of type UINT, with no change requested, accepts the decimal text of an `unsigned int`
-- exactly if the number lies between its bounds, read as `unsigned int`; the fault is 9007 otherwise.
pub check_before_set_value-uint_to_string :
    (is_date_string : Bytes → Bool) (p : Parameter) (n : ℕ)
    → p.type ≡ uint
    → p.state.change_requested ≡ false
    → n < 2 ^ 32
    → check_before_set_value is_date_string p (some (uint_to_string n)) ≡ (
        if leb (to_uint p.min_value) n && leb n (to_uint p.max_value)
        then 0
        else invalid_parameter_value)
unfolding check_before_set_value type_ok uint_in
check_before_set_value-uint_to_string d p n t c h =
    rw (t, c, string_to_uint-uint_to_string n h) refl
