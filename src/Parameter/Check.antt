-- ===== src/Parameter/Check.antt =====
-- dm_engine/src/DM_ENG_Parameter.c: the test of a value before it is set.
pub mod Range
use tr069agent.Prelude.{
  ℕ, ◌-◌, ◌%◌, Bool, true, false, ◌&&◌, ◌||◌, Option, none, some, ltb, leb, if◌then◌else◌, Bytes,
  length,
}
use tr069agent.Prelude.Int.{ℤ, pos, negsuc, leb_ℤ}
use tr069agent.Common.Number.{string_to_int, string_to_uint, string_to_long, string_to_bool}
use tr069agent.Parameter.Struct.{
  int, uint, long, boolean, date, string, any, statistics, undefined, Parameter, invalid_arguments,
  invalid_parameter_value,
}

-- `(unsigned int) i` and `(int) n`.
unfoldable pub to_uint : ℤ → ℕ
to_uint (pos n) = n % 0x1_0000_0000
to_uint (negsuc n) = 0xffff_ffff - n % 0x1_0000_0000

unfoldable pub to_int : ℕ → ℤ
to_int n =
    let k : ℕ = n % 0x1_0000_0000 in if ltb k 0x8000_0000 then pos k else negsuc (0xffff_ffff - k)

unfoldable pub int_in : ℤ → ℤ → Option ℤ → Bool
int_in lo hi none = false
int_in lo hi (some v) = leb_ℤ lo v && leb_ℤ v hi

unfoldable pub uint_in : ℤ → ℤ → Option ℕ → Bool
unfolding to_uint
uint_in lo hi none = false
uint_in lo hi (some v) = leb (to_uint lo) v && leb v (to_uint hi)

unfoldable pub is_some {ℓ} : {A : Type ℓ} → Option A → Bool
is_some none = false
is_some (some a) = true

-- The minimum of a text type is its greatest length; -1 is none.
unfoldable pub fits : ℤ → Option Bytes → Bool
unfolding to_int
fits size none = false
fits size (some s) =
    (leb_ℤ size (negsuc 0) && leb_ℤ (negsuc 0) size) || leb_ℤ (to_int (length s)) size

-- `is_date_string` tells whether `DM_ENG_dateStringToTime` succeeds.
unfoldable pub type_ok : (Bytes → Bool) → Parameter → Option Bytes → Bool
unfolding int_in uint_in fits is_some
type_ok is_date_string p v = elim p.type [
  | int ↦ int_in p.min_value p.max_value (string_to_int v)
  | uint ↦ uint_in p.min_value p.max_value (string_to_uint v)
  | long ↦ is_some (string_to_long v)
  | boolean ↦ is_some (string_to_bool v)
  | date ↦ elim v [ none ↦ false | some s ↦ is_date_string s ]
  | string ↦ fits p.min_value v
  | any ↦ true
  | statistics ↦ true
  | undefined ↦ true
]

unfoldable pub check_before_set_value : (Bytes → Bool) → Parameter → Option Bytes → ℕ
unfolding type_ok
check_before_set_value is_date_string p v =
    if p.state.change_requested
    then invalid_arguments
    else if type_ok is_date_string p v
    then 0
    else invalid_parameter_value
