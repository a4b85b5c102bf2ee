-- ===== src/Parameter/TypeText/Fields.antt =====
-- What the fields of the text of a type read as.
use tr069agent.Prelude.{
  ℕ, zero, suc, ◌+◌, ◌/◌, ◌%◌, ◌≤◌, true, false, none, some, [], ◌∷◌, ◌++◌, ◌≡◌, refl, ◌==◌, Bytes,
  All, arith,
}
use tr069agent.Prelude.Int.{ℤ, pos, negsuc, leb_ℤ, ◌≤ℤ◌}
use tr069agent.Common.Number.{
  int_to_string, uint_to_string, uint_loop, char_to_int, string_to_int, string_to_uint, int_min,
  int_max, uint_max,
}
use tr069agent.Common.Number.RoundTrip.{string_to_uint-uint_to_string}
use tr069agent.Common.Number.Signed.{string_to_int-int_to_string}
use tr069agent.Parameter.Struct.{
  ParameterType, int, uint, long, boolean, date, string, any, statistics, undefined,
}
use tr069agent.Parameter.Check.{to_int, to_uint}
use tr069agent.Parameter.TypeText.{
  split_colons, min_field, max_field, type_of_text, type_of_code, bounds_of, int_or, uint_or,
  string_to_type, code_of_type,
}

abbrev pub NoColon : Bytes → Type 0
NoColon = All (λ c. (c == b':') ≡ false)

pub uint_loop-NoColon : (room i : ℕ) (p : Bytes) → NoColon p → NoColon (uint_loop room i p)
unfolding uint_loop
uint_loop-NoColon zero i p h = h
uint_loop-NoColon (suc room) i p h =
    let digit : (b'0' + i % 10 == b':') ≡ false = ground arith in
    ground (arith, uint_loop-NoColon room (i / 10) ((b'0' + i % 10) ∷ p) (digit, h))

pub uint_to_string-NoColon : (n : ℕ) → NoColon (uint_to_string n)
unfolding uint_to_string
uint_to_string-NoColon n = uint_loop-NoColon 20 n [] tt

pub int_to_string-NoColon : (v : ℤ) → NoColon (int_to_string v)
unfolding int_to_string
int_to_string-NoColon (pos n) = uint_to_string-NoColon n
int_to_string-NoColon (negsuc n) = (refl, uint_to_string-NoColon (suc n))

pub split_colons-NoColon : (s : Bytes) → NoColon s → split_colons s ≡ (s, [])
unfolding split_colons
split_colons-NoColon [] h = refl
split_colons-NoColon (c ∷ s) h = rw (split_colons-NoColon s h.1, h.0) refl

pub split_colons-first :
    (s t : Bytes)
    → NoColon s
    → split_colons (s ++ b':' ∷ t) ≡ (s, (split_colons t).0 ∷ (split_colons t).1)
unfolding split_colons
split_colons-first [] t h = refl
split_colons-first (c ∷ s) t h = rw (split_colons-first s t h.1, h.0) refl

pub int_or-int_to_string :
    (default v : ℤ) → int_min ≤ℤ v → v ≤ℤ int_max → int_or default (some (int_to_string v)) ≡ v
unfolding int_or
int_or-int_to_string default v lo hi =
    rw (int_or, string_to_int-int_to_string v (omega arith) (omega arith)) (ground arith)

pub uint_or-uint_to_string :
    (default n : ℕ) → n ≤ uint_max → uint_or default (some (uint_to_string n)) ≡ to_int n
unfolding uint_or
uint_or-uint_to_string default n h =
    rw (uint_or, string_to_uint-uint_to_string n (omega arith)) refl

pub to_int-to_uint : (v : ℤ) → int_min ≤ℤ v → v ≤ℤ int_max → to_int (to_uint v) ≡ v
unfolding to_int to_uint
to_int-to_uint (pos n) lo hi = ground arith
to_int-to_uint (negsuc n) lo hi = ground arith

pub to_uint-le : (v : ℤ) → to_uint v ≤ uint_max
unfolding to_uint
to_uint-le (pos n) = omega arith
to_uint-le (negsuc n) = omega arith

-- A type with the bounds that its fields give.
abbrev pub typed : ParameterType → ℤ × ℤ → ParameterType × ℤ × ℤ
typed t bounds = (t, bounds.0, bounds.1)

pub type_of_text-digit : (t : ParameterType) → type_of_text ((b'0' + code_of_type t) ∷ []) ≡ t
unfolding type_of_text type_of_code code_of_type char_to_int
type_of_text-digit int = refl
type_of_text-digit uint = refl
type_of_text-digit long = refl
type_of_text-digit boolean = refl
type_of_text-digit date = refl
type_of_text-digit string = refl
type_of_text-digit any = refl
type_of_text-digit statistics = refl
type_of_text-digit undefined = refl

pub digit-NoColon : (t : ParameterType) → NoColon ((b'0' + code_of_type t) ∷ [])
unfolding code_of_type
digit-NoColon t = ground arith

pub no_fields :
    (t : ParameterType) (a b : ℤ)
    → string_to_type ((b'0' + code_of_type t) ∷ []) a b ≡ typed t (bounds_of t none none a b)
unfolding string_to_type min_field max_field
no_fields t a b =
    rw (split_colons-NoColon ((b'0' + code_of_type t) ∷ []) (digit-NoColon t), type_of_text-digit t)
      refl

pub one_field :
    (t : ParameterType) (x : Bytes) (a b : ℤ)
    → NoColon x
    → string_to_type ((b'0' + code_of_type t) ∷ b':' ∷ x) a b
      ≡ typed t (bounds_of t (some x) none a b)
unfolding string_to_type min_field max_field
one_field t x a b h =
    rw
      (
        split_colons-first ((b'0' + code_of_type t) ∷ []) x (digit-NoColon t),
        split_colons-NoColon x h,
        type_of_text-digit t,
      )
      refl

pub two_fields :
    (t : ParameterType) (x y : Bytes) (a b : ℤ)
    → NoColon x
    → NoColon y
    → string_to_type ((b'0' + code_of_type t) ∷ b':' ∷ (x ++ b':' ∷ y)) a b
      ≡ typed t (bounds_of t (some x) (some y) a b)
unfolding string_to_type min_field max_field
two_fields t x y a b h k =
    rw
      (
        split_colons-first ((b'0' + code_of_type t) ∷ []) (x ++ b':' ∷ y) (digit-NoColon t),
        split_colons-first x y h,
        split_colons-NoColon y k,
        type_of_text-digit t,
      )
      refl

pub int_or-empty : (default : ℤ) → int_or default (some []) ≡ default
unfolding int_or string_to_int
int_or-empty default = refl

pub uint_or-empty : (default : ℕ) → uint_or default (some []) ≡ to_int default
unfolding uint_or string_to_uint
uint_or-empty default = refl

pub int_or-none : (default : ℤ) → int_or default none ≡ default
unfolding int_or string_to_int
int_or-none default = refl

pub uint_or-none : (default : ℕ) → uint_or default none ≡ to_int default
unfolding uint_or string_to_uint
uint_or-none default = refl

pub antisym : (v w : ℤ) → v ≤ℤ w → leb_ℤ w v ≡ true → v ≡ w
antisym (pos m) (pos n) h k = ground arith
antisym (pos m) (negsuc n) h k = absurd (ground arith)
antisym (negsuc m) (pos n) h k = absurd (ground arith)
antisym (negsuc m) (negsuc n) h k = ground arith
