-- ===== src/Parameter/TypeText/RoundTrip.antt =====
-- The text of a type is read back.
use tr069agent.Prelude.{
  ℕ, ◌+◌, ◌≤◌, ◌||◌, not, Option, none, some, [], ◌∷◌, ◌≡◌, refl, sym, ap, ◌∙◌, ltb, leb, ◌==◌,
  if◌then◌else◌, Bytes, arith, Bool-cases, inl, inr,
}
use tr069agent.Prelude.Int.{ℤ, negsuc, leb_ℤ, ◌≤ℤ◌}
use tr069agent.Common.Number.{int_to_string, uint_to_string, int_min, int_max, uint_max}
use tr069agent.Parameter.Struct.{
  ParameterType, int, uint, long, boolean, date, string, any, statistics, undefined,
}
use tr069agent.Parameter.Check.{to_int, to_uint}
use tr069agent.Parameter.TypeText.{
  bounds_of, int_or, uint_or, string_to_type, int_bounds_text, uint_bounds_text, bounds_text,
  type_to_string, code_of_type,
}
use tr069agent.Parameter.TypeText.Fields.{
  uint_to_string-NoColon, int_to_string-NoColon, int_or-int_to_string, uint_or-uint_to_string,
  to_int-to_uint, to_uint-le, no_fields, one_field, two_fields, int_or-empty, uint_or-empty,
  int_or-none, uint_or-none, antisym,
}

int_bounds-read :
    (min max a b : ℤ)
    → int_min ≤ℤ min
    → min ≤ℤ int_max
    → int_min ≤ℤ max
    → max ≤ℤ int_max
    → string_to_type (b'0' ∷ int_bounds_text min max) a b ≡ (int, min, max)
unfolding int_bounds_text bounds_of code_of_type
int_bounds-read min max a b l1 h1 l2 h2 =
    let reads_min : (d : ℤ) → int_or d (some (int_to_string min)) ≡ min =
      λ d. int_or-int_to_string d min l1 h1 in
    let reads_max : (d : ℤ) → int_or d (some (int_to_string max)) ≡ max =
      λ d. int_or-int_to_string d max l2 h2 in
    elim (Bool-cases (not (leb_ℤ min int_min) || not (leb_ℤ int_max max))) [
      | inl narrow ↦ rw narrow (elim (Bool-cases (leb_ℤ int_max max)) [
        | inl top ↦ rw top (
            one_field int (int_to_string min) a b (int_to_string-NoColon min)
            ∙ rw (reads_min int_min, int_or-none int_max, antisym max int_max h2 top) refl)
        | inr below ↦ rw below (elim (Bool-cases (leb_ℤ min int_min)) [
          | inl bottom ↦ rw bottom (
              two_fields int [] (int_to_string max) a b tt (int_to_string-NoColon max)
              ∙ rw (reads_max int_max, int_or-empty int_min)
                  (ap (λ m. (int, m, max)) (antisym int_min min l1 bottom)))
          | inr above ↦ rw above (
              two_fields int (int_to_string min) (int_to_string max) a b (int_to_string-NoColon min)
                (int_to_string-NoColon max)
              ∙ rw (reads_min int_min, reads_max int_max) refl)
        ])
      ])
      | inr full ↦ rw full (
          no_fields int a b
          ∙ rw (int_or-none int_min, int_or-none int_max)
              (ap (λ m. (int, m, int_max)) (antisym int_min min l1 (ground arith))
                ∙ ap (λ m. (int, min, m)) (sym (antisym max int_max h2 (ground arith)))))
    ]

-- The types whose bounds are of type `unsigned int`.
abbrev HasUintBounds : ParameterType → Type 0
HasUintBounds t =
    (lo hi : Option Bytes) (a b : ℤ) → bounds_of t lo hi a b ≡ (uint_or 0 lo, uint_or uint_max hi)

uint_bounds-read :
    (t : ParameterType) (lo hi : ℕ) (a b : ℤ)
    → HasUintBounds t
    → lo ≤ uint_max
    → hi ≤ uint_max
    → string_to_type ((b'0' + code_of_type t) ∷ uint_bounds_text lo hi) a b
      ≡ (t, to_int lo, to_int hi)
unfolding uint_bounds_text
uint_bounds-read t lo hi a b u l h =
    let reads_lo : (d : ℕ) → uint_or d (some (uint_to_string lo)) ≡ to_int lo =
      λ d. uint_or-uint_to_string d lo l in
    let reads_hi : (d : ℕ) → uint_or d (some (uint_to_string hi)) ≡ to_int hi =
      λ d. uint_or-uint_to_string d hi h in
    elim (Bool-cases (ltb 0 lo || ltb hi uint_max)) [
      | inl narrow ↦ rw narrow (elim (Bool-cases (leb uint_max hi)) [
        | inl top ↦ rw top (
            one_field t (uint_to_string lo) a b (uint_to_string-NoColon lo)
            ∙ rw (u (some (uint_to_string lo)) none a b, reads_lo 0, uint_or-none uint_max)
                (ap (λ m. (t, to_int lo, to_int m)) (ground arith)))
        | inr below ↦ rw below (elim (Bool-cases (lo == 0)) [
          | inl bottom ↦ rw bottom (
              two_fields t [] (uint_to_string hi) a b tt (uint_to_string-NoColon hi)
              ∙ rw (u (some []) (some (uint_to_string hi)) a b, reads_hi uint_max, uint_or-empty 0)
                  (ap (λ m. (t, to_int m, to_int hi)) (ground arith)))
          | inr above ↦ rw above (
              two_fields t (uint_to_string lo) (uint_to_string hi) a b (uint_to_string-NoColon lo)
                (uint_to_string-NoColon hi)
              ∙ rw
                  (
                    u (some (uint_to_string lo)) (some (uint_to_string hi)) a b,
                    reads_lo 0,
                    reads_hi uint_max,
                  )
                  refl)
        ])
      ])
      | inr full ↦ rw full (
          no_fields t a b
          ∙ rw (u none none a b, uint_or-none 0, uint_or-none uint_max)
              (ap (λ m. (t, to_int m, to_int uint_max)) (ground arith)
                ∙ ap (λ m. (t, to_int lo, to_int m)) (ground arith)))
    ]

unsigned_bounds-read :
    (t : ParameterType) (min max a b : ℤ)
    → HasUintBounds t
    → int_min ≤ℤ min
    → min ≤ℤ int_max
    → int_min ≤ℤ max
    → max ≤ℤ int_max
    → string_to_type ((b'0' + code_of_type t) ∷ uint_bounds_text (to_uint min) (to_uint max)) a b
      ≡ (t, min, max)
unsigned_bounds-read t min max a b u l1 h1 l2 h2 =
    uint_bounds-read t (to_uint min) (to_uint max) a b u (to_uint-le min) (to_uint-le max)
    ∙ rw (to_int-to_uint min l1 h1, to_int-to_uint max l2 h2) refl

string_bounds-read :
    (min max a b : ℤ)
    → int_min ≤ℤ min
    → min ≤ℤ int_max
    → string_to_type (b'5' ∷ bounds_text string min max) a b
      ≡ (string, (if leb_ℤ min (negsuc 0) then negsuc 0 else min), b)
unfolding bounds_text bounds_of code_of_type
string_bounds-read min max a b l h = elim (Bool-cases (leb_ℤ min (negsuc 0))) [
  | inl none_set ↦ rw none_set (no_fields string a b ∙ rw (int_or-none (negsuc 0)) refl)
  | inr set ↦ rw set (
      one_field string (int_to_string min) a b (int_to_string-NoColon min)
      ∙ rw (int_or-int_to_string (negsuc 0) min l h) refl)
]

-- The bounds that a type has. Those of a text type are its greatest length, -1 for none, and nothing,
-- which leaves the value `b` at the pointer; types without bounds leave `a`, too.
abbrev pub kept_bounds : ParameterType → ℤ → ℤ → ℤ → ℤ → ℤ × ℤ
kept_bounds int min max a b = (min, max)
kept_bounds uint min max a b = (min, max)
kept_bounds any min max a b = (min, max)
kept_bounds statistics min max a b = (min, max)
kept_bounds string min max a b = (if leb_ℤ min (negsuc 0) then negsuc 0 else min, b)
kept_bounds _ min max a b = (a, b)

-- A type with bounds of type `int` is read back from its text, with the bounds that the type has,
-- whether they are written out or left out as the widest ones.
pub string_to_type-type_to_string :
    (t : ParameterType) (min max a b : ℤ)
    → int_min ≤ℤ min
    → min ≤ℤ int_max
    → int_min ≤ℤ max
    → max ≤ℤ int_max
    → string_to_type (type_to_string t min max) a b
      ≡ (t, (kept_bounds t min max a b).0, (kept_bounds t min max a b).1)
unfolding type_to_string bounds_text bounds_of
string_to_type-type_to_string int min max a b l1 h1 l2 h2 = int_bounds-read min max a b l1 h1 l2 h2
string_to_type-type_to_string uint min max a b l1 h1 l2 h2 =
    unsigned_bounds-read uint min max a b (λ lo hi a b. refl) l1 h1 l2 h2
string_to_type-type_to_string long min max a b l1 h1 l2 h2 = no_fields long a b
string_to_type-type_to_string boolean min max a b l1 h1 l2 h2 = no_fields boolean a b
string_to_type-type_to_string date min max a b l1 h1 l2 h2 = no_fields date a b
string_to_type-type_to_string string min max a b l1 h1 l2 h2 = string_bounds-read min max a b l1 h1
string_to_type-type_to_string any min max a b l1 h1 l2 h2 =
    unsigned_bounds-read any min max a b (λ lo hi a b. refl) l1 h1 l2 h2
string_to_type-type_to_string statistics min max a b l1 h1 l2 h2 =
    unsigned_bounds-read statistics min max a b (λ lo hi a b. refl) l1 h1 l2 h2
string_to_type-type_to_string undefined min max a b l1 h1 l2 h2 = no_fields undefined a b
