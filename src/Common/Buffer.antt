-- ===== src/Common/Buffer.antt =====
-- Allocated buffers of C: a write outside of one is `none`.
use mathlib.Core.Option
use mathlib.Core.Bool.{Bool}
use tr069agent.Prelude.{
  ℕ, zero, suc, ◌+◌, ◌≤◌, ◌<◌, ◌≡◌, refl, Option, none, some, [], ◌∷◌, ◌++◌, arith, ◌==◌,
  if◌then◌else◌, Bytes, length, drop, All, Option-cases, inl, inr,
}

-- Consecutive bytes are written from the start of the buffer.
unfoldable pub write_front : Bytes → Bytes → Option Bytes
write_front [] b = some b
write_front (t ∷ ts) [] = none
write_front (t ∷ ts) (x ∷ b) = Option.map (λ r. t ∷ r) (write_front ts b)

unfoldable pub write_at : ℕ → Bytes → Bytes → Option Bytes
write_at zero ts b = write_front ts b
write_at (suc j) ts [] = none
write_at (suc j) ts (x ∷ b) = Option.map (λ r. x ∷ r) (write_at j ts b)

-- The C string at the start of the buffer; `none` if no NUL ends it.
unfoldable pub read_string : Bytes → Option Bytes
read_string [] = none
read_string (c ∷ b) =
    let rest = Option.map (λ s. c ∷ s) (read_string b) in if c == 0 then some [] else rest

pub write_front-append :
    (ts b : Bytes) → length ts ≤ length b → write_front ts b ≡ some (ts ++ drop (length ts) b)
unfolding write_front
write_front-append [] b h = refl
write_front-append (t ∷ ts) [] h = absurd (omega arith)
write_front-append (t ∷ ts) (x ∷ b) h = rw (write_front-append ts b (omega arith))

-- A write behind what is already written.
pub write_at-append :
    (pre ts b : Bytes)
    → length ts ≤ length b
    → write_at (length pre) ts (pre ++ b) ≡ some (pre ++ (ts ++ drop (length ts) b))
unfolding write_at
write_at-append [] ts b h = write_front-append ts b h
write_at-append (x ∷ pre) ts b h = rw (write_at-append pre ts b h)

pub write_front_overflow : (ts b : Bytes) → length b < length ts → write_front ts b ≡ none
unfolding write_front
write_front_overflow [] b h = absurd (omega arith)
write_front_overflow (t ∷ ts) [] h = refl
write_front_overflow (t ∷ ts) (x ∷ b) h = rw (write_front_overflow ts b (omega arith))

-- A write past the end fails.
pub write_at_overflow :
    (j : ℕ) (t : ℕ) (ts b : Bytes) → length b < j + length (t ∷ ts) → write_at j (t ∷ ts) b ≡ none
unfolding write_at
write_at_overflow zero t ts b h = write_front_overflow (t ∷ ts) b (omega arith)
write_at_overflow (suc j) t ts [] h = refl
write_at_overflow (suc j) t ts (x ∷ b) h = rw (write_at_overflow j t ts b (omega arith))

length-write_front : (ts b : Bytes) {r : Bytes} → write_front ts b ≡ some r → length r ≡ length b
unfolding write_front
length-write_front [] b h = ground arith
length-write_front (t ∷ ts) [] h = cc
length-write_front (t ∷ ts) (x ∷ b) h = elim (Option-cases (write_front ts b)) [
  | inl e ↦ ground arith
  | inr (r, e) ↦ ground (arith, length-write_front ts b e)
]

-- A write changes no size.
pub length-write_at :
    (j : ℕ) (ts b : Bytes) {r : Bytes} → write_at j ts b ≡ some r → length r ≡ length b
unfolding write_at
length-write_at zero ts b h = length-write_front ts b h
length-write_at (suc j) ts [] h = cc
length-write_at (suc j) ts (x ∷ b) h = elim (Option-cases (write_at j ts b)) [
  | inl e ↦ ground arith
  | inr (r, e) ↦ ground (arith, length-write_at j ts b e)
]

pub read_string-append :
    (s b : Bytes) → All (λ c. (c == 0) ≡ Bool.false) s → read_string (s ++ 0 ∷ b) ≡ some s
unfolding read_string
read_string-append [] b h = refl
read_string-append (c ∷ s) b h = rw (h.0) (rw (read_string-append s b h.1))
