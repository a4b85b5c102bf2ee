-- ===== src/Parameter/Name/Relative.antt =====
-- Relative names: the long name stands as many levels above as the name has dots.
use mathlib.Core.List.{reverse, reverse-append, reverse-cons, reverse-reverse}
use tr069agent.Prelude.{
  ℕ, zero, suc, ◌+◌, ◌-◌, false, some, [], ◌∷◌, ◌++◌, ◌==◌, ◌≡◌, refl, ap, ◌∙◌, if◌then◌else◌,
  Bytes, arith, replicate, Bool-cases, inl, inr, append_assoc,
}
use tr069agent.Parameter.Name.{starts_with, leading_dots, climb, relative_name, get_long_name}

-- The number of dots of a name.
abbrev pub count_dots : Bytes → ℕ
count_dots [] = 0
count_dots (c ∷ cs) = (if c == b'.' then 1 else 0) + count_dots cs

count_dots-append : (s t : Bytes) → count_dots (s ++ t) ≡ count_dots s + count_dots t
count_dots-append [] t = omega arith
count_dots-append (c ∷ s) t = ground (arith, count_dots-append s t)

count_dots-reverse : (s : Bytes) → count_dots (reverse s) ≡ count_dots s
count_dots-reverse [] = refl
count_dots-reverse (c ∷ s) =
    ap count_dots (reverse-cons c s)
    ∙ count_dots-append (reverse s) (c ∷ [])
    ∙ rw (count_dots-reverse s) (omega arith)

climb-up : (m u kept : Bytes) (k : ℕ) → count_dots m ≡ k → climb k (m ++ b'.' ∷ u) kept ≡ b'.' ∷ u
unfolding climb
climb-up [] u kept zero h = refl
climb-up [] u kept (suc k) h = absurd (omega arith)
climb-up (c ∷ m) u kept zero h = ground (arith, climb-up m u kept 0)
climb-up (c ∷ m) u kept (suc k) h = elim (Bool-cases (c == b'.')) [
  | inl dot ↦ rw dot (climb-up m u (c ∷ (m ++ b'.' ∷ u)) k (ground arith))
  | inr other ↦ rw other (climb-up m u kept (suc k) (ground arith))
]

leading_dots-replicate :
    (n : ℕ) (rest : Bytes)
    → leading_dots rest ≡ (0, rest)
    → leading_dots (replicate n b'.' ++ rest) ≡ (n, rest)
unfolding leading_dots
leading_dots-replicate zero rest h = h
leading_dots-replicate (suc n) rest h = rw (leading_dots-replicate n rest h) refl

reverse-around : (up mid : Bytes) → reverse (up ++ b'.' ∷ mid) ≡ reverse mid ++ b'.' ∷ reverse up
reverse-around up mid =
    reverse-append up (b'.' ∷ mid)
    ∙ rw (reverse-cons b'.' mid) (append_assoc (reverse mid) (b'.' ∷ []) (reverse up))

relative_name-up :
    (up mid rest : Bytes) (n : ℕ)
    → count_dots mid ≡ n - 1
    → relative_name (n, rest) (up ++ b'.' ∷ mid) ≡ up ++ b'.' ∷ rest
unfolding relative_name
relative_name-up up mid rest n h =
    rw
      (
        reverse-around up mid,
        climb-up (reverse mid) (reverse up) (reverse mid ++ b'.' ∷ reverse up) (n - 1)
            (count_dots-reverse mid ∙ h),
        reverse-cons b'.' (reverse up),
        reverse-reverse up,
      )
      (append_assoc up (b'.' ∷ []) rest)

-- A name that is not absolute and has `n` dots in front, no more, stands for the name that replaces
-- the part of the other name behind the `n`-th of its dots from the end; with no dot in front, the
-- part behind the last one. The other name has that many dots.
pub get_long_name-dots :
    (prefix up mid rest : Bytes) (n : ℕ)
    → starts_with prefix (replicate n b'.' ++ rest) ≡ false
    → leading_dots rest ≡ (0, rest)
    → count_dots mid ≡ n - 1
    → get_long_name prefix (replicate n b'.' ++ rest) (some (up ++ b'.' ∷ mid)) ≡ up ++ b'.' ∷ rest
unfolding get_long_name
get_long_name-dots prefix [] mid rest n p d h =
    rw (p, leading_dots-replicate n rest d) (relative_name-up [] mid rest n h)
get_long_name-dots prefix (c ∷ up) mid rest n p d h =
    rw (p, leading_dots-replicate n rest d) (relative_name-up (c ∷ up) mid rest n h)
