-- ===== src/Manager/Periodic.antt =====
-- The next time of the periodic Inform.
use native.Mathlib.Nat.{mod-add-div', mod-lt, suc-mul}
use tr069agent.Prelude.{
  ℕ, suc, ◌+◌, ◌-◌, ◌*◌, ◌/◌, ◌≤◌, ◌<◌, false, ◌⊎◌, inl, inr, ◌≡◌, ltb, ltb→lt, ◌==◌, arith,
  Bool-cases,
}
use tr069agent.Prelude.Int.{pos}
use tr069agent.Manager.{from_reference, next_periodic}

-- Two times that are a number of periods apart.
abbrev pub InPhase : ℕ → ℕ → ℕ → Type 0
InPhase period a b = (k : ℕ) × ((a ≡ b + k * period) ⊎ (b ≡ a + k * period))

not_ltb : (a b : ℕ) → ltb a b ≡ false → b ≤ a
not_ltb a b h = ground arith

from_reference-InPhase :
    (now period ref : ℕ) → 0 < period → InPhase period (from_reference now period ref) ref
unfolding from_reference
from_reference-InPhase now period ref h = elim (Bool-cases (ltb ref now)) [
  | inl past ↦
      let d = now - ref in
      (
        suc (d / period),
        inl (
            rw past (
              omega (
                arith,
                mod-add-div' d period,
                mod-lt d h,
                suc-mul (d / period) period,
                ltb→lt ref now past,
              ))),
      )
  | inr future ↦
      let d = ref - now in
      (d / period, inr (rw future (omega (arith, mod-add-div' d period, not_ltb ref now future))))
]

from_reference-between :
    (now period ref : ℕ)
    → 0 < period
    → (now ≤ from_reference now period ref) × (from_reference now period ref ≤ now + period)
unfolding from_reference
from_reference-between now period ref h = elim (Bool-cases (ltb ref now)) [
  | inl past ↦ rw past (omega (arith, mod-lt (now - ref) h), omega arith)
  | inr future ↦ rw future (omega arith, omega (arith, mod-lt (ref - now) h))
]

-- The next periodic Inform is at a whole number of periods from the reference time, not before the present
-- time, and at most one period after it, where the period and the reference are positive.
pub next_periodic-InPhase :
    (now period ref : ℕ)
    → 0 < period
    → let next = next_periodic now period (pos (suc ref)) in
      InPhase period next (suc ref) × (now ≤ next) × (next ≤ now + period)
unfolding next_periodic
next_periodic-InPhase now period ref h = elim (Bool-cases (suc ref == now)) [
  | inl same ↦ rw same ((1, inl (ground (arith, same))), omega arith, omega arith)
  | inr other ↦
      let (low, high) = from_reference-between now period (suc ref) h in
      rw other (from_reference-InPhase now period (suc ref) h, low, high)
]
