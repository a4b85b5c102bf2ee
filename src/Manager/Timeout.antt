-- ===== src/Manager/Timeout.antt =====
-- The next time at which an Inform or a transfer is due.
use tr069agent.Prelude.{true, false, List, [], ◌∷◌, ◌≡◌, ◌⊎◌}
use tr069agent.Prelude.Int.{ℤ, ◌≤ℤ◌, is_zero}
use tr069agent.Transfer.{TransferRequest}
use tr069agent.Store.Struct.{Control}
use tr069agent.Store.Schedule.{get_scheduled_inform_time}
use tr069agent.Manager.{has_state, not_yet_started}

-- A time that is set, and not later than another.
abbrev pub IsSetBy : ℤ → ℤ → Type 0
IsSetBy timeout time = (is_zero timeout ≡ false) × (timeout ≤ℤ time)

abbrev pub Holds : TransferRequest → List TransferRequest → Type 0
Holds tr [] = ⊥
Holds tr (x ∷ xs) = (x ≡ tr) ⊎ Holds tr xs

-- A time at which something is due: the periodic Inform, a scheduled one, or a transfer that waits.
pub data Deadline (c : Control) : ℤ → Type 0 where
  periodic : is_zero c.periodic_inform_time ≡ false → Deadline c c.periodic_inform_time
  scheduled :
      is_zero (get_scheduled_inform_time c) ≡ false → Deadline c (get_scheduled_inform_time c)
  transfer :
      (tr : TransferRequest)
      → Holds tr c.transfer_requests
      → has_state not_yet_started tr ≡ true
      → Deadline c tr.transfer_time
