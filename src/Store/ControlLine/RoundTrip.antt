-- ===== src/Store/ControlLine/RoundTrip.antt =====
-- The first two lines of the file of the control data are read back as they were written.
use tr069agent.Prelude.{ℕ, ◌≤◌, ◌<◌, false, List, [], ◌∷◌, ◌≡◌}
use tr069agent.Prelude.Int.{◌≤ℤ◌}
use tr069agent.Common.Number.{long_min, long_max, int_min, int_max}
use tr069agent.Event.{Event, code_text}
use tr069agent.Parameter.Name.{starts_with}
use tr069agent.Store.EventLine.RoundTrip.{IsKey}
use tr069agent.Store.ControlLine.{OtherData}

abbrev IsShown : ℕ → Type 0
IsShown c = (32 ≤ c) × (c < 128)

-- The first code does not start with a star.
abbrev pub HasNoStar : List Event → Type 0
HasNoStar [] = Unit {0}
HasNoStar (e ∷ es) = starts_with (b'*' ∷ []) (code_text e.event_code) ≡ false

-- What the second line can hold.
pub record IsStoredData (o : OtherData) : Type 0 where
  pub time_min : long_min ≤ℤ o.periodic_inform_time
  pub time_max : o.periodic_inform_time ≤ℤ long_max
  pub scheduled : IsKey o.scheduled_inform_time
  pub scheduled_key : IsKey o.scheduled_inform_command_key
  pub reboot_key : IsKey o.reboot_command_key
  pub count_min : int_min ≤ℤ o.retry_count
  pub count_max : o.retry_count ≤ℤ int_max
