-- ===== src/Parameter/Step/Refused.antt =====
-- A value that is set blocks every other one until its change is committed or cancelled.
use tr069agent.Prelude.{true, ◌≡◌, Bytes}
use tr069agent.Parameter.Struct.{Engine}
use tr069agent.Parameter.Step.{Step, init_step, commit_step, update_step, clear_step, cancel_step}

-- Every call but those that end a request or clear the state: the initial state, a commit, an update by
-- the system, a cancellation, and the release of a temporary value.
abbrev pub Keeps : {s : Bytes} {e e' : Engine} → Step s e e' → Type 0
Keeps (init_step e e' eq) = ⊥
Keeps (commit_step e) = ⊥
Keeps (update_step e v b) = ⊥
Keeps (clear_step e level) = ⊥
Keeps (cancel_step e) = ⊥
Keeps _ = Unit {0}

-- Such calls, one after the other.
pub data Meanwhile (device_status : Bytes) : Engine → Engine → Type 0 where
  nothing : (e : Engine) → Meanwhile device_status e e
  then_call :
      {e e' e'' : Engine} (step : Step device_status e e')
      → Keeps step
      → Meanwhile device_status e' e''
      → Meanwhile device_status e e''

abbrev IsRequested : Engine → Type 0
IsRequested e = e.param.state.change_requested ≡ true
