-- ===== src/Parameter/Value/Change.antt =====
-- A change of a value: set, then cancelled or committed.
use tr069agent.Prelude.{
  true, false, Option, none, some, List, ◌∷◌, ◌≡◌, refl, Bytes, arith, if◌then◌else◌, ◌&&◌,
}
use tr069agent.Parameter.Struct.{
  null, Engine, initial, save, is_set, strdup, parameter_value_changed, Call, diagnostics_complete,
  text_at,
}
use tr069agent.Parameter.Name.{is_diagnostics_state}
use tr069agent.Parameter.Value.{
  set_value, cancel_change, commit, committed, commit_calls, notifies, init_state, is_result,
}

-- Cancelling a change that was just set gives back the value and changes nothing else, except that
-- the previous value and the marks of the state are gone and the data are to be saved.
pub cancel_change-set_value :
    (e : Engine) (v : Option Bytes)
    → cancel_change (set_value e v).1 ≡ (
      true,
      record e {
        param = record e.param { back_value = null; state = initial };
        data_changed = true;
      },
    )
unfolding cancel_change set_value save
cancel_change-set_value e v = refl

text_at-strdup : (v : Option Bytes) → text_at (strdup v) ≡ v
unfolding text_at strdup
text_at-strdup none = refl
text_at-strdup (some s) = refl

-- A value that is set and committed is the value of the parameter, marked as changed with no request
-- pending; the previous value is dropped if the parameter is writable, and kept otherwise; and the
-- scheduler is told of the result of a diagnostic first, and then of the new value where `notifies`
-- holds.
pub commit-set_value :
    (device_status : Bytes) (e : Engine) (v : Option Bytes)
    → let after = commit device_status (set_value e v).1 in
      let results : List Call =
        if is_diagnostics_state e.param.name && is_result v
        then diagnostics_complete ∷ e.calls
        else e.calls in
      (text_at after.param.value ≡ v)
      × (after.param.back_value ≡ (if e.param.writable then null else e.param.value))
      × (after.param.state
          ≡ record e.param.state { change_requested = false; value_changed = true })
      × (after.calls ≡ (
          if notifies device_status e.param
          then parameter_value_changed e.param.name ∷ results
          else results))
unfolding commit set_value committed commit_calls is_set notifies save
commit-set_value s e v = rw (text_at-strdup v) (refl, refl, refl, refl)

-- Where clearing the state does not crash, a second time changes nothing.
pub init_state-init_state : (e e' : Engine) → init_state e ≡ some e' → init_state e' ≡ some e'
unfolding init_state is_set save
init_state-init_state e e' h = ground arith
