-- ===== src/Parameter/Step.antt =====
-- dm_engine/src/DM_ENG_Parameter.c: the changes of a parameter as a step relation.
pub mod Unchanged
pub mod Pending
pub mod Refused
use tr069agent.Prelude.{ℕ, Bool, Option, none, some, List, ◌≡◌, Bytes}
use tr069agent.Parameter.Struct.{CharPtr, NotificationMode, Engine}
use tr069agent.Parameter.Value.{
  set_attributes, get_value, init_state, commit, update_value, reset_value, set_value,
  add_config_key, remove_config_key, cancel_change, mark_being_evaluated, unmark_being_evaluated,
  mark_pushed, unmark_pushed,
}
use tr069agent.Parameter.Load.{mark_loaded, clear_temporary_value, is_loaded}

-- One call of a function that changes a parameter and has its change saved.
pub data Step (device_status : Bytes) : Engine → Engine → Type 0 where
  attributes_step :
      (e : Engine) (n : NotificationMode) (l : Option (List Bytes))
      → Step device_status e (set_attributes e n l).1
  get_step : (e : Engine) → Step device_status e (get_value e).1
  init_step : (e e' : Engine) → init_state e ≡ some e' → Step device_status e e'
  commit_step : (e : Engine) → Step device_status e (commit device_status e)
  update_step :
      (e : Engine) (v : CharPtr) (new_value : Bool)
      → Step device_status e (update_value device_status e v new_value)
  mark_loaded_step :
      (e : Engine) (with_values : Bool) → Step device_status e (mark_loaded e with_values)
  clear_step : (e : Engine) (level : ℕ) → Step device_status e (clear_temporary_value e level)
  is_loaded_step :
      (e : Engine) (with_values : Bool) → Step device_status e (is_loaded e with_values).1
  set_step : (e : Engine) (v : Option Bytes) → Step device_status e (set_value e v).1
  add_key_step : (e : Engine) (k : Option Bytes) → Step device_status e (add_config_key e k)
  remove_key_step : (e : Engine) (k : Option Bytes) → Step device_status e (remove_config_key e k).1
  cancel_step : (e : Engine) → Step device_status e (cancel_change e).1
  mark_evaluated_step : (e : Engine) → Step device_status e (mark_being_evaluated e)
  unmark_evaluated_step : (e : Engine) → Step device_status e (unmark_being_evaluated e)
  mark_pushed_step : (e : Engine) → Step device_status e (mark_pushed e)
  unmark_pushed_step : (e : Engine) → Step device_status e (unmark_pushed e)

-- Calls one after the other.
pub data Steps (device_status : Bytes) : Engine → Engine → Type 0 where
  done : (e : Engine) → Steps device_status e e
  next :
      {e e' e'' : Engine}
      → Step device_status e e'
      → Steps device_status e' e''
      → Steps device_status e e''

-- The same, with resets among them.
pub data Run (device_status : Bytes) : Engine → Engine → Type 0 where
  end : (e : Engine) → Run device_status e e
  call :
      {e e' e'' : Engine}
      → Step device_status e e'
      → Run device_status e' e''
      → Run device_status e e''
  reset : {e e' : Engine} → Run device_status (reset_value e) e' → Run device_status e e'
