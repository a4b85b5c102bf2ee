-- ===== src/Parameter/Step/Pending.antt =====
-- The state of a parameter: a requested change is a change of the value, too.
use tr069agent.Prelude.{ℕ, true, false, Option, List, ◌≡◌, Bytes, arith}
use tr069agent.Parameter.Struct.{NotificationMode, Engine, Parameter, save}
use tr069agent.Parameter.Value.{
  set_attributes, with_notification, with_access_list, get_value, init_state, commit, committed,
  update_value, reset_value, set_value, add_config_key, remove_config_key, cancel_change,
  mark_being_evaluated, unmark_being_evaluated, mark_pushed, unmark_pushed,
}
use tr069agent.Parameter.Load.{
  mark_loaded, load_value, load_computed, clear_temporary_value, clear_value, clear_back_value,
  clear_redirection, clear_loaded, with_default, is_loaded,
}
use tr069agent.Parameter.Step.{
  Step, attributes_step, get_step, init_step, commit_step, update_step, mark_loaded_step,
  clear_step, is_loaded_step, set_step, add_key_step, remove_key_step, cancel_step,
  mark_evaluated_step, unmark_evaluated_step, mark_pushed_step, unmark_pushed_step, Run, end, call,
  reset,
}

abbrev IsMarked : Engine → Type 0
IsMarked e = e.param.state.change_requested ≡ true → e.param.state.value_changed ≡ true

pub with_notification-state :
    (p : Parameter) (n : NotificationMode) → (with_notification p n).state ≡ p.state
unfolding with_notification
with_notification-state p n = ground arith

pub with_access_list-state :
    (p : Parameter) (l : Option (List Bytes)) → (with_access_list p l).state ≡ p.state
unfolding with_access_list
with_access_list-state p l = ground arith

set_attributes-IsMarked :
    (e : Engine) (n : NotificationMode) (l : Option (List Bytes))
    → IsMarked e
    → IsMarked (set_attributes e n l).1
unfolding set_attributes save
set_attributes-IsMarked e n l h k = ground (
  arith,
  with_access_list-state (with_notification e.param n) l,
  with_notification-state e.param n,
)

clear_temporary_value-IsMarked :
    (e : Engine) (level : ℕ) → IsMarked e → IsMarked (clear_temporary_value e level)
unfolding clear_temporary_value clear_value clear_back_value clear_redirection clear_loaded save
clear_temporary_value-IsMarked e level h k = ground arith

Step-IsMarked :
    (device_status : Bytes) (e e' : Engine) → Step device_status e e' → IsMarked e → IsMarked e'
unfolding get_value init_state commit committed update_value mark_loaded load_value load_computed
    with_default is_loaded set_value add_config_key remove_config_key cancel_change
    mark_being_evaluated unmark_being_evaluated mark_pushed unmark_pushed save
Step-IsMarked s _ _ (attributes_step e n l) h k = set_attributes-IsMarked e n l h k
Step-IsMarked s _ _ (get_step e) h k = ground arith
Step-IsMarked s _ _ (init_step e e' eq) h k = ground arith
Step-IsMarked s _ _ (commit_step e) h k = ground arith
Step-IsMarked s _ _ (update_step e v b) h k = ground arith
Step-IsMarked s _ _ (mark_loaded_step e b) h k = ground arith
Step-IsMarked s _ _ (clear_step e level) h k = clear_temporary_value-IsMarked e level h k
Step-IsMarked s _ _ (is_loaded_step e b) h k = ground arith
Step-IsMarked s _ _ (set_step e v) h k = ground arith
Step-IsMarked s _ _ (add_key_step e j) h k = ground arith
Step-IsMarked s _ _ (remove_key_step e j) h k = ground arith
Step-IsMarked s _ _ (cancel_step e) h k = ground arith
Step-IsMarked s _ _ (mark_evaluated_step e) h k = ground arith
Step-IsMarked s _ _ (unmark_evaluated_step e) h k = ground arith
Step-IsMarked s _ _ (mark_pushed_step e) h k = ground arith
Step-IsMarked s _ _ (unmark_pushed_step e) h k = ground arith

Run-kept :
    (device_status : Bytes) (e e' : Engine) → Run device_status e e' → IsMarked e → IsMarked e'
unfolding reset_value
Run-kept s _ _ (end e) m = m
Run-kept s _ _ (call step rest) m = Run-kept s _ _ rest (Step-IsMarked s _ _ step m)
Run-kept s _ _ (reset rest) m = Run-kept s _ _ rest m

-- After any calls from a state where no change is requested, a parameter whose change is requested
-- is also marked as changed: the marks that `DM_ENG_Parameter_setValue` sets stay together.
pub Run-value_changed :
    (device_status : Bytes) (e e' : Engine)
    → Run device_status e e'
    → e.param.state.change_requested ≡ false
    → e'.param.state.change_requested ≡ true
    → e'.param.state.value_changed ≡ true
Run-value_changed s e e' run h = Run-kept s e e' run (λ k. cc)
