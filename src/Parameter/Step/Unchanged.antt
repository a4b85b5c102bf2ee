-- ===== src/Parameter/Step/Unchanged.antt =====
-- The flag of changed data: what leaves it unset has changed nothing.
use tr069agent.Prelude.{
  ℕ, Bool, true, false, if◌then◌else◌, Option, none, some, List, ◌≡◌, refl, sym, ◌∙◌, Bytes, arith,
}
use tr069agent.Common.CommaList.{delete_from_comma_separated_list}
use tr069agent.Parameter.Struct.{CharPtr, NotificationMode, Engine, Parameter, save}
use tr069agent.Parameter.Value.{
  set_attributes, get_value, init_state, commit, update_value, set_value, add_config_key,
  remove_config_key, cancel_change, mark_being_evaluated, unmark_being_evaluated, mark_pushed,
  unmark_pushed,
}
use tr069agent.Parameter.Load.{
  mark_loaded, load_value, load_computed, clear_temporary_value, clear_value, clear_back_value,
  clear_redirection, clear_loaded, with_default, is_loaded,
}
use tr069agent.Parameter.Step.{
  Step, attributes_step, get_step, init_step, commit_step, update_step, mark_loaded_step,
  clear_step, is_loaded_step, set_step, add_key_step, remove_key_step, cancel_step,
  mark_evaluated_step, unmark_evaluated_step, mark_pushed_step, unmark_pushed_step, Steps, done,
  next,
}

-- Either the engine is the same, or the flag is set.
abbrev pub Saved : Engine → Engine → Type 0
Saved e e' = e'.data_changed ≡ false → e' ≡ e

If-Saved : (b : Bool) (e x y : Engine) → Saved e x → Saved e y → Saved e (if b then x else y)
If-Saved true e x y h k = h
If-Saved false e x y h k = k

save-Saved : (e : Engine) (p : Parameter) → Saved e (save e p)
unfolding save
save-Saved e p h = cc

Same-Saved : (e : Engine) → Saved e e
Same-Saved e h = refl

Saved-trans : (e e' e'' : Engine) → Saved e e' → Saved e' e'' → Saved e e''
Saved-trans e e' e'' h k d = let same : e'' ≡ e' = k d in same ∙ h (rw (sym same) d)

set_attributes-Saved :
    (e : Engine) (n : NotificationMode) (l : Option (List Bytes)) → Saved e (set_attributes e n l).1
unfolding set_attributes save
set_attributes-Saved e n l d = ground arith

get_value-Saved : (e : Engine) → Saved e (get_value e).1
unfolding get_value save
get_value-Saved e d = ground arith

init_state-Saved : (e e' : Engine) → init_state e ≡ some e' → Saved e e'
unfolding init_state save
init_state-Saved e e' h d = ground arith

update_value-Saved :
    (device_status : Bytes) (e : Engine) (v : CharPtr) (b : Bool)
    → Saved e (update_value device_status e v b)
unfolding update_value commit save
update_value-Saved s e v b d = ground arith

load_value-Saved : (e : Engine) → Saved e (load_value e)
unfolding load_value save
load_value-Saved e d = ground arith

load_computed-Saved : (e : Engine) → Saved e (load_computed e)
unfolding load_computed save
load_computed-Saved e d = ground arith

mark_loaded-Saved : (e : Engine) (b : Bool) → Saved e (mark_loaded e b)
unfolding mark_loaded save
mark_loaded-Saved e true d = Saved-trans e _ _ (load_value-Saved e) (load_computed-Saved _) d
mark_loaded-Saved e false d = ground arith

clear_back_value-Saved : (e : Engine) → Saved e (clear_back_value e)
unfolding clear_back_value save
clear_back_value-Saved e d = ground arith

clear_value-Saved : (level : ℕ) (e : Engine) → Saved e (clear_value level e)
unfolding clear_value save
clear_value-Saved level e d = ground arith

clear_redirection-Saved : (e : Engine) → Saved e (clear_redirection e)
unfolding clear_redirection save
clear_redirection-Saved e d = ground arith

clear_loaded-Saved : (e : Engine) → Saved e (clear_loaded e)
unfolding clear_loaded save
clear_loaded-Saved e d = ground arith

clear_temporary_value-Saved : (e : Engine) (level : ℕ) → Saved e (clear_temporary_value e level)
unfolding clear_temporary_value
clear_temporary_value-Saved e level =
    If-Saved _ e _ _ (Saved-trans e _ _ (clear_back_value-Saved e) (clear_value-Saved level _)) (
      If-Saved _ e _ _ (Saved-trans e _ _ (clear_redirection-Saved e) (clear_loaded-Saved _))
        (Same-Saved e))

with_default-Saved : (e : Engine) → Saved e (with_default e)
unfolding with_default save
with_default-Saved e d = ground arith

is_loaded-Saved : (e : Engine) (b : Bool) → Saved e (is_loaded e b).1
unfolding is_loaded
is_loaded-Saved e b = with_default-Saved e

add_config_key-Saved : (e : Engine) (k : Option Bytes) → Saved e (add_config_key e k)
unfolding add_config_key save
add_config_key-Saved e none d = refl
add_config_key-Saved e (some k) d = ground arith

-- Where nothing is found in the list, it stays as it is.
not_found-list :
    (csl ch : Option Bytes)
    → (delete_from_comma_separated_list csl ch).0 ≡ false
    → (delete_from_comma_separated_list csl ch).1 ≡ csl
unfolding delete_from_comma_separated_list
not_found-list none ch h = refl
not_found-list (some csl) none h = refl
not_found-list (some csl) (some ch) h = ground arith

remove_config_key-Saved : (e : Engine) (k : Option Bytes) → Saved e (remove_config_key e k).1
unfolding remove_config_key
remove_config_key-Saved e k d =
    let found : (delete_from_comma_separated_list e.param.config_key k).0 ≡ false = ground arith in
    let old : e.data_changed ≡ false = ground arith in
    rw (found, not_found-list e.param.config_key k found, old) refl

cancel_change-Saved : (e : Engine) → Saved e (cancel_change e).1
unfolding cancel_change save
cancel_change-Saved e d = ground arith

unmark_pushed-Saved : (e : Engine) → Saved e (unmark_pushed e)
unfolding unmark_pushed save
unmark_pushed-Saved e d = ground arith

Step-Saved : (device_status : Bytes) (e e' : Engine) → Step device_status e e' → Saved e e'
unfolding commit set_value mark_being_evaluated unmark_being_evaluated mark_pushed save
Step-Saved s _ _ (attributes_step e n l) d = set_attributes-Saved e n l d
Step-Saved s _ _ (get_step e) d = get_value-Saved e d
Step-Saved s _ _ (init_step e e' h) d = init_state-Saved e e' h d
Step-Saved s _ _ (commit_step e) d = cc
Step-Saved s _ _ (update_step e v b) d = update_value-Saved s e v b d
Step-Saved s _ _ (mark_loaded_step e b) d = mark_loaded-Saved e b d
Step-Saved s _ _ (clear_step e level) d = clear_temporary_value-Saved e level d
Step-Saved s _ _ (is_loaded_step e b) d = is_loaded-Saved e b d
Step-Saved s _ _ (set_step e v) d = cc
Step-Saved s _ _ (add_key_step e k) d = add_config_key-Saved e k d
Step-Saved s _ _ (remove_key_step e k) d = remove_config_key-Saved e k d
Step-Saved s _ _ (cancel_step e) d = cancel_change-Saved e d
Step-Saved s _ _ (mark_evaluated_step e) d = cc
Step-Saved s _ _ (unmark_evaluated_step e) d = cc
Step-Saved s _ _ (mark_pushed_step e) d = cc
Step-Saved s _ _ (unmark_pushed_step e) d = unmark_pushed-Saved e d

-- If the flag of changed data is not set after any calls, other than resets, the parameter, the flag
-- and the calls of the scheduler are what they were.
pub Steps-unchanged :
    (device_status : Bytes) (e e' : Engine)
    → Steps device_status e e'
    → e'.data_changed ≡ false
    → e' ≡ e
Steps-unchanged s _ _ (done e) d = refl
Steps-unchanged s _ _ (next step steps) d =
    Saved-trans _ _ _ (Step-Saved s _ _ step) (Steps-unchanged s _ _ steps) d
