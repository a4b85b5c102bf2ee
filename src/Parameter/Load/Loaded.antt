-- ===== src/Parameter/Load/Loaded.antt =====
-- Marks of loaded values, and the release of temporary values.
use tr069agent.Prelude.{ℕ, Bool, true, false, ◌≡◌, ◌⊎◌, arith}
use tr069agent.Parameter.Struct.{Engine, save, is_null, same_storage, computed, is_trigger}
use tr069agent.Parameter.Load.{
  mark_loaded, load_value, load_computed, is_loaded, is_loaded_param, with_default,
  clear_temporary_value, clear_value, clear_back_value, clear_redirection, clear_loaded, is_cleared,
}

-- What is marked as loaded is loaded: with its value always, without it unless the value of the
-- parameter is computed.
pub is_loaded-mark_loaded :
    (e : Engine) (with_values : Bool)
    → (with_values ≡ true) ⊎ (same_storage e.param.storage_mode computed ≡ false)
    → (is_loaded (mark_loaded e with_values) with_values).0 ≡ true
unfolding is_loaded is_loaded_param mark_loaded load_value load_computed with_default save is_null
    same_storage
is_loaded-mark_loaded e b h = ground arith

-- Releasing the temporary values a second time, at the same level, changes nothing.
pub clear_temporary_value-clear_temporary_value :
    (e : Engine) (level : ℕ)
    → clear_temporary_value (clear_temporary_value e level) level ≡ clear_temporary_value e level
unfolding clear_temporary_value clear_value clear_back_value clear_redirection clear_loaded save
    is_cleared is_null is_trigger
clear_temporary_value-clear_temporary_value e level = ground arith
