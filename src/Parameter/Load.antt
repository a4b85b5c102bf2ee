-- ===== src/Parameter/Load.antt =====
-- dm_engine/src/DM_ENG_Parameter.c: which values are up to date, and the release of temporary values.
pub mod Loaded
use tr069agent.Prelude.{
  ℕ, Bool, true, false, not, ◌&&◌, ◌||◌, Option, none, some, [], ◌∷◌, ◌==◌, if◌then◌else◌, Bytes,
  is_alnum,
}
use tr069agent.Common.Number.{false_string}
use tr069agent.Parameter.Struct.{
  null, empty, heap, is_null, is_empty_constant, dm_only, system_only, mixed, computed, initial,
  Parameter, is_trigger, Engine, save, same_storage, is_date, is_boolean, unknown_time,
}
use tr069agent.Parameter.Name.{is_node}

unfoldable pub load_value : Engine → Engine
unfolding save is_null
load_value e = if is_null e.param.value then save e (record e.param { value = empty }) else e

unfoldable pub load_computed : Engine → Engine
unfolding save same_storage
load_computed e =
    if same_storage e.param.storage_mode computed && not e.param.state.loaded
    then save e (record e.param { state = record e.param.state { loaded = true } })
    else e

unfoldable pub mark_loaded : Engine → Bool → Engine
unfolding save is_null load_value load_computed
mark_loaded e true = load_computed (load_value e)
mark_loaded e false =
    if is_null e.param.value && is_null e.param.back_value
    then save e (record e.param { back_value = empty })
    else e

unfoldable pub clear_back_value : Engine → Engine
unfolding save is_null is_trigger
clear_back_value e =
    if not (is_null e.param.back_value) && (e.param.writable || not (is_trigger e.param))
    then save e (record e.param { back_value = null })
    else e

-- A value that was sent up and not notified yet is kept below level 2.
unfoldable pub clear_value : ℕ → Engine → Engine
unfolding save is_null
clear_value level e =
    if not (is_null e.param.value) && (not e.param.state.value_changed || level == 2)
    then save e (record e.param { value = null; state = initial })
    else e

unfoldable pub skip_blanks : Bytes → Bytes
skip_blanks [] = []
skip_blanks (c ∷ cs) = let rest = skip_blanks cs in if c == b' ' then rest else c ∷ cs

unfoldable pub skip_name : Bytes → Bytes
unfolding is_alnum
skip_name [] = []
skip_name (c ∷ cs) =
    let rest = skip_name cs in if is_alnum c || c == b'.' || c == b'_' then rest else c ∷ cs

unfoldable pub is_nothing : Bytes → Bool
is_nothing [] = true
is_nothing (c ∷ cs) = false

-- A definition that is a single name or number.
unfoldable pub is_redirection : Option Bytes → Bool
unfolding is_nothing skip_blanks skip_name
is_redirection none = false
is_redirection (some def) = is_nothing (skip_blanks (skip_name (skip_blanks def)))

unfoldable pub clear_redirection : Engine → Engine
unfolding save is_null is_redirection
clear_redirection e =
    if not (is_null e.param.value) && is_redirection e.param.definition
    then save e (record e.param { value = null })
    else e

unfoldable pub clear_loaded : Engine → Engine
unfolding save
clear_loaded e =
    if e.param.state.loaded || e.param.state.pushed
    then save e (record e.param { state = record e.param.state { loaded = false; pushed = false } })
    else e

-- The levels: 0 for computed parameters only, 1 for those of the system too, 2 for all.
unfoldable pub is_cleared : ℕ → Parameter → Bool
unfolding is_node same_storage
is_cleared level p =
    level == 2
    || (level == 1
        && ((is_node p.name && not (same_storage p.storage_mode mixed))
            || same_storage p.storage_mode system_only))

unfoldable pub clear_temporary_value : Engine → ℕ → Engine
unfolding is_cleared clear_back_value clear_value clear_redirection clear_loaded same_storage
clear_temporary_value e level =
    if is_cleared level e.param
    then clear_value level (clear_back_value e)
    else if same_storage e.param.storage_mode computed
    then clear_loaded (clear_redirection e)
    else e

-- The default of a date or of a boolean that has no value.
unfoldable pub with_default : Engine → Engine
unfolding save is_node is_date is_boolean is_null is_empty_constant same_storage
with_default e =
    if not (is_node e.param.name)
      && (is_date e.param.type || is_boolean e.param.type)
      && (is_empty_constant e.param.value
          || (same_storage e.param.storage_mode dm_only && is_null e.param.value))
    then save e (record e.param {
      value = heap (if is_date e.param.type then unknown_time else false_string);
    })
    else e

unfoldable pub is_loaded_param : Parameter → Bool → Bool
unfolding is_node is_null same_storage
is_loaded_param p with_values =
    (not (is_null p.value) && (not (same_storage p.storage_mode computed) || p.state.loaded))
    || (not (is_node p.name) && same_storage p.storage_mode dm_only)
    || (not with_values && (not (is_node p.name) || not (is_null p.back_value)))

unfoldable pub is_loaded : Engine → Bool → Bool × Engine
unfolding with_default is_loaded_param
is_loaded e with_values = (is_loaded_param (with_default e).param with_values, with_default e)
