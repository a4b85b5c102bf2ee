-- ===== src/Parameter/Value.antt =====
-- dm_engine/src/DM_ENG_Parameter.c: the functions that set, commit, cancel and reset a value.
pub mod Change
use tr069agent.Prelude.{
  ℕ, Bool, true, false, not, ◌&&◌, ◌||◌, Option, none, some, List, [], ◌∷◌, ◌==◌, if◌then◌else◌,
  Bytes, str_eq, cut_at,
}
use tr069agent.Common.CommaList.{add_to_comma_separated_list, delete_from_comma_separated_list}
use tr069agent.Parameter.Struct.{
  CharPtr, null, empty, heap, is_null, is_empty_constant, text_at, strdup, system_only, mixed,
  NotificationMode, unspecified, initial, is_set, Parameter, is_trigger, Call, diagnostics_complete,
  parameter_value_changed, Engine, save, same_storage, is_date, is_active, unknown_time, none_state,
  requested_state, notification_request_rejected,
}
use tr069agent.Parameter.Name.{is_valuable, is_diagnostics_state}

-- The two parts of the code behind the test for the notification; `none` is a NULL list.
unfoldable pub with_notification : Parameter → NotificationMode → Parameter
with_notification p unspecified = p
with_notification p n = record p { notification = n }

unfoldable pub with_access_list : Parameter → Option (List Bytes) → Parameter
with_access_list p none = p
with_access_list p (some l) = record p { access_list = some l }

unfoldable pub set_attributes : Engine → NotificationMode → Option (List Bytes) → ℕ × Engine
unfolding save with_notification with_access_list is_active
set_attributes e n l =
    if is_active n && e.param.active_notification_denied
    then (notification_request_rejected, e)
    else (0, save e (with_access_list (with_notification e.param n) l))

unfoldable pub get_value : Engine → CharPtr × Engine
unfolding save is_date is_null is_empty_constant strdup text_at
get_value e =
    if is_date e.param.type && (is_null e.param.value || is_empty_constant e.param.value)
    then (heap unknown_time, save e (record e.param { value = heap unknown_time }))
    else (strdup (text_at e.param.value), e)

-- The new value of a flag whose `backValue` is a text; `none` is strcmp on NULL.
unfoldable pub trigger_default : Bytes → CharPtr → Option CharPtr
unfolding cut_at text_at str_eq
trigger_default back value = elim (cut_at b'/' back) [
  | none ↦ some (heap back)
  | some (default, trigger) ↦ elim (text_at value) [
    | none ↦ none
    | some s ↦ some (if str_eq s trigger then heap default else value)
  ]
]

unfoldable pub trigger_value : Parameter → Option CharPtr
unfolding trigger_default text_at
trigger_value p = elim (text_at p.back_value) [
  | none ↦ some null
  | some back ↦ trigger_default back p.value
]

-- `none` is a crash.
unfoldable pub init_state : Engine → Option Engine
unfolding is_set is_trigger trigger_value save
init_state e =
    if is_set e.param.state
    then (if not e.param.writable && is_trigger e.param
        then (elim (trigger_value e.param) [
          | none ↦ none
          | some v ↦ some (save e (record e.param { state = initial; value = v }))
        ])
        else some (save e (record e.param { state = initial })))
    else some e

-- `device_status` is `DM_ENG_DEVICE_STATUS_PARAMETER_NAME`, which depends on the build.
unfoldable pub notifies : Bytes → Parameter → Bool
unfolding is_active is_valuable str_eq
notifies device_status p =
    (is_active p.notification && is_valuable p.name) || str_eq p.name device_status

-- A diagnostic has a result.
unfoldable pub is_result : Option Bytes → Bool
unfolding str_eq
is_result none = false
is_result (some s) = not (str_eq s none_state) && not (str_eq s requested_state)

unfoldable pub commit_calls : Bytes → Parameter → List Call → List Call
unfolding is_set is_diagnostics_state is_result notifies text_at
commit_calls device_status p calls =
    if is_set p.state
    then (let calls' : List Call =
          if is_diagnostics_state p.name && is_result (text_at p.value)
          then diagnostics_complete ∷ calls
          else calls in
        if notifies device_status p then parameter_value_changed p.name ∷ calls' else calls')
    else calls

-- The parameter that `commit` leaves.
unfoldable pub committed : Parameter → Parameter
committed p = record p {
  state = record p.state { change_requested = false };
  back_value = if p.writable then null else p.back_value;
}

unfoldable pub commit : Bytes → Engine → Engine
unfolding committed commit_calls
commit device_status e = record {
  param = committed e.param;
  data_changed = true;
  calls = commit_calls device_status (committed e.param) e.calls;
}

-- A text is copied; NULL and the constant are stored.
unfoldable pub stored : CharPtr → CharPtr
unfolding strdup
stored null = null
stored empty = empty
stored (heap s) = strdup (some s)

unfoldable pub update_value : Bytes → Engine → CharPtr → Bool → Engine
unfolding save stored
update_value device_status e v new_value =
    let loaded_value : Engine = save e (record e.param { value = stored v }) in
    if new_value
    then commit device_status (
        save loaded_value (record loaded_value.param {
          state = record loaded_value.param.state { value_changed = true; pushed = true };
        }))
    else loaded_value

-- The flag of changed data is not set.
unfoldable pub reset_value : Engine → Engine
unfolding is_diagnostics_state
reset_value e = record e {
  param = record e.param {
    value = if is_diagnostics_state e.param.name then heap none_state else null;
  };
}

-- Whether the system is to be told.
unfoldable pub set_value : Engine → Option Bytes → Bool × Engine
unfolding save strdup same_storage
set_value e v = (
  same_storage e.param.storage_mode system_only || same_storage e.param.storage_mode mixed,
  save e (record e.param {
    back_value = e.param.value;
    value = strdup v;
    state = record e.param.state { change_requested = true; value_changed = true };
  }),
)

unfoldable pub add_config_key : Engine → Option Bytes → Engine
unfolding save add_to_comma_separated_list
add_config_key e none = e
add_config_key e (some k) = elim e.param.config_key [
  | none ↦ e
  | some keys ↦
      save e (record e.param { config_key = add_to_comma_separated_list (some keys) (some k) })
]

unfoldable pub remove_config_key : Engine → Option Bytes → Bool × Engine
unfolding delete_from_comma_separated_list
remove_config_key e k =
    let (found, keys) = delete_from_comma_separated_list e.param.config_key k in
    (
      found,
      record e {
        param = record e.param { config_key = keys };
        data_changed = e.data_changed || found;
      },
    )

unfoldable pub cancel_change : Engine → Bool × Engine
unfolding save
cancel_change e =
    if e.param.state.change_requested
    then (
      true,
      save e (record e.param { value = e.param.back_value; back_value = null; state = initial }),
    )
    else (false, e)

unfoldable pub mark_being_evaluated : Engine → Engine
unfolding save
mark_being_evaluated e =
    save e (record e.param { state = record e.param.state { being_evaluated = true } })

unfoldable pub unmark_being_evaluated : Engine → Engine
unfolding save
unmark_being_evaluated e =
    save e (record e.param { state = record e.param.state { being_evaluated = false } })

unfoldable pub mark_pushed : Engine → Engine
unfolding save
mark_pushed e = save e (record e.param { state = record e.param.state { pushed = true } })

unfoldable pub unmark_pushed : Engine → Engine
unfolding save
unmark_pushed e =
    if e.param.state.pushed
    then save e (record e.param { state = record e.param.state { pushed = false } })
    else e
