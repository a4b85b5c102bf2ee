-- ===== src/Scheduler.antt =====
-- dm_engine/src/DM_ENG_InformMessageScheduler.c: when sessions with the ACS are wanted, and their status.
-- Each function is one step under its mutex.
pub mod Boot
pub mod Reboots
pub mod Session
mod Tests
use tr069agent.Prelude.{
  ℕ, zero, suc, ◌+◌, ◌*◌, Bool, true, false, not, ◌&&◌, ◌||◌, Option, none, some, List, [], ◌∷◌,
  ◌++◌, ltb, ◌==◌, if◌then◌else◌, Bytes, codes, str_eq, cut_at, length,
}
use tr069agent.Event.{
  Event, EventCode, constant, new_event, event_bootstrap, event_boot, event_m_reboot,
  event_value_change, event_connection_request, event_diagnostics_complete, event_transfer_complete,
  event_autonomous_transfer_complete, event_request_download,
}
use tr069agent.Store.Events.{has_event}
use tr069agent.Manager.{
  clear_events, inc_retry_count, remove_transfer_result, remove_download_request,
  get_transfer_result,
}
use tr069agent.Store.Struct.{Control}
use tr069agent.Parameter.Struct.{Parameter, NotificationMode, is_active, text_at}

pub data DeviceStatus : Type 0 where
  uninitialized down up initializing error disabled : DeviceStatus

pub data NotificationStatus : Type 0 where
  completed session_opening session_opened cancelled : NotificationStatus

-- The static variables, and the reboot command key of the data.
pub record Scheduler : Type 0 where
  pub last_status : DeviceStatus
  pub alive : Bool
  pub retry_on : Bool
  pub retry_delay : ℕ
  pub pending_events : List Event
  pub status : NotificationStatus
  pub transfer_id_sending : ℕ
  pub request_download_sending : Bool
  pub reboot_command_key : Option Bytes

-- All texts but those of the four constants stand for a device that is disabled.
unfoldable pub intern_status : Option Bytes → DeviceStatus
unfolding str_eq
intern_status none = error
intern_status (some s) =
    if str_eq s (codes "Down")
    then down
    else if str_eq s (codes "Up")
    then up
    else if str_eq s (codes "Initializing")
    then initializing
    else if str_eq s (codes "Error")
    then error
    else disabled

unfoldable pub add_pending_event : EventCode → Option Bytes → Scheduler → Scheduler
unfolding new_event has_event
add_pending_event ec ck s =
    let es = new_event ec ck in
    if has_event s.pending_events es.event_code es.command_key
    then s
    else record s { pending_events = s.pending_events ++ es ∷ [] }

-- The loop over the items of the command key; the fuel is the length of the text.
unfoldable pub reboot_events : ℕ → Bytes → Scheduler → Scheduler
unfolding cut_at add_pending_event
reboot_events zero key s = s
reboot_events (suc fuel) key s = elim (cut_at b',' key) [
  | none ↦ add_pending_event (constant event_m_reboot) (some key) s
  | some (item, rest) ↦
      reboot_events fuel rest (add_pending_event (constant event_m_reboot) (some item) s)
]

unfoldable pub with_reboot_keys : Option Bytes → Scheduler → Scheduler
unfolding reboot_events
with_reboot_keys none s = s
with_reboot_keys (some key) s = record (reboot_events (suc (length key)) key s) {
  reboot_command_key = none;
}

unfoldable pub boot_event : Bool → Scheduler → Scheduler
unfolding add_pending_event with_reboot_keys
boot_event factory_reset s =
    let s1 = if factory_reset then add_pending_event (constant event_bootstrap) none s else s in
    let s2 = add_pending_event (constant event_boot) none s1 in
    with_reboot_keys s2.reboot_command_key s2

-- The thread is created, and sets `alive` when it runs: the model takes this as one step.
unfoldable pub start : Scheduler → Scheduler
start s = if s.alive then s else record s { retry_on = false; alive = true }

unfoldable pub stop : Scheduler → Scheduler
stop s = record s { alive = false }

-- The two states in which the agent is stopped.
unfoldable pub is_stopped : DeviceStatus → Bool
is_stopped down = true
is_stopped initializing = true
is_stopped _ = false

-- The states from which the device boots.
unfoldable pub boots_from : DeviceStatus → Bool
boots_from uninitialized = true
boots_from down = true
boots_from initializing = true
boots_from _ = false

unfoldable pub is_uninitialized : DeviceStatus → Bool
is_uninitialized uninitialized = true
is_uninitialized _ = false

unfoldable pub same_status : DeviceStatus → DeviceStatus → Bool
same_status uninitialized uninitialized = true
same_status down down = true
same_status up up = true
same_status initializing initializing = true
same_status error error = true
same_status disabled disabled = true
same_status _ _ = false

-- The change of the status of the device: the data behind it, and whether an event is to be added.
unfoldable pub device_status_changed : DeviceStatus → Scheduler → Scheduler × Bool
unfolding is_stopped stop start boots_from boot_event is_uninitialized same_status
device_status_changed status s =
    let last = s.last_status in
    if is_stopped status
    then (record (stop s) { last_status = status }, false)
    else if boots_from last
    then (record (boot_event (is_uninitialized last) (start s)) { last_status = status }, false)
    else (record (start s) { last_status = status }, not (same_status status last))

-- `status_name` is `DM_ENG_DEVICE_STATUS_PARAMETER_NAME`, which depends on the build.
unfoldable pub parameter_value_changed : Bytes → Parameter → Scheduler → Scheduler
unfolding device_status_changed intern_status add_pending_event is_active text_at str_eq
parameter_value_changed status_name param s =
    let (s', event_to_add) =
      if str_eq param.name status_name
      then device_status_changed (intern_status (text_at param.value)) s
      else (s, true) in
    if event_to_add && is_active param.notification
    then add_pending_event (constant event_value_change) none s'
    else s'

unfoldable pub bootstrap_inform : Scheduler → Scheduler
unfolding add_pending_event
bootstrap_inform s = add_pending_event (constant event_bootstrap) none s

unfoldable pub request_connection : Scheduler → Scheduler
unfolding add_pending_event
request_connection s = add_pending_event (constant event_connection_request) none s

unfoldable pub diagnostics_complete : Scheduler → Scheduler
unfolding add_pending_event
diagnostics_complete s = add_pending_event (constant event_diagnostics_complete) none s

unfoldable pub transfer_complete : Bool → Scheduler → Scheduler
unfolding add_pending_event
transfer_complete autonomous s =
    add_pending_event
      (constant
        (if autonomous then event_autonomous_transfer_complete else event_transfer_complete))
      none s

unfoldable pub request_download : Scheduler → Scheduler
unfolding add_pending_event
request_download s = add_pending_event (constant event_request_download) none s

unfoldable pub vendor_specific_event : EventCode → Scheduler → Scheduler
unfolding add_pending_event
vendor_specific_event ec s = add_pending_event ec none s
