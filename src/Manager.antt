-- ===== src/Manager.antt =====
-- dm_engine/src/DM_ENG_ParameterManager.c: how the data give the events of the next Inform, and when it
-- is due.
pub mod Due
pub mod Timeout
pub mod Periodic
pub mod Results
pub mod Transfers
mod Tests
use tr069agent.Prelude.{
  ℕ, zero, suc, ◌+◌, ◌-◌, ◌%◌, Bool, true, false, not, ◌&&◌, ◌||◌, Option, none, some, ◌>>=◌, List,
  [], ◌∷◌, ltb, ◌==◌, if◌then◌else◌, Bytes, length, drop,
}
use tr069agent.Prelude.Int.{ℤ, pos, pos_part, leb_ℤ, is_zero, is_positive}
use tr069agent.Event.{
  Event, EventCode, constant, event_periodic, event_scheduled, event_value_change,
  event_transfer_complete, event_request_download, event_autonomous_transfer_complete,
  event_m_schedule_inform, event_m_download, event_m_upload,
}
use tr069agent.Transfer.{TransferRequest}
use tr069agent.Store.Struct.{Control, DownloadRequest}
use tr069agent.Store.Schedule.{
  get_scheduled_inform_time, get_scheduled_inform_command_key, next_scheduled_inform_command,
}
use tr069agent.Store.Events.{is_in_events, add_event, delete_event, delete_all_events}
use tr069agent.Store.Transfers.{
  update_request, remove_transfer_request, remove_first_download_request,
}

-- What the device and the clock give: the time at the start, the three readings of the clock at a
-- request, the result of a transfer, and the three parameters of the periodic Inform.
pub record World : Type 0 where
  pub now : ℕ
  pub readings : TransferRequest → ℤ × ℤ × ℤ
  pub apply : TransferRequest → ℕ
  pub is_periodic_enabled : Bool
  pub periodic_interval : ℕ
  pub periodic_reference : ℤ

abbrev pub not_yet_started : ℤ
not_yet_started = pos 1

abbrev pub in_progress : ℤ
in_progress = pos 2

abbrev pub completed : ℤ
completed = pos 3

unfoldable pub has_state : ℤ → TransferRequest → Bool
has_state s tr = leb_ℤ s tr.state && leb_ℤ tr.state s

-- The next time from a reference time that is not the present one, in the past or not.
unfoldable pub from_reference : ℕ → ℕ → ℕ → ℕ
from_reference now period ref =
    if ltb ref now then now + period - (now - ref) % period else now + (ref - now) % period

unfoldable pub next_periodic : ℕ → ℕ → ℤ → ℕ
unfolding from_reference
next_periodic now period ref =
    if is_positive ref && not (pos_part ref == now)
    then from_reference now period (pos_part ref)
    else now + period

unfoldable pub compute_next_periodic_inform_time : World → Control → Control
unfolding next_periodic
compute_next_periodic_inform_time world c =
    let ref : ℤ =
      if is_zero world.periodic_reference
      then c.periodic_inform_time
      else world.periodic_reference in
    record c {
      periodic_inform_time =
          if world.is_periodic_enabled && ltb 0 world.periodic_interval
          then pos (next_periodic world.now world.periodic_interval ref)
          else pos 0;
      control_data_changed = true;
    }

unfoldable pub add_pending : Control → List Event → Control
unfolding add_event
add_pending c [] = c
add_pending c (e ∷ es) = add_pending (add_event c e.event_code e.command_key) es

-- An event without a key, if its code is not there.
unfoldable pub add_if_absent : Control → Bytes → Control
unfolding is_in_events add_event
add_if_absent c ec = if is_in_events c ec then c else add_event c (constant ec) none

unfoldable pub add_periodic : World → Control → Control
unfolding add_if_absent compute_next_periodic_inform_time
add_periodic world c =
    if not (is_zero c.periodic_inform_time) && leb_ℤ c.periodic_inform_time (pos world.now)
    then compute_next_periodic_inform_time world (add_if_absent c event_periodic)
    else c

-- The first scheduled Inform, as two events; the loop goes on with the next one.
unfoldable pub deliver_scheduled : Control → Control
unfolding add_if_absent add_event get_scheduled_inform_command_key next_scheduled_inform_command
deliver_scheduled c =
    let c' = add_if_absent c event_scheduled in
    next_scheduled_inform_command
      (add_event c' (constant event_m_schedule_inform) (get_scheduled_inform_command_key c'))

-- `none` is no fuel: the loop does not end where a key is missing.
unfoldable pub add_scheduled : ℕ → ℕ → Control → Option Control
unfolding get_scheduled_inform_time deliver_scheduled
add_scheduled zero now c = none
add_scheduled (suc fuel) now c =
    let time : ℤ = get_scheduled_inform_time c in
    elim (not (is_zero time) && leb_ℤ time (pos now)) [
      | false ↦ some c
      | true ↦ add_scheduled fuel now (deliver_scheduled c)
    ]

-- A request that is due is carried out: 1 is a transfer that goes on in the background.
unfoldable pub carry_out : World → Control → TransferRequest → Control
unfolding has_state update_request
carry_out world c tr =
    let (test, start, complete) = world.readings tr in
    if has_state not_yet_started tr && leb_ℤ tr.transfer_time test
    then (if world.apply tr == 1
        then (update_request c tr.transfer_id in_progress 0 (pos 0) (pos 0)).0
        else (update_request c tr.transfer_id completed (world.apply tr) start
            (if world.apply tr == 0 then complete else pos 0)).0)
    else c

unfoldable pub transfer_event : TransferRequest → Bytes
transfer_event tr = elim tr.command_key [
  | none ↦ event_autonomous_transfer_complete
  | some k ↦ event_transfer_complete
]

-- The event of the request at index `k`, as it is then.
unfoldable pub announce : Control → ℕ → Control
unfolding has_state add_if_absent transfer_event
announce c k = elim (drop k c.transfer_requests) [
  | [] ↦ c
  | tr ∷ _ ↦ if has_state completed tr then add_if_absent c (transfer_event tr) else c
]

-- The loop over the queue, from index `k`; an update does not change its length, which is the fuel.
unfoldable pub run_transfers : ℕ → ℕ → World → Control → Control
unfolding carry_out announce
run_transfers zero k world c = c
run_transfers (suc fuel) k world c = elim (drop k c.transfer_requests) [
  | [] ↦ c
  | tr ∷ _ ↦ run_transfers fuel (suc k) world (announce (carry_out world c tr) k)
]

unfoldable pub add_download_event : Control → Control
unfolding add_if_absent
add_download_event c = elim c.download_requests [
  | [] ↦ c
  | dr ∷ _ ↦ add_if_absent c event_request_download
]

-- The data are saved.
unfoldable pub sync : Control → Control
sync c = record c { control_data_changed = false }

unfoldable pub scheduled_fuel : Control → ℕ
scheduled_fuel c = elim c.scheduled_inform_time [ none ↦ 1 | some s ↦ suc (suc (length s)) ]

unfoldable pub manage_events : World → Control → List Event → Option Control
unfolding add_pending add_periodic add_scheduled scheduled_fuel run_transfers add_download_event
    sync
manage_events world c pending =
    let c' = add_periodic world (add_pending c pending) in
    elim (add_scheduled (scheduled_fuel c') world.now c') [
      | none ↦ none
      | some c'' ↦
          some
            (sync (add_download_event (run_transfers (length c''.transfer_requests) 0 world c'')))
    ]

unfoldable pub update_value_change_event : Control → Bool → Control
unfolding is_in_events add_event delete_event
update_value_change_event c value_changed =
    if is_in_events c event_value_change
    then (if value_changed then c else delete_event c (constant event_value_change))
    else if value_changed
    then add_event c (constant event_value_change) none
    else c

unfoldable pub add_m_events : Control → List TransferRequest → Control
unfolding has_state add_event
add_m_events c [] = c
add_m_events c (tr ∷ trs) = elim tr.command_key [
  | none ↦ add_m_events c trs
  | some key ↦
      if has_state completed tr
      then add_m_events
          (add_event c (constant (if tr.is_download then event_m_download else event_m_upload))
            (some key))
          trs
      else add_m_events c trs
]

unfoldable pub add_m_transfer_events : Control → Control
unfolding add_m_events
add_m_transfer_events c = add_m_events c c.transfer_requests

unfoldable pub delete_m_transfer_events : Control → Control
unfolding delete_event
delete_m_transfer_events c =
    delete_event (delete_event c (constant event_m_download)) (constant event_m_upload)

unfoldable pub first_waiting : List TransferRequest → ℤ
unfolding has_state
first_waiting [] = pos 0
first_waiting (tr ∷ trs) =
    let rest = first_waiting trs in if has_state not_yet_started tr then tr.transfer_time else rest

-- The earlier of two times, where 0 is none.
unfoldable pub earlier_timeout : ℤ → ℤ → ℤ
earlier_timeout timeout time =
    if not (is_zero time) && (is_zero timeout || not (leb_ℤ timeout time)) then time else timeout

unfoldable pub get_next_timeout : Control → ℤ
unfolding first_waiting earlier_timeout get_scheduled_inform_time
get_next_timeout c =
    earlier_timeout (earlier_timeout c.periodic_inform_time (get_scheduled_inform_time c))
      (first_waiting c.transfer_requests)

-- The events are told to the ACS; the states of the parameters are reset, too, where the result is true.
unfoldable pub clear_events : Control → Control × Bool
unfolding sync delete_all_events
clear_events c = elim c.events [
  | [] ↦ (c, false)
  | _ ∷ _ ↦
      (sync (record (delete_all_events c) { retry_count = 0; control_data_changed = true }), true)
]

unfoldable pub inc_retry_count : Control → Control
inc_retry_count c = record c { retry_count = c.retry_count + 1; control_data_changed = true }

unfoldable pub remove_transfer_result : Control → ℕ → Control
unfolding remove_transfer_request sync
remove_transfer_result c id = sync (remove_transfer_request c id)

unfoldable pub remove_download_request : Control → Control
unfolding remove_first_download_request sync
remove_download_request c = sync (remove_first_download_request c)

unfoldable pub get_transfer_result : List TransferRequest → Option TransferRequest
unfolding has_state
get_transfer_result [] = none
get_transfer_result (tr ∷ trs) =
    let rest = get_transfer_result trs in if has_state completed tr then some tr else rest
