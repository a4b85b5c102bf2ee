-- ===== src/Store/Tests.antt =====
-- The data of dm_target_implementation/PCLINUX/dm_target_dataManagement/src/DM_DAT1_ParameterData.c on
-- concrete inputs.
use tr069agent.Prelude.{ℕ, Bool, false, none, some, List, [], ◌∷◌, ◌≡◌, refl, codes, str_eq, arith}
use tr069agent.Prelude.Int.{pos}
use tr069agent.Event.{constant, event_boot, event_m_reboot, intern_event_code, code_text}
use tr069agent.Common.CommaList.{has_item}
use tr069agent.Store.Struct.{Control, no_control}
use tr069agent.Store.Schedule.{get_scheduled_inform_time, get_scheduled_inform_command_key}
use tr069agent.Store.Schedule.Packed.{packed, head_time, head_key}
use tr069agent.Store.Schedule.Refinement.{
  Command, schedule, drop_first, run_commands, replay, run_commands_refines,
}
use tr069agent.Store.ControlLine.{OtherData}
use tr069agent.Event.{Event, other}
use tr069agent.Store.Events.{is_in_events}
use tr069agent.Store.Events.Once.{EventCall, add, delete, HasNoRepeat, run_calls-HasNoRepeat}
use tr069agent.Store.Events.Once
use tr069agent.Transfer.{TransferRequest}
use tr069agent.Store.Transfers.Calls.{QueueCall, insert, remove, update, queue}
use tr069agent.Store.Transfers.Calls
use tr069agent.Store.Transfers.Order.{IsQueue, run_calls-IsQueue}
use tr069agent.Store.Transfers.Table.{find_request, table_calls, find_request-run_calls}
use tr069agent.Store.Events.Reported.{is_in_events-run_calls, reported_after}

abbrev commands : List Command
commands =
    schedule (900, codes "late")
    ∷ schedule (300, codes "soon")
    ∷ schedule (900, codes "later")
    ∷ drop_first
    ∷ []

run_commands_refines_example :
    let informs = replay commands [] in
    (s : Control) × (b : Bool) × (run_commands commands (packed no_control [] false) ≡ some s)
    × (s ≡ packed no_control informs b)
    × (get_scheduled_inform_time s ≡ head_time informs)
    × (get_scheduled_inform_command_key s ≡ head_key informs)
run_commands_refines_example = run_commands_refines commands no_control false (ground arith)

abbrev event_calls : List EventCall
event_calls =
    add (constant event_boot) none
    ∷ add (constant event_m_reboot) (some (codes "key"))
    ∷ add (constant event_boot) none
    ∷ delete (constant event_m_reboot)
    ∷ []

run_calls-HasNoRepeat_example : HasNoRepeat (Once.run_calls event_calls no_control).events
unfolding intern_event_code code_text has_item str_eq
run_calls-HasNoRepeat_example =
    run_calls-HasNoRepeat event_calls no_control (refl, (refl, (refl, (tt, tt)))) tt

is_in_events-run_calls_example :
    is_in_events (Once.run_calls event_calls no_control) event_m_reboot
    ≡ reported_after event_calls event_m_reboot (is_in_events no_control event_m_reboot)
unfolding intern_event_code code_text has_item str_eq
is_in_events-run_calls_example =
    is_in_events-run_calls event_calls no_control event_m_reboot
      (tt, (tt, (tt, ((refl, refl), tt)))) tt

abbrev upload_at : ℕ → TransferRequest
upload_at t = record {
  is_download = false;
  state = pos 1;
  transfer_time = pos t;
  file_type = none;
  url = none;
  username = none;
  password = none;
  file_size = 0;
  target_file_name = none;
  success_url = none;
  failure_url = none;
  command_key = none;
  announce_url = none;
  fault_code = 0;
  start_time = pos 0;
  complete_time = pos 0;
  transfer_id = 0;
}

abbrev queue_calls : List QueueCall
queue_calls =
    insert (upload_at 9)
    ∷ insert (upload_at 3)
    ∷ update 1 (pos 3) 0 (pos 9) (pos 10)
    ∷ remove 2
    ∷ []

run_calls-IsQueue_example : IsQueue (queue (Calls.run_calls queue_calls no_control))
run_calls-IsQueue_example = run_calls-IsQueue queue_calls no_control (omega arith) (tt, tt, tt)

find_request-run_calls_example :
    find_request (Calls.run_calls queue_calls no_control).transfer_requests 1
    ≡ table_calls queue_calls 0 1 (find_request no_control.transfer_requests 1)
find_request-run_calls_example =
    find_request-run_calls queue_calls no_control 1 (omega arith) (tt, tt, tt)

abbrev stored_events : List Event
stored_events =
    record { event_code = constant event_boot; command_key = none }
    ∷ record { event_code = other (codes "X ACME"); command_key = some (codes "k1") }
    ∷ []

abbrev stored_data : OtherData
stored_data = record {
  periodic_inform_time = pos 86400;
  scheduled_inform_time = none;
  scheduled_inform_command_key = none;
  reboot_command_key = some (codes "r1,r2");
  retry_count = pos 2;
}
