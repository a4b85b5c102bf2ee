-- ===== src/Manager/Tests.antt =====
-- Timeouts and due Informs on concrete data.
use tr069agent.Prelude.{
  ℕ, true, false, none, some, List, [], ◌∷◌, ◌≡◌, ◌≤◌, refl, codes, All, arith,
}
use tr069agent.Prelude.Int.{pos}
use tr069agent.Transfer.{TransferRequest}
use tr069agent.Store.Struct.{Control, no_control}
use tr069agent.Store.Schedule.Packed.{Inform, packed}
use tr069agent.Store.Schedule.Passed.{earlier}
use tr069agent.Manager.{add_scheduled, scheduled_fuel, next_periodic, has_state}
use tr069agent.Manager.Due.{IsDelivered, IsIdle, add_scheduled-IsDelivered}
use tr069agent.Store.Transfers.{next_id}
use tr069agent.Manager.Transfers.{
  TransferWorld, manage_transfer_request, manage_transfer_request_lem,
}
use tr069agent.Manager.Results.{
  remove_all_transfer_results, remove_all_download_requests, not_completed,
  remove_all_transfer_results_lem,
}
use tr069agent.Manager.Periodic.{InPhase, next_periodic-InPhase}

abbrev informs : List Inform
informs = (300, codes "soon") ∷ (900, codes "late") ∷ []

add_scheduled-IsDelivered_example :
    (s : Control) × (add_scheduled
        (scheduled_fuel (packed no_control informs false))
        500
        (packed no_control informs false)
      ≡ some s)
    × All (IsDelivered s) (earlier 500 informs)
    × IsIdle 500 s
add_scheduled-IsDelivered_example =
    add_scheduled-IsDelivered 500 no_control informs false (ground arith)

next_periodic-InPhase_example :
    let next = next_periodic 1000 60 (pos 130) in
    InPhase 60 next 130 × (1000 ≤ next) × (next ≤ 1060)
next_periodic-InPhase_example = next_periodic-InPhase 1000 60 129 (omega arith)

abbrev waiting_at : ℕ → TransferRequest
waiting_at t = record {
  is_download = true;
  state = pos 1;
  transfer_time = pos t;
  file_type = none;
  url = none;
  username = none;
  password = none;
  file_size = 0;
  target_file_name = none;
  success_url = none;
  failure_url = none;
  command_key = none;
  announce_url = none;
  fault_code = 0;
  start_time = pos 0;
  complete_time = pos 0;
  transfer_id = 1;
}

abbrev waiting : Control
waiting = record no_control {
  periodic_inform_time = pos 90;
  transfer_requests = waiting_at 40 ∷ [];
}

abbrev at_once : TransferWorld
at_once = record { now = 100; start = 101; complete = 105; apply = λ tr. 0 }

abbrev after_one : Control
after_one = record waiting { last_transfer_id = 1 }

manage_transfer_request_lem_example :
    ((manage_transfer_request at_once 0 (waiting_at 7) after_one).2.transfer_requests
      ≡ after_one.transfer_requests)
    × ((manage_transfer_request at_once 0 (waiting_at 7) after_one).2.last_transfer_id ≡ 2)
unfolding next_id
manage_transfer_request_lem_example =
    manage_transfer_request_lem at_once (waiting_at 7) after_one ((λ e. ground (arith, e)), tt)
      (λ x e. ground (arith, e))

abbrev one_done : Control
one_done = record no_control {
  transfer_requests =
      record (waiting_at 10) { state = pos 3; transfer_id = 4 }
      ∷ record (waiting_at 20) { transfer_id = 2 }
      ∷ record (waiting_at 30) { state = pos 3; transfer_id = 5 }
      ∷ [];
}

remove_all_transfer_results_lem_example :
    ((remove_all_transfer_results one_done).transfer_requests
      ≡ not_completed one_done.transfer_requests)
    × ((remove_all_download_requests one_done).download_requests ≡ [])
remove_all_transfer_results_lem_example = remove_all_transfer_results_lem one_done (
  (λ e. ground (arith, e), ((λ e. ground (arith, e)), tt)),
  (((λ e. ground (arith, e)), tt), (tt, tt)),
)

left_waiting :
    not_completed one_done.transfer_requests ≡ record (waiting_at 20) { transfer_id = 2 } ∷ []
unfolding has_state
left_waiting = refl
