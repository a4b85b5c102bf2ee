-- ===== src/Manager/Transfers.antt =====
-- dm_engine/src/DM_ENG_ParameterManager.c: `manageTransferRequest`.
use tr069agent.Prelude.{
  ℕ, ◌+◌, ◌==◌, ◌≡◌, ◌≢◌, refl, ap, ◌∙◌, true, false, Option, none, some, List, [], ◌∷◌,
  if◌then◌else◌, Bool-cases, inl, inr, Bytes, arith,
}
use tr069agent.Prelude.Int.{pos, leb_ℤ}
use tr069agent.Transfer.{TransferRequest, insert_request}
use tr069agent.Store.Struct.{Control}
use tr069agent.Store.Transfers.{
  next_id, insert_transfer_request, change_request, remove_request, remove_transfer_request,
  with_requests,
}
use tr069agent.Store.Transfers.Order.{HasOtherId}
use tr069agent.Manager.{not_yet_started, in_progress}

-- What is answered to the ACS: 0 if the transfer is done or 1, with the times, or 0.
pub record TransferResult : Type 0 where
  pub status : ℕ
  pub start_time : ℕ
  pub complete_time : ℕ

-- The clock at the call, at the start and at the end, and the device: 1 is a transfer that goes on in the
-- background.
pub record TransferWorld : Type 0 where
  pub now : ℕ
  pub start : ℕ
  pub complete : ℕ
  pub apply : TransferRequest → ℕ

unfoldable pub key_or_empty : Option Bytes → Bytes
key_or_empty none = []
key_or_empty (some k) = k

-- The request in the queue: NULL is the key of autonomous transfers.
unfoldable pub queued_request : ℕ → ℕ → TransferRequest → TransferRequest
unfolding key_or_empty
queued_request now delay tr = record tr {
  state = not_yet_started;
  transfer_time = pos (now + delay);
  command_key = some (key_or_empty tr.command_key);
  announce_url = none;
  fault_code = 0;
  start_time = pos 0;
  complete_time = pos 0;
}

unfoldable pub mark_in_progress : TransferRequest → TransferRequest
mark_in_progress tr = record tr { state = in_progress }

-- The request that is carried out at once stands in the queue meanwhile.
unfoldable pub started_request : Control → ℕ → TransferRequest → Control × TransferRequest
unfolding change_request mark_in_progress with_requests
started_request c id tr = elim (change_request mark_in_progress c.transfer_requests id) [
  | none ↦ (c, tr)
  | some (trs, started) ↦ (record c { transfer_requests = trs }, started)
]

unfoldable pub result_of : ℕ → ℕ → ℕ → ℕ × Option TransferResult
result_of res start complete =
    if res == 0
    then (0, some (record { status = 0; start_time = start; complete_time = complete }))
    else if res == 1
    then (0, some (record { status = 1; start_time = start; complete_time = 0 }))
    else (res, none)

unfoldable pub manage_transfer_request :
    TransferWorld → ℕ → TransferRequest → Control → ℕ × Option TransferResult × Control
unfolding next_id insert_transfer_request queued_request started_request remove_transfer_request
    result_of
manage_transfer_request world delay tr c =
    let id = next_id c.last_transfer_id in
    let c₁ = insert_transfer_request c (queued_request world.now delay tr) in
    if delay == 0
    then (let (c₂, started) = started_request c₁ id tr in
        let res = world.apply started in
        let (code, result) = result_of res world.start world.complete in
        (code, result, if res == 1 then c₂ else remove_transfer_request c₂ id))
    else (0, some (record { status = 1; start_time = 0; complete_time = 0 }), c₁)

change_request-insert_request :
    (f : TransferRequest → TransferRequest) (trs : List TransferRequest) (tr : TransferRequest)
    → HasOtherId tr.transfer_id trs
    → (f tr).transfer_time ≡ tr.transfer_time
    → change_request f (insert_request trs tr) tr.transfer_id
      ≡ some (insert_request trs (f tr), f tr)
unfolding change_request insert_request
change_request-insert_request f [] tr other same = ground arith
change_request-insert_request f (x ∷ trs) tr other same =
    elim (Bool-cases (leb_ℤ x.transfer_time tr.transfer_time)) [
      | inl before ↦
          let ih = change_request-insert_request f trs tr other.1 same in
          let before' : leb_ℤ x.transfer_time (f tr).transfer_time ≡ true =
            ap (leb_ℤ x.transfer_time) same ∙ before in
          ground (arith, ih, before, before', other.0)
      | inr behind ↦
          let behind' : leb_ℤ x.transfer_time (f tr).transfer_time ≡ false =
            ap (leb_ℤ x.transfer_time) same ∙ behind in
          ground (arith, behind, behind')
    ]

remove_request-insert_request :
    (trs : List TransferRequest) (tr : TransferRequest)
    → HasOtherId tr.transfer_id trs
    → remove_request (insert_request trs tr) tr.transfer_id ≡ some trs
unfolding remove_request insert_request
remove_request-insert_request [] tr other = ground arith
remove_request-insert_request (x ∷ trs) tr other =
    ground (arith, remove_request-insert_request trs tr other.1, other.0)

-- A transfer without delay that the device does not leave in the background is in the queue no more: the
-- queue is the one before the call, and the number of the request is used up. No request has that
-- number yet.
pub manage_transfer_request_lem :
    (world : TransferWorld) (tr : TransferRequest) (c : Control)
    → HasOtherId (next_id c.last_transfer_id) c.transfer_requests
    → ((x : TransferRequest) → world.apply x ≢ 1)
    → ((manage_transfer_request world 0 tr c).2.transfer_requests ≡ c.transfer_requests)
      × ((manage_transfer_request world 0 tr c).2.last_transfer_id ≡ next_id c.last_transfer_id)
unfolding manage_transfer_request insert_transfer_request started_request remove_transfer_request
    with_requests mark_in_progress queued_request result_of
manage_transfer_request_lem world tr c other sync =
    let id = next_id c.last_transfer_id in
    let q : TransferRequest = record (queued_request world.now 0 tr) { transfer_id = id } in
    let changed = change_request-insert_request mark_in_progress c.transfer_requests q other refl in
    let gone = remove_request-insert_request c.transfer_requests (mark_in_progress q) other in
    (
      ground (arith, changed, gone, sync (mark_in_progress q)),
      ground (arith, changed, gone, sync (mark_in_progress q)),
    )
