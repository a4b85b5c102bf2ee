-- ===== src/Store/Transfers.antt =====
-- dm_target_implementation/PCLINUX/dm_target_dataManagement/src/DM_DAT1_ParameterData.c: the transfers and
-- the downloads that wait.
pub mod Calls
pub mod Order
pub mod Table
use tr069agent.Prelude.{
  ℕ, suc, ◌+◌, ◌%◌, ◌^◌, Bool, true, false, Option, none, some, List, [], ◌∷◌, ◌++◌, ◌==◌,
  if◌then◌else◌,
}
use tr069agent.Prelude.Int.{ℤ, leb_ℤ}
use tr069agent.Transfer.{TransferRequest, insert_request, update_transfer_request}
use tr069agent.Store.Struct.{Control, DownloadRequest}

-- `_lastTransferId` is an unsigned int.
unfoldable pub next_id : ℕ → ℕ
next_id n = (n + 1) % 2 ^ 32

-- The loop goes over the whole queue, from the first request on.
unfoldable pub insert_transfer_request : Control → TransferRequest → Control
unfolding next_id insert_request
insert_transfer_request c tr =
    let id = next_id c.last_transfer_id in
    record c {
      transfer_requests = insert_request c.transfer_requests (record tr { transfer_id = id });
      last_transfer_id = id;
      control_data_changed = true;
    }

-- The queue without the request, if there is one of that number.
unfoldable pub remove_request : List TransferRequest → ℕ → Option (List TransferRequest)
remove_request [] id = none
remove_request (tr ∷ trs) id =
    let rest = remove_request trs id in
    if tr.transfer_id == id
    then some trs
    else elim rest [ none ↦ none | some kept ↦ some (tr ∷ kept) ]

unfoldable pub with_requests : Control → Option (List TransferRequest) → Control
with_requests c none = c
with_requests c (some trs) = record c { transfer_requests = trs; control_data_changed = true }

unfoldable pub remove_transfer_request : Control → ℕ → Control
unfolding remove_request with_requests
remove_transfer_request c id = with_requests c (remove_request c.transfer_requests id)

-- The queue with a request changed, and that request.
unfoldable pub change_request :
    (TransferRequest → TransferRequest)
    → List TransferRequest
    → ℕ
    → Option (List TransferRequest × TransferRequest)
change_request f [] id = none
change_request f (tr ∷ trs) id =
    let rest = change_request f trs id in
    if tr.transfer_id == id
    then some (f tr ∷ trs, f tr)
    else elim rest [ none ↦ none | some (trs', found) ↦ some (tr ∷ trs', found) ]

-- The data, and the request that is returned.
unfoldable pub update_request : Control → ℕ → ℤ → ℕ → ℤ → ℤ → Control × Option TransferRequest
unfolding change_request with_requests update_transfer_request
update_request c id state code start comp =
    elim (change_request (λ tr. update_transfer_request tr state code start comp)
      c.transfer_requests id) [
        | none ↦ (c, none)
        | some (trs, tr) ↦ (with_requests c (some trs), some tr)
      ]

unfoldable pub add_download_request : Control → DownloadRequest → Control
add_download_request c dr = record c {
  download_requests = c.download_requests ++ dr ∷ [];
  control_data_changed = true;
}

unfoldable pub remove_first_download_request : Control → Control
remove_first_download_request c = elim c.download_requests [
  | [] ↦ c
  | dr ∷ drs ↦ record c { download_requests = drs; control_data_changed = true }
]
