-- ===== src/Manager/Results.antt =====
-- dm_engine/src/DM_ENG_ParameterManager.c: the functions that empty the queues of transfers and of
-- downloads, and `getAllQueuedTransfers`.
use tr069agent.Prelude.{
  ℕ, ◌≡◌, Bool, Bool-cases, inl, inr, Option, some, List, [], ◌∷◌, map, ◌++◌, sym, ◌≢◌,
  if◌then◌else◌, Bytes, refl, ap, ◌∙◌, arith, All,
}
use tr069agent.Prelude.Int.{ℤ}
use tr069agent.Transfer.{TransferRequest}
use tr069agent.Store.Struct.{Control, DownloadRequest}
use tr069agent.Store.Transfers.{
  remove_request, remove_transfer_request, remove_first_download_request, with_requests,
}
use tr069agent.Store.Transfers.Order.{HasOtherId, HasDistinctIds}
use tr069agent.Manager.{has_state, completed, sync}

-- Without the link to the next one.
pub record AllQueuedTransfer : Type 0 where
  pub is_download : Bool
  pub state : ℤ
  pub file_type : Option Bytes
  pub file_size : ℕ
  pub target_file_name : Option Bytes
  pub command_key : Option Bytes

unfoldable queued_transfer : TransferRequest → AllQueuedTransfer
queued_transfer tr = record {
  is_download = tr.is_download;
  state = tr.state;
  file_type = tr.file_type;
  file_size = tr.file_size;
  target_file_name = tr.target_file_name;
  command_key = tr.command_key;
}

unfoldable get_all_queued_transfers : Control → List AllQueuedTransfer
unfolding queued_transfer
get_all_queued_transfers c = map queued_transfer c.transfer_requests

-- The loop takes the link to the next request before it removes one by its number.
unfoldable pub remove_results : List TransferRequest → Control → Control
unfolding has_state remove_transfer_request
remove_results [] c = c
remove_results (tr ∷ trs) c =
    remove_results trs
      (if has_state completed tr then remove_transfer_request c tr.transfer_id else c)

unfoldable pub remove_all_transfer_results : Control → Control
unfolding remove_results sync
remove_all_transfer_results c = sync (remove_results c.transfer_requests c)

-- One request is removed for each that was in the queue.
unfoldable pub remove_downloads : List DownloadRequest → Control → Control
unfolding remove_first_download_request
remove_downloads [] c = c
remove_downloads (dr ∷ drs) c = remove_downloads drs (remove_first_download_request c)

unfoldable pub remove_all_download_requests : Control → Control
unfolding remove_downloads sync
remove_all_download_requests c = sync (remove_downloads c.download_requests c)

-- The requests that are not completed.
abbrev pub not_completed : List TransferRequest → List TransferRequest
not_completed [] = []
not_completed (tr ∷ trs) =
    if has_state completed tr then not_completed trs else tr ∷ not_completed trs

abbrev AreApart : List TransferRequest → List TransferRequest → Type 0
AreApart kept trs = All (λ x. HasOtherId x.transfer_id kept) trs

remove_request-append :
    (kept trs : List TransferRequest) (tr : TransferRequest)
    → HasOtherId tr.transfer_id kept
    → remove_request (kept ++ tr ∷ trs) tr.transfer_id ≡ some (kept ++ trs)
unfolding remove_request
remove_request-append [] trs tr other = ground arith
remove_request-append (x ∷ kept) trs tr other =
    ground (arith, remove_request-append kept trs tr other.1, other.0)

append_one :
    (kept trs : List TransferRequest) (tr : TransferRequest)
    → kept ++ tr ∷ trs ≡ (kept ++ tr ∷ []) ++ trs
append_one [] trs tr = refl
append_one (x ∷ kept) trs tr = ap (◌∷◌ x) (append_one kept trs tr)

HasOtherId-append_one :
    (id : ℕ) (kept : List TransferRequest) (tr : TransferRequest)
    → HasOtherId id kept
    → tr.transfer_id ≢ id
    → HasOtherId id (kept ++ tr ∷ [])
HasOtherId-append_one id [] tr other ne = (ne, tt)
HasOtherId-append_one id (x ∷ kept) tr other ne =
    (other.0, HasOtherId-append_one id kept tr other.1 ne)

AreApart-append_one :
    (kept trs : List TransferRequest) (tr : TransferRequest)
    → AreApart kept trs
    → HasOtherId tr.transfer_id trs
    → AreApart (kept ++ tr ∷ []) trs
AreApart-append_one kept [] tr apart other = tt
AreApart-append_one kept (x ∷ trs) tr apart other = (
  HasOtherId-append_one x.transfer_id kept tr apart.0 (λ e. other.0 (sym e)),
  AreApart-append_one kept trs tr apart.1 other.1,
)

remove_transfer_request-append :
    (kept trs : List TransferRequest) (tr : TransferRequest) (c : Control)
    → c.transfer_requests ≡ kept ++ tr ∷ trs
    → HasOtherId tr.transfer_id kept
    → (remove_transfer_request c tr.transfer_id).transfer_requests ≡ kept ++ trs
unfolding remove_transfer_request with_requests
remove_transfer_request-append kept trs tr c e other =
    ap (λ q. (with_requests c q).transfer_requests)
      (ap (λ l. remove_request l tr.transfer_id) e ∙ remove_request-append kept trs tr other)

remove_results-append :
    (kept trs : List TransferRequest) (c : Control)
    → c.transfer_requests ≡ kept ++ trs
    → HasDistinctIds trs
    → AreApart kept trs
    → (remove_results trs c).transfer_requests ≡ kept ++ not_completed trs
unfolding remove_results
remove_results-append kept [] c e distinct apart = e
remove_results-append kept (tr ∷ trs) c e distinct apart =
    let left : Bool → List TransferRequest = λ b.
      (remove_results trs
        (if b then remove_transfer_request c tr.transfer_id else c)).transfer_requests in
    let right : Bool → List TransferRequest =
      λ b. kept ++ (if b then not_completed trs else tr ∷ not_completed trs) in
    elim (Bool-cases (has_state completed tr)) [
      | inl y ↦
          ap left y
          ∙ remove_results-append kept trs (remove_transfer_request c tr.transfer_id)
              (remove_transfer_request-append kept trs tr c e apart.0) distinct.1 apart.1
          ∙ sym (ap right y)
      | inr n ↦
          ap left n
          ∙ remove_results-append (kept ++ tr ∷ []) trs c (e ∙ append_one kept trs tr) distinct.1
              (AreApart-append_one kept trs tr apart.1 distinct.0)
          ∙ sym (append_one kept (not_completed trs) tr)
          ∙ sym (ap right n)
    ]

AreApart-empty : (trs : List TransferRequest) → AreApart [] trs
AreApart-empty [] = tt
AreApart-empty (tr ∷ trs) = (tt, AreApart-empty trs)

remove_downloads-empty :
    (drs : List DownloadRequest) (c : Control)
    → c.download_requests ≡ drs
    → (remove_downloads drs c).download_requests ≡ []
unfolding remove_downloads remove_first_download_request
remove_downloads-empty [] c e = e
remove_downloads-empty (dr ∷ drs) c e = rw e (remove_downloads-empty drs _ refl)

-- If the numbers of the requests are distinct, removing all results takes the completed requests out of
-- the queue and leaves the others in their order. Removing all downloads empties their queue.
pub remove_all_transfer_results_lem :
    (c : Control)
    → HasDistinctIds c.transfer_requests
    → ((remove_all_transfer_results c).transfer_requests ≡ not_completed c.transfer_requests)
      × ((remove_all_download_requests c).download_requests ≡ [])
unfolding remove_all_transfer_results remove_all_download_requests sync
remove_all_transfer_results_lem c distinct = (
  remove_results-append [] c.transfer_requests c refl distinct (AreApart-empty c.transfer_requests),
  remove_downloads-empty c.download_requests c refl,
)
