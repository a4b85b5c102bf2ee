-- ===== src/Transfer.antt =====
-- dm_engine/src/DM_ENG_TransferRequest.c: the queue of the scheduled transfers, a linked list.
pub mod Order
use tr069agent.Prelude.{
  ℕ, Bool, true, false, Option, none, some, List, [], ◌∷◌, ◌+◌, leb, if◌then◌else◌, Bytes,
}
use tr069agent.Prelude.Int.{ℤ, pos, leb_ℤ}

-- Without the link to the next request.
pub record TransferRequest : Type 0 where
  pub is_download : Bool
  pub state : ℤ
  pub transfer_time : ℤ
  pub file_type : Option Bytes
  pub url : Option Bytes
  pub username : Option Bytes
  pub password : Option Bytes
  pub file_size : ℕ
  pub target_file_name : Option Bytes
  pub success_url : Option Bytes
  pub failure_url : Option Bytes
  pub command_key : Option Bytes
  pub announce_url : Option Bytes
  pub fault_code : ℕ
  pub start_time : ℤ
  pub complete_time : ℤ
  pub transfer_id : ℕ

unfoldable pub update_transfer_request : TransferRequest → ℤ → ℕ → ℤ → ℤ → TransferRequest
update_transfer_request dr state code start comp = record dr {
  state = state;
  fault_code = code;
  start_time = start;
  complete_time = comp;
}

-- The new request goes behind the requests that are not later.
unfoldable pub insert_request : List TransferRequest → TransferRequest → List TransferRequest
insert_request [] new_dr = new_dr ∷ []
insert_request (dr ∷ drs) new_dr =
    let rest = insert_request drs new_dr in
    if leb_ℤ dr.transfer_time new_dr.transfer_time then dr ∷ rest else new_dr ∷ dr ∷ drs

-- The loop compares with the request behind `dr` and starts at the first one.
unfoldable pub add_transfer_request : List TransferRequest → TransferRequest → List TransferRequest
unfolding insert_request
add_transfer_request [] new_dr = new_dr ∷ []
add_transfer_request (dr ∷ drs) new_dr = dr ∷ insert_request drs new_dr
