-- ===== src/Store/Struct.antt =====
-- dm_target_implementation/PCLINUX/dm_target_dataManagement/src/DM_DAT1_ParameterData.c: the static
-- variables of the control data.
use tr069agent.Prelude.{ℕ, Bool, false, Option, none, List, [], Bytes}
use tr069agent.Prelude.Int.{ℤ, pos}
use tr069agent.Event.{Event}
use tr069agent.Transfer.{TransferRequest}

-- dm_engine/inc/DM_ENG_DownloadRequest.h: the file type, and the names and values of arguments, if
-- any are given.
pub record DownloadRequest : Type 0 where
  pub file_type : Bytes
  pub args : Option (List (Bytes × Option Bytes))

pub record Control : Type 0 where
  pub events : List Event
  pub periodic_inform_time : ℤ
  pub scheduled_inform_time : Option Bytes
  pub scheduled_inform_command_key : Option Bytes
  pub reboot_command_key : Option Bytes
  pub transfer_requests : List TransferRequest
  pub last_transfer_id : ℕ
  pub download_requests : List DownloadRequest
  pub retry_count : ℕ
  pub control_data_changed : Bool

-- The initial values.
abbrev pub no_control : Control
no_control = record {
  events = [];
  periodic_inform_time = pos 0;
  scheduled_inform_time = none;
  scheduled_inform_command_key = none;
  reboot_command_key = none;
  transfer_requests = [];
  last_transfer_id = 0;
  download_requests = [];
  retry_count = 0;
  control_data_changed = false;
}
