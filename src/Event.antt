-- ===== src/Event.antt =====
-- dm_engine/src/DM_ENG_EventStruct.c: the events of an Inform message.
use tr069agent.Prelude.{
  Bool, true, false, Option, none, some, List, [], ◌∷◌, if◌then◌else◌, Bytes, codes, str_eq,
}
use tr069agent.Common.CommaList.{has_item}

abbrev pub event_bootstrap : Bytes
event_bootstrap = codes "0 BOOTSTRAP"

abbrev pub event_boot : Bytes
event_boot = codes "1 BOOT"

abbrev pub event_periodic : Bytes
event_periodic = codes "2 PERIODIC"

abbrev pub event_scheduled : Bytes
event_scheduled = codes "3 SCHEDULED"

abbrev pub event_value_change : Bytes
event_value_change = codes "4 VALUE CHANGE"

abbrev pub event_kicked : Bytes
event_kicked = codes "5 KICKED"

abbrev pub event_connection_request : Bytes
event_connection_request = codes "6 CONNECTION REQUEST"

abbrev pub event_transfer_complete : Bytes
event_transfer_complete = codes "7 TRANSFER COMPLETE"

abbrev pub event_diagnostics_complete : Bytes
event_diagnostics_complete = codes "8 DIAGNOSTICS COMPLETE"

abbrev pub event_request_download : Bytes
event_request_download = codes "9 REQUEST DOWNLOAD"

abbrev pub event_autonomous_transfer_complete : Bytes
event_autonomous_transfer_complete = codes "10 AUTONOMOUS TRANSFER COMPLETE"

abbrev pub event_m_reboot : Bytes
event_m_reboot = codes "M Reboot"

abbrev pub event_m_schedule_inform : Bytes
event_m_schedule_inform = codes "M ScheduleInform"

abbrev pub event_m_download : Bytes
event_m_download = codes "M Download"

abbrev pub event_m_upload : Bytes
event_m_upload = codes "M Upload"

abbrev pub event_codes : List Bytes
event_codes =
    event_bootstrap ∷ event_boot ∷ event_periodic ∷ event_scheduled ∷ event_value_change
    ∷ event_kicked ∷ event_connection_request ∷ event_transfer_complete ∷ event_diagnostics_complete
    ∷ event_request_download ∷ event_autonomous_transfer_complete ∷ event_m_reboot
    ∷ event_m_schedule_inform ∷ event_m_download ∷ event_m_upload ∷ []

-- A pointer to a code: one of the constants, or a text elsewhere in memory.
pub data EventCode : Type 0 where
  constant other : Bytes → EventCode

unfoldable pub code_text : EventCode → Bytes
code_text (constant s) = s
code_text (other s) = s

-- Every struct has a copy of its own of a text that is no constant, so that the pointers of two
-- structs, or of a struct and an argument, are equal only for constants.
unfoldable pub same_code : EventCode → EventCode → Bool
same_code (constant a) (constant b) = str_eq a b
same_code _ _ = false

unfoldable pub intern_event_code : Bytes → EventCode
unfolding has_item
intern_event_code ec = if has_item event_codes ec then constant ec else other ec

pub record Event : Type 0 where
  pub event_code : EventCode
  pub command_key : Option Bytes

unfoldable pub new_event : EventCode → Option Bytes → Event
unfolding intern_event_code code_text
new_event ec ck = record { event_code = intern_event_code (code_text ec); command_key = ck }

-- `NULL` keys are equal, and equal texts.
unfoldable pub same_key : Option Bytes → Option Bytes → Bool
unfolding str_eq
same_key none none = true
same_key (some a) (some b) = str_eq a b
same_key _ _ = false
