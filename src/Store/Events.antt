-- ===== src/Store/Events.antt =====
-- dm_target_implementation/PCLINUX/dm_target_dataManagement/src/DM_DAT1_ParameterData.c: the events that
-- the next Inform message reports.
pub mod Once
pub mod Reported
use tr069agent.Prelude.{
  Bool, true, false, ◌&&◌, ◌||◌, Option, List, [], ◌∷◌, ◌++◌, if◌then◌else◌, Bytes, str_eq,
}
use tr069agent.Event.{EventCode, code_text, same_code, Event, new_event, same_key}
use tr069agent.Store.Struct.{Control}

unfoldable pub has_event_code : List Event → Bytes → Bool
unfolding code_text str_eq
has_event_code [] ec = false
has_event_code (e ∷ es) ec = str_eq (code_text e.event_code) ec || has_event_code es ec

unfoldable pub is_in_events : Control → Bytes → Bool
unfolding has_event_code
is_in_events c ec = has_event_code c.events ec

unfoldable pub is_event : EventCode → Option Bytes → Event → Bool
unfolding same_code same_key
is_event ec ck e = same_code e.event_code ec && same_key e.command_key ck

unfoldable pub has_event : List Event → EventCode → Option Bytes → Bool
unfolding is_event
has_event [] ec ck = false
has_event (e ∷ es) ec ck = is_event ec ck e || has_event es ec ck

unfoldable pub add_event : Control → EventCode → Option Bytes → Control
unfolding has_event new_event
add_event c ec ck =
    if has_event c.events ec ck
    then c
    else record c { events = c.events ++ new_event ec ck ∷ []; control_data_changed = true }

-- The events that are kept, and whether one is taken out.
unfoldable pub without_code : List Event → EventCode → List Event × Bool
unfolding same_code
without_code [] ec = ([], false)
without_code (e ∷ es) ec =
    let (kept, removed) = without_code es ec in
    if same_code e.event_code ec then (kept, true) else (e ∷ kept, removed)

unfoldable pub delete_event : Control → EventCode → Control
unfolding without_code
delete_event c ec =
    let (kept, removed) = without_code c.events ec in
    record c { events = kept; control_data_changed = removed || c.control_data_changed }

unfoldable pub delete_all_events : Control → Control
delete_all_events c = record c { events = []; control_data_changed = true }
