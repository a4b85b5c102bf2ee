-- ===== src/Notify/Tests.antt =====
-- What the listeners are told on concrete values.
use tr069agent.Prelude.{none, some, List, [], ◌∷◌, ◌≡◌, refl, codes, All, Bytes, str_eq}
use tr069agent.Parameter.Struct.{string}
use tr069agent.Event.{Event, constant, code_text, event_value_change}
use tr069agent.Scheduler.{NotificationStatus, session_opened}
use tr069agent.Notify.{
  ParameterValue, Listener, Mandatory, inform_listener, inform_known, inform_news, news_of,
  verdict_of, find_value, is_listed, differs, is_value_change, without_value_change, noted,
  inform_sent, inform_unsent,
}
use tr069agent.Notify.Withheld.{IsReported, inform_listener-IsReported}

abbrev value_of : Bytes → Bytes → ParameterValue
value_of name value = record { name = name; type = string; value = some value }

abbrev mandatory : Mandatory
mandatory = record { names = codes "LAN.Serial" ∷ []; parameter_key = codes "LAN.Key" }

abbrev known : List ParameterValue
known = value_of (codes "LAN.Url") (codes "a") ∷ value_of (codes "LAN.Serial") (codes "7") ∷ []

abbrev send : List Event → List ParameterValue → NotificationStatus
send es vs = session_opened

abbrev listener : Listener
listener = record { known_parameters = known; known_parameters_to_remove = []; inform = some send }

abbrev change_event : Event
change_event = record { event_code = constant event_value_change; command_key = none }

abbrev values : List ParameterValue
values = value_of (codes "LAN.Url") (codes "a") ∷ value_of (codes "LAN.Mode") (codes "b") ∷ []

inform_listener-IsReported_example :
    All
      (IsReported mandatory known (inform_listener mandatory change_event [] values listener send))
      values
inform_listener-IsReported_example =
    inform_listener-IsReported mandatory change_event [] values listener send

-- The address that the entity set itself is left out.
mode_alone :
    (inform_listener mandatory change_event [] values listener send).sent
    ≡ some (change_event ∷ [], value_of (codes "LAN.Mode") (codes "b") ∷ [])
unfolding inform_listener inform_known inform_news news_of verdict_of find_value is_listed differs
    is_value_change without_value_change noted inform_sent inform_unsent str_eq code_text
mode_alone = refl
