-- ===== src/Notify.antt =====
-- dm_engine/src/DM_ENG_NotificationInterface.c: which values an Inform gives to each of the two entities that
-- listen, the ACS and the self-care application.
pub mod Withheld
mod Tests
use tr069agent.Prelude.{
  ℕ, ◌+◌, Bool, true, false, not, ◌&&◌, ◌||◌, Option, none, some, List, [], ◌∷◌, ltb, leb, ◌++◌,
  if◌then◌else◌, Bytes, str_eq, length,
}
use tr069agent.Parameter.Struct.{ParameterType}
use tr069agent.Event.{Event, code_text, event_value_change}
use tr069agent.Scheduler.{NotificationStatus, completed, cancelled}

-- Without the timestamp and the link to the next one.
pub record ParameterValue : Type 0 where
  pub name : Bytes
  pub type : ParameterType
  pub value : Option Bytes

-- `inform` is `none` if the pointer is NULL; its other three arguments are the same for all entities.
pub record Listener : Type 0 where
  pub known_parameters : List ParameterValue
  pub known_parameters_to_remove : List Bytes
  pub inform : Option (List Event → List ParameterValue → NotificationStatus)

-- `mandatoryParameterList`, and DM_ENG_PARAMETER_KEY_NAME.
pub record Mandatory : Type 0 where
  pub names : List Bytes
  pub parameter_key : Bytes

unfoldable pub find_value : List ParameterValue → Bytes → Option ParameterValue
unfolding str_eq
find_value [] name = none
find_value (v ∷ vs) name =
    let rest = find_value vs name in if str_eq v.name name then some v else rest

unfoldable pub is_listed : List Bytes → Bytes → Bool
unfolding str_eq
is_listed [] name = false
is_listed (n ∷ ns) name = str_eq n name || is_listed ns name

-- Two pointers are compared if one of them is NULL.
unfoldable pub differs : Option Bytes → Option Bytes → Bool
unfolding str_eq
differs none none = false
differs none (some b) = true
differs (some a) none = true
differs (some a) (some b) = not (str_eq a b)

-- The result of the loop over the values: whether there is a change, the values to give, and the
-- names of the known values that are done with.
pub record News : Type 0 where
  pub change : Bool
  pub values : List ParameterValue
  pub to_remove : List Bytes

-- The same for one value: whether it is given, and whether it is done with.
pub record Verdict : Type 0 where
  pub change : Bool
  pub given : Bool
  pub removed : Bool

-- With the known value of that name.
unfoldable pub verdict_of : Mandatory → Bool → ParameterValue → Option ParameterValue → Verdict
unfolding is_listed differs str_eq
verdict_of m change v none = record { change = true; given = true; removed = false }
verdict_of m change v (some k) =
    if is_listed m.names v.name
    then record {
      change = change || (not (str_eq v.name m.parameter_key) && differs v.value k.value);
      given = true;
      removed = false;
    }
    else record {
      change = change || differs v.value k.value;
      given = differs v.value k.value;
      removed = true;
    }

unfoldable pub news_of : Mandatory → List ParameterValue → Bool → List ParameterValue → News
unfolding find_value verdict_of
news_of m known change [] = record { change = change; values = []; to_remove = [] }
news_of m known change (v ∷ vs) =
    let d = verdict_of m change v (find_value known v.name) in
    let n = news_of m known d.change vs in
    record {
      change = n.change;
      values = if d.given then v ∷ n.values else n.values;
      to_remove = if d.removed then v.name ∷ n.to_remove else n.to_remove;
    }

-- The list without the first value of the name, and without one for each of the names.
unfoldable pub without_value : List ParameterValue → Bytes → List ParameterValue
unfolding str_eq
without_value [] name = []
without_value (v ∷ vs) name =
    let rest = without_value vs name in if str_eq v.name name then vs else v ∷ rest

unfoldable pub without_values : List ParameterValue → List Bytes → List ParameterValue
unfolding without_value
without_values known [] = known
without_values known (n ∷ ns) = without_values (without_value known n) ns

unfoldable pub clear_known_parameters : Listener → Listener
unfolding without_values
clear_known_parameters l = record l {
  known_parameters = without_values l.known_parameters l.known_parameters_to_remove;
  known_parameters_to_remove = [];
}

unfoldable pub is_value_change : Event → Bool
unfolding str_eq code_text
is_value_change e = str_eq (code_text e.event_code) event_value_change

-- The events without the first VALUE CHANGE.
unfoldable pub without_value_change : List Event → List Event
unfolding is_value_change
without_value_change [] = []
without_value_change (e ∷ es) =
    let rest = without_value_change es in if is_value_change e then es else e ∷ rest

-- The status, the listener afterwards, and what is sent. The events are the first and the others.
pub record Informed : Type 0 where
  pub status : NotificationStatus
  pub listener : Listener
  pub sent : Option (List Event × List ParameterValue)

unfoldable pub clear_if_completed : NotificationStatus → Listener → Listener
unfolding clear_known_parameters
clear_if_completed completed l = clear_known_parameters l
clear_if_completed _ l = l

-- All that is known is forgotten if no more than the mandatory parameters is.
unfoldable pub noted : Mandatory → News → Listener → Listener
noted m n l = record l {
  known_parameters =
      if leb (length l.known_parameters) (length m.names) then [] else l.known_parameters;
  known_parameters_to_remove = n.to_remove;
}

unfoldable pub inform_sent :
    Listener
    → (List Event → List ParameterValue → NotificationStatus)
    → List Event
    → List ParameterValue
    → Informed
unfolding clear_if_completed
inform_sent l send events vs =
    let res = send events vs in
    record { status = res; listener = clear_if_completed res l; sent = some (events, vs) }

unfoldable pub inform_unsent : Listener → Informed
unfolding clear_if_completed
inform_unsent l = record {
  status = completed;
  listener = clear_if_completed completed l;
  sent = none;
}

-- The call of the entity, where something is known of what it set itself.
unfoldable pub inform_news :
    Mandatory
    → Event
    → List Event
    → List ParameterValue
    → Listener
    → (List Event → List ParameterValue → NotificationStatus)
    → Informed
unfolding news_of is_value_change without_value_change noted inform_sent inform_unsent
inform_news m e es vs l send =
    let n = news_of m l.known_parameters false vs in
    let l' = noted m n l in
    let events = if n.change then e ∷ es else without_value_change (e ∷ es) in
    if (n.change || ltb 0 (length es)) || not (is_value_change e)
    then inform_sent l' send events n.values
    else inform_unsent l'

-- All values are given if nothing is known.
unfoldable pub inform_known :
    Mandatory
    → Event
    → List Event
    → List ParameterValue
    → Listener
    → (List Event → List ParameterValue → NotificationStatus)
    → List ParameterValue
    → Informed
unfolding inform_news
inform_known m e es vs l send [] = record {
  status = send (e ∷ es) vs;
  listener = l;
  sent = some (e ∷ es, vs);
}
inform_known m e es vs l send (k ∷ known) = inform_news m e es vs l send

unfoldable pub inform_listener :
    Mandatory
    → Event
    → List Event
    → List ParameterValue
    → Listener
    → (List Event → List ParameterValue → NotificationStatus)
    → Informed
unfolding inform_known
inform_listener m e es vs l send = inform_known m e es vs l send l.known_parameters

unfoldable pub inform_entity :
    Mandatory → Event → List Event → List ParameterValue → Option Listener → Option Informed
unfolding inform_listener
inform_entity m e es vs none = none
inform_entity m e es vs (some l) = elim l.inform [
  | none ↦ none
  | some send ↦ some (inform_listener m e es vs l send)
]

unfoldable pub listener_after : Option Listener → Option Informed → Option Listener
listener_after l none = l
listener_after l (some i) = some i.listener

-- The two listeners, the ACS first: only its status counts.
unfoldable pub inform :
    Mandatory
    → Event
    → List Event
    → List ParameterValue
    → Option Listener × Option Listener
    → NotificationStatus × Option Listener × Option Listener
unfolding inform_entity listener_after
inform m e es vs (acs, self_care) =
    let a = inform_entity m e es vs acs in
    let s = inform_entity m e es vs self_care in
    (
      elim a [ none ↦ cancelled | some i ↦ i.status ],
      listener_after acs a,
      listener_after self_care s,
    )

unfoldable pub is_interface_ready : Option Listener × Option Listener → Bool
is_interface_ready (none, none) = false
is_interface_ready (none, some l) = true
is_interface_ready (some l, s) = true

-- The values that the entity set and that Informs give. The parameter manager is `is_inform_parameter` and
-- `load`, which gives a parameter with its value.
unfoldable pub inform_values : (Bytes → Bool) → List ParameterValue → List ParameterValue
inform_values is_inform_parameter [] = []
inform_values is_inform_parameter (v ∷ vs) =
    let rest = inform_values is_inform_parameter vs in
    if is_inform_parameter v.name then v ∷ rest else rest

unfoldable pub with_mandatory :
    (Bytes → Option ParameterValue) → List ParameterValue → Bytes → List ParameterValue
unfolding find_value
with_mandatory load known name = elim (find_value known name) [
  | some v ↦ known
  | none ↦ elim (load name) [ none ↦ known | some v ↦ known ++ v ∷ [] ]
]

unfoldable pub with_all_mandatory :
    (Bytes → Option ParameterValue) → List ParameterValue → List Bytes → List ParameterValue
unfolding with_mandatory
with_all_mandatory load known [] = known
with_all_mandatory load known (n ∷ ns) = with_all_mandatory load (with_mandatory load known n) ns

unfoldable pub set_known_parameter_list :
    (Bytes → Bool)
    → (Bytes → Option ParameterValue)
    → List Bytes
    → List ParameterValue
    → Option Listener
    → Option Listener
unfolding inform_values with_all_mandatory
set_known_parameter_list is_inform_parameter load names vs none = none
set_known_parameter_list is_inform_parameter load names vs (some l) = some (record l {
  known_parameters = with_all_mandatory load (inform_values is_inform_parameter vs) names;
})
