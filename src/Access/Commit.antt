-- ===== src/Access/Commit.antt =====
-- dm_engine/src/DM_ENG_ParameterManager.c: `commitParameter`, `unsetParameter` and `setParameterKey`.
use mathlib.Core.List.{reverse}
use tr069agent.Prelude.{
  ℕ, zero, suc, ◌==◌, Bool, true, false, ◌||◌, Option, none, some, List, [], ◌∷◌, if◌then◌else◌,
  Bytes, codes, str_eq,
}
use tr069agent.Common.CommaList.{has_item}
use tr069agent.Parameter.Struct.{Parameter, statistics, requested_state, text_at}
use tr069agent.Parameter.Name.{is_node, starts_with, is_diagnostics_state}
use tr069agent.Parameter.Value.{commit, cancel_change}
use tr069agent.Access.{
  bootstrap_order, statistics_setting, Manager, Platform, find, engine_at, replace, change,
  next_name,
}
use tr069agent.Access.Set.{set_checked_value}

-- Cancels the change of a parameter, and of the one it leads to if there was a change.
unfoldable pub unset_parameter : Platform → ℕ → Manager → Bytes → Option Manager
unfolding find is_node cancel_change engine_at replace next_name
unset_parameter pf zero m name = none
unset_parameter pf (suc fuel) m name = elim (find m name) [
  | none ↦ some m
  | some p ↦
      if is_node p.name
      then some m
      else let (cancelled, e) = cancel_change (engine_at m p) in
        elim (if cancelled then next_name pf p else none) [
          | none ↦ some (replace m e)
          | some next ↦ unset_parameter pf fuel (replace m e) next
        ]
]

abbrev pub diagnostics_object_suffix : Bytes
diagnostics_object_suffix = codes "Diagnostics."

-- The name up to the last "Diagnostics.", if there is one.
unfoldable pub diagnostics_object : Bytes → Option Bytes
unfolding starts_with
diagnostics_object [] = none
diagnostics_object (c ∷ cs) = elim (diagnostics_object cs) [
  | some s ↦ some (c ∷ s)
  | none ↦
      if starts_with diagnostics_object_suffix (c ∷ cs)
      then some diagnostics_object_suffix
      else none
]

-- The object is listed once, and starts if its state is set to Requested.
unfoldable pub request_diagnostics : List (Bytes × Bool) → Bytes → Bool → List (Bytes × Bool)
unfolding str_eq
request_diagnostics [] object start = (object, start) ∷ []
request_diagnostics ((o, s) ∷ os) object start =
    let rest = request_diagnostics os object start in
    if str_eq o object then (o, s || start) ∷ os else (o, s) ∷ rest

-- `strcmp` on the value of the state of a diagnostic: `none` is a crash on NULL.
unfoldable pub is_requested : Parameter → Option Bool
unfolding is_diagnostics_state str_eq text_at
is_requested p =
    if is_diagnostics_state p.name
    then (elim (text_at p.value) [ none ↦ none | some s ↦ some (str_eq s requested_state) ])
    else some false

-- The name given backwards, up to its last dot, which is not its first character.
unfoldable pub object_backwards : Bytes → Option Bytes
object_backwards [] = none
object_backwards (c ∷ []) = none
object_backwards (c ∷ d ∷ cs) =
    let rest = object_backwards (d ∷ cs) in if c == b'.' then some (c ∷ d ∷ cs) else rest

unfoldable pub is_statistics_object : Manager → Bytes → Bool
unfolding find
is_statistics_object m name = elim (find m name) [
  | none ↦ false
  | some p ↦ elim p.type [ statistics ↦ true | _ ↦ false ]
]

-- The object of statistics that a parameter controls: its own, or the one above.
unfoldable pub statistics_object : Manager → Bytes → Option Bytes
unfolding object_backwards is_statistics_object
statistics_object m name = elim (object_backwards (reverse name)) [
  | none ↦ none
  | some [] ↦ none
  | some (c ∷ cs) ↦
      if is_statistics_object m (reverse (c ∷ cs))
      then some (reverse (c ∷ cs))
      else (elim (object_backwards cs) [
        | none ↦ none
        | some o ↦ if is_statistics_object m (reverse o) then some (reverse o) else none
      ])
]

-- What a committed parameter brings about: a diagnostic, the next periodic Inform, a bootstrap, the
-- account at the ACS or the control of statistics.
unfoldable pub after_commit : Platform → Manager → Parameter → Option Manager
unfolding diagnostics_object request_diagnostics is_requested has_item str_eq statistics_object
after_commit pf m p = elim (diagnostics_object p.name) [
  | some object ↦ elim (is_requested p) [
    | none ↦ none
    | some start ↦ some (record m {
      diagnostics_requested = request_diagnostics m.diagnostics_requested object start;
    })
  ]
  | none ↦ some (
      if has_item pf.names.periodic_inform p.name
      then record m { periodic_inform_changed = true }
      else if str_eq p.name pf.names.acs_url
      then record m { acs_parameters_to_update = true; orders = bootstrap_order ∷ m.orders }
      else if has_item pf.names.acs_account p.name
      then record m { acs_parameters_to_update = true }
      else (elim (statistics_object m p.name) [
        | none ↦ m
        | some object ↦ record m { orders = statistics_setting object p.name ∷ m.orders }
      ]))
]

-- The redirection is followed if the parameter has changed or not. `none` is a crash, or no more fuel.
unfoldable pub commit_parameter : Platform → ℕ → Manager → Bytes → Option Manager
unfolding find is_node commit engine_at replace after_commit next_name
commit_parameter pf zero m name = none
commit_parameter pf (suc fuel) m name = elim (find m name) [
  | none ↦ some m
  | some p ↦
      if is_node p.name
      then some m
      else let e = commit pf.names.device_status (engine_at m p) in
        elim (after_commit pf (replace m e) e.param) [
          | none ↦ none
          | some m' ↦ elim (next_name pf p) [
            | none ↦ some m'
            | some next ↦ commit_parameter pf fuel m' next
          ]
        ]
]

-- A key of NULL changes nothing. The parameter is taken to be there: a missing one is a crash, `none`.
unfoldable pub set_parameter_key : Platform → Manager → Option Bytes → Option Manager
unfolding find set_checked_value change commit
set_parameter_key pf m none = some m
set_parameter_key pf m (some key) = elim (find m pf.names.parameter_key) [
  | none ↦ none
  | some p ↦
      let (code, argument, m') = set_checked_value pf m p (some key) in
      some (change m' pf.names.parameter_key (commit pf.names.device_status))
]
