-- ===== src/Access/Set.antt =====
-- dm_engine/src/DM_ENG_ParameterManager.c: `setParameterValue`.
use tr069agent.Prelude.{
  ℕ, zero, suc, ◌==◌, Bool, true, false, not, ◌||◌, ◌&&◌, Option, none, some, if◌then◌else◌, Bytes,
}
use tr069agent.Entity.{belongs_to}
use tr069agent.Parameter.Struct.{Parameter}
use tr069agent.Parameter.Name.{is_node}
use tr069agent.Parameter.Value.{set_value, mark_being_evaluated, unmark_being_evaluated}
use tr069agent.Parameter.Check.{check_before_set_value}
use tr069agent.Access.{
  Manager, Platform, entity_system, internal_error, invalid_parameter_name, read_only_parameter,
  find, engine_at, replace, change, update_system_value, load_system_parameter, next_name,
  is_hidden,
}

-- dm_engine/inc/DM_ENG_ParameterStatus.h.
pub data Status : Type 0 where
  undetermined applied ready_to_apply : Status

unfoldable pub is_first : Status → Bool
is_first undetermined = true
is_first _ = false

-- The fault code, 0 or 1 where the system is to be told, and what the pointers of the caller get.
pub record Answer : Type 0 where
  pub code : ℕ
  pub status : Status
  pub system_name : Option Bytes
  pub system_data : Option Bytes
  pub manager : Manager

-- The fault code, the value of the definition and the manager.
unfoldable pub set_loaded_value :
    Platform → Manager → Parameter → Option Bytes → ℕ × Option Bytes × Manager
unfolding load_system_parameter set_value find replace engine_at
set_loaded_value pf m p v =
    let (code, argument, m') = load_system_parameter pf m p in
    if code == 0
    then (elim (find m' p.name) [
      | none ↦ (0, argument, m')
      | some q ↦
          let (to_system, e) = set_value (engine_at m' q) v in
          (if to_system then 1 else 0, argument, replace m' e)
    ])
    else (code, argument, m')

-- The value is tested, the present one is loaded, and the new one is set.
unfoldable pub set_checked_value :
    Platform → Manager → Parameter → Option Bytes → ℕ × Option Bytes × Manager
unfolding check_before_set_value set_loaded_value
set_checked_value pf m p v =
    let checked = check_before_set_value pf.is_date_string p v in
    if checked == 0 then set_loaded_value pf m p v else (checked, none, m)

unfoldable pub applied_status : Parameter → Status
applied_status p = if p.immediate_changes == 0 then ready_to_apply else applied

unfoldable pub unmarked : Manager → Bytes → Manager
unfolding change unmark_being_evaluated
unmarked m name = change m name unmark_being_evaluated

-- The parameter is taken for missing: a node, or hidden where the name is the caller's own.
unfoldable pub is_refused : ℕ → Status → Parameter → Bool
unfolding is_node is_first is_hidden
is_refused entity status p =
    is_node p.name || (is_first status && is_hidden p && not (entity == entity_system))

-- What is answered when the function returns before a value is tested or in its branch for the system;
-- the type given is not used.
unfoldable pub early_answer :
    Platform
    → Manager
    → ℕ
    → Bytes
    → Option Bytes
    → Status
    → Option Bytes
    → Parameter
    → Option Answer
unfolding is_refused belongs_to change unmarked update_system_value
early_answer pf m entity name v status sys p =
    let answer : ℕ → Manager → Option Answer = λ code m'. some (record {
      code = code;
      status = status;
      system_name = sys;
      system_data = none;
      manager = m';
    }) in
    if is_refused entity status p
    then answer invalid_parameter_name m
    else if entity == entity_system
    then answer 0 (change m name (update_system_value pf v true))
    else if not p.writable || not (belongs_to pf.entities entity p.access_list)
    then answer read_only_parameter m
    else if p.state.being_evaluated
    then answer internal_error (unmarked m name)
    else none

-- The parameter is marked, and its value tested and set.
unfoldable pub marked_set :
    Platform → Manager → Bytes → Option Bytes → Parameter → ℕ × Option Bytes × Manager
unfolding set_checked_value change mark_being_evaluated engine_at
marked_set pf m name v p =
    set_checked_value pf (change m name mark_being_evaluated)
      (mark_being_evaluated (engine_at m p)).param v

-- The redirection to follow once the value is set.
unfoldable pub redirection : Platform → ℕ → Parameter → Option Bytes
unfolding next_name
redirection pf code p = if code == 0 then next_name pf p else none

-- `none` is no fuel: a round for each name of a redirection.
unfoldable pub set_parameter_value :
    Platform → ℕ → Manager → ℕ → Bytes → Option Bytes → Status → Option Bytes → Option Answer
unfolding early_answer marked_set redirection unmarked applied_status find
set_parameter_value pf zero m entity name v status sys = none
set_parameter_value pf (suc fuel) m entity name v status sys = elim (find m name) [
  | none ↦ some (record {
    code = invalid_parameter_name;
    status = status;
    system_name = sys;
    system_data = none;
    manager = m;
  })
  | some p ↦ elim (early_answer pf m entity name v status sys p) [
    | some a ↦ some a
    | none ↦
        let (code, argument, m') = marked_set pf m name v p in
        elim (redirection pf code p) [
          | none ↦ some (record {
            code = code;
            status = applied_status p;
            system_name = some name;
            system_data = argument;
            manager = unmarked m' name;
          })
          | some next ↦
              elim (set_parameter_value pf fuel m' entity next v (applied_status p) (some name)) [
                | none ↦ none
                | some a ↦ some (record a { manager = unmarked a.manager name })
              ]
        ]
  ]
]
