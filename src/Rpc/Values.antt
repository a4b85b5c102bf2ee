-- ===== src/Rpc/Values.antt =====
-- dm_engine/src/DM_ENG_RPCInterface.c: `DM_ENG_SetParameterValues` by an entity other than the system.
use tr069agent.Prelude.{
  ℕ, ◌==◌, ◌||◌, ◌&&◌, Bool, true, false, Option, none, some, ◌>>=◌, List, [], ◌∷◌, ◌++◌,
  if◌then◌else◌, Bytes,
}
use tr069agent.Parameter.Struct.{invalid_arguments}
use tr069agent.Access.{Manager, Platform, SystemValue, entity_acs}
use tr069agent.Access.Set.{Status, undetermined, ready_to_apply, Answer, set_parameter_value}
use tr069agent.Access.Commit.{unset_parameter, commit_parameter, set_parameter_key}

-- A name and a value.
pub record Setting : Type 0 where
  pub name : Bytes
  pub value : Option Bytes

-- dm_engine/inc/DM_ENG_SetParameterValuesFault.h, without the text of the fault.
pub record Fault : Type 0 where
  pub name : Bytes
  pub code : ℕ

-- What the first loop has gathered: the status, the faults, the values for the system.
pub record Progress : Type 0 where
  pub manager : Manager
  pub status : Status
  pub faults : List Fault
  pub system_values : List SystemValue

unfoldable pub is_ready : Status → Bool
is_ready ready_to_apply = true
is_ready _ = false

unfoldable pub text_of : Option Bytes → Bytes
text_of none = []
text_of (some s) = s

-- What an answer other than a fault adds.
unfoldable pub accepted : Progress → Setting → Answer → Progress
unfolding is_ready text_of
accepted g s a = record g {
  manager = a.manager;
  status = if is_ready g.status then g.status else a.status;
  system_values =
      if a.code == 1
      then g.system_values
        ++ record { name = text_of a.system_name; value = s.value; argument = a.system_data } ∷ []
      else g.system_values;
}

unfoldable pub refused : Progress → Bytes → ℕ → Manager → Progress
refused g name code m = record g {
  manager = m;
  faults = g.faults ++ record { name = name; code = code } ∷ [];
}

-- A round of the first loop.
unfoldable pub set_one : Platform → ℕ → ℕ → Progress → Setting → Option Progress
unfolding set_parameter_value accepted refused
set_one pf fuel entity g s =
    let (loaded, m) = pf.load g.manager s.name false in
    if loaded == 0
    then (elim (set_parameter_value pf fuel m entity s.name s.value undetermined none) [
      | none ↦ none
      | some a ↦
          some (
            if a.code == 0 || a.code == 1
            then accepted g s a
            else refused g s.name a.code a.manager)
    ])
    else if loaded == 1
    then some (
        accepted g s (record {
          code = 1;
          status = undetermined;
          system_name = none;
          system_data = none;
          manager = m;
        }))
    else some (refused g s.name loaded m)

unfoldable pub set_each : Platform → ℕ → ℕ → Progress → List Setting → Option Progress
unfolding set_one
set_each pf fuel entity g [] = some g
set_each pf fuel entity g (s ∷ ss) =
    set_one pf fuel entity g s >>= λ g'. set_each pf fuel entity g' ss

unfoldable pub system_faults : List SystemValue → ℕ → List Fault
system_faults [] code = []
system_faults (v ∷ vs) code = record { name = v.name; code = code } ∷ system_faults vs code

unfoldable pub is_none {ℓ} : {A : Type ℓ} → List A → Bool
is_none [] = true
is_none (a ∷ others) = false

-- The values go to the system if there is no fault yet, and there are any; the faults then.
unfoldable pub set_system : Platform → Progress → List Fault
unfolding system_faults is_none
set_system pf g =
    if is_none g.faults
    then (if is_none g.system_values
        then []
        else let code = pf.device.send_values g.system_values in
          if code == 0 then [] else system_faults g.system_values code)
    else g.faults

-- The last loop.
unfoldable pub conclude : Platform → ℕ → Bool → Manager → List Setting → Option Manager
unfolding commit_parameter unset_parameter
conclude pf fuel success m [] = some m
conclude pf fuel success m (s ∷ ss) =
    (if success then commit_parameter pf fuel m s.name else unset_parameter pf fuel m s.name)
    >>= λ m'. conclude pf fuel success m' ss

-- The code is 0, or 9003 with the faults.
pub record Reply : Type 0 where
  pub code : ℕ
  pub status : Status
  pub faults : List Fault
  pub manager : Manager

-- The key of the ACS is set on success only.
unfoldable pub set_key : Platform → ℕ → Bool → Manager → Option Bytes → Option Manager
unfolding set_parameter_key
set_key pf entity success m key =
    if success && entity == entity_acs then set_parameter_key pf m key else some m

unfoldable pub set_parameter_values :
    Platform → ℕ → Manager → ℕ → List Setting → Option Bytes → Option Reply
unfolding set_each set_system set_key conclude is_none
set_parameter_values pf fuel m entity ss key =
    set_each pf fuel entity
      (record { manager = m; status = undetermined; faults = []; system_values = [] }) ss
    >>= λ g.
        let faults = set_system pf g in
        set_key pf entity (is_none faults) g.manager key >>= λ m'.
        conclude pf fuel (is_none faults) m' ss >>= λ m''. some (record {
          code = if is_none faults then 0 else invalid_arguments;
          status = g.status;
          faults = faults;
          manager = m'';
        })
