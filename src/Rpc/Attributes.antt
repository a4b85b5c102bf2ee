-- ===== src/Rpc/Attributes.antt =====
-- dm_engine/src/DM_ENG_RPCInterface.c: `DM_ENG_SetParameterAttributes`.
use tr069agent.Prelude.{
  ℕ, ◌==◌, ◌||◌, ◌&&◌, not, Bool, false, Option, none, some, List, [], ◌∷◌, ◌++◌, if◌then◌else◌,
  Bytes,
}
use tr069agent.Prelude.Int.{ℤ, pos, negsuc}
use tr069agent.Parameter.Struct.{
  NotificationMode, off, passive, active, unspecified, Parameter, invalid_arguments,
}
use tr069agent.Parameter.Name.{has_two_dots, is_node}
use tr069agent.Parameter.Value.{set_attributes}
use tr069agent.Access.{
  Manager, Platform, entity_acs, request_denied, invalid_parameter_name, find, engine_at, replace,
  is_hidden,
}
use tr069agent.Rpc.Read.{ParameterAttributes, attributes_of, is_path, is_under}

-- The attributes to set: the notification is a number of the caller.
pub record Request : Type 0 where
  pub name : Bytes
  pub notification : ℤ
  pub access_list : Option (List Bytes)

-- -1 leaves the mode, as does the last one; `none` is any other number.
unfoldable pub mode_of : ℤ → Option NotificationMode
mode_of (pos n) =
    if n == 0
    then some off
    else if n == 1
    then some passive
    else if n == 2
    then some active
    else if n == 3
    then some unspecified
    else none
mode_of (negsuc n) = if n == 0 then some unspecified else none

-- The fault code, the attributes before each change, and the list with the flag of changed data.
pub record Changed : Type 0 where
  pub code : ℕ
  pub backs : List ParameterAttributes
  pub parameters : List Parameter
  pub data_changed : Bool

-- The parameters under a path, up to the first fault.
unfoldable pub set_under :
    NotificationMode → Option (List Bytes) → Bytes → Bool → List Parameter → Changed
unfolding is_under is_node is_hidden set_attributes attributes_of
set_under n l path saved [] = record { code = 0; backs = []; parameters = []; data_changed = saved }
set_under n l path saved (p ∷ ps) =
    let (code, e) = set_attributes (record { param = p; data_changed = saved; calls = [] }) n l in
    let rest = set_under n l path e.data_changed ps in
    let skipped = set_under n l path saved ps in
    if is_under path p && not (is_node p.name) && not (is_hidden p)
    then (if code == 0
        then record rest {
          backs = attributes_of p ∷ rest.backs;
          parameters = e.param ∷ rest.parameters;
        }
        else record {
          code = code;
          backs = attributes_of p ∷ [];
          parameters = e.param ∷ ps;
          data_changed = e.data_changed;
        })
    else record skipped { parameters = p ∷ skipped.parameters }

unfoldable pub set_path :
    Manager
    → NotificationMode
    → Option (List Bytes)
    → Bytes
    → ℕ × List ParameterAttributes × Manager
unfolding set_under
set_path m n l path =
    let changed = set_under n l path m.tree.data_changed m.tree.parameters in
    (
      changed.code,
      changed.backs,
      record m {
        tree = record m.tree {
          parameters = changed.parameters;
          data_changed = changed.data_changed;
        };
      },
    )

-- A single parameter.
unfoldable pub set_single :
    Manager
    → NotificationMode
    → Option (List Bytes)
    → Parameter
    → ℕ × List ParameterAttributes × Manager
unfolding set_attributes engine_at replace attributes_of
set_single m n l p =
    let (code, e) = set_attributes (engine_at m p) n l in (code, attributes_of p ∷ [], replace m e)

-- The attributes of a name that is loaded.
unfoldable pub set_loaded :
    Manager
    → NotificationMode
    → Option (List Bytes)
    → Bytes
    → ℕ × List ParameterAttributes × Manager
unfolding find is_path has_two_dots is_hidden set_path set_single
set_loaded m n l [] = set_path m n l []
set_loaded m n l (c ∷ cs) = elim (find m (c ∷ cs)) [
  | none ↦ (invalid_parameter_name, [], m)
  | some p ↦
      if has_two_dots (c ∷ cs) || is_hidden p
      then (invalid_parameter_name, [], m)
      else if is_path (c ∷ cs)
      then set_path m n l (c ∷ cs)
      else set_single m n l p
]

unfoldable pub request_one : Platform → Manager → Request → ℕ × List ParameterAttributes × Manager
unfolding mode_of set_loaded
request_one pf m r = elim (mode_of r.notification) [
  | none ↦ (invalid_arguments, [], m)
  | some n ↦
      let (code, m') = pf.load m r.name false in
      if code == 0 then set_loaded m' n r.access_list r.name else (code, [], m')
]

-- The loop over the requests, up to the first fault.
unfoldable pub request_all :
    Platform → Manager → List Request → ℕ × List ParameterAttributes × Manager
unfolding request_one
request_all pf m [] = (0, [], m)
request_all pf m (r ∷ rs) =
    let (code, backs, m') = request_one pf m r in
    let (code', backs', m'') = request_all pf m' rs in
    if code == 0 then (code', backs ++ backs', m'') else (code, backs, m')

-- The attributes are set back in the order of the changes. A name that is missing by then is a crash.
unfoldable pub restore : Manager → List ParameterAttributes → Option Manager
unfolding find set_attributes engine_at replace
restore m [] = some m
restore m (a ∷ rest) = elim (find m a.name) [
  | none ↦ none
  | some p ↦
      restore (replace m (set_attributes (engine_at m p) a.notification a.access_list).1) rest
]

-- Only the ACS may do so. `none` is a crash.
unfoldable pub set_parameter_attributes :
    Platform → Manager → ℕ → List Request → Option (ℕ × Manager)
unfolding request_all restore
set_parameter_attributes pf m entity rs =
    let (code, backs, m') = request_all pf m rs in
    if entity == entity_acs
    then (if code == 0
        then some (0, m')
        else (elim (restore m' backs) [ none ↦ none | some m'' ↦ some (code, m'') ]))
    else some (request_denied, m)
