-- ===== src/Rpc/Tests.antt =====
-- The RPC methods on a small data model.
use tr069agent.Prelude.{true, false, none, some, List, [], ◌∷◌, ◌≡◌, refl, Bytes, codes, arith}
use tr069agent.Prelude.Int.{pos}
use tr069agent.Parameter.Struct.{Parameter, string, heap}
use tr069agent.Parameter.Name.{is_node}
use tr069agent.Parameter.Make.{new_defined_parameter}
use tr069agent.Store.Tree.{find_parameter, put_in}
use tr069agent.Access.{Manager, Platform, find, entity_acs, is_missing}
use mathlib.Core.List.{Memᴰ}
use tr069agent.Prelude.{◌↔◌, All, inl}
use tr069agent.Parameter.Struct.{empty}
use tr069agent.Entity.{default_access_list}
use tr069agent.Access.Lookup.{At}
use tr069agent.Rpc.Read.{got, Info, info_of, NamedValue, get_parameter_names, get_parameter_values}
use tr069agent.Rpc.Levels.{IsChild, get_parameter_names-IsChild}
use tr069agent.Rpc.Filtered.{IsFiltered, get_parameter_values-IsFiltered}
use tr069agent.Rpc.Attributes.{Request, set_parameter_attributes}
use tr069agent.Rpc.Rollback.{set_parameter_attributes-IsRestorable}
use tr069agent.Access.Unset.{IsSettled}
use tr069agent.Rpc.Values.{Setting, Reply, set_parameter_values}
use tr069agent.Rpc.Atomic.{
  IsListed, first, set_parameter_values-IsSettled, set_parameter_values_atomic,
}
use tr069agent.Access.Set.{undetermined}
use tr069agent.Rpc.Applied.{IsGiven, set_parameter_values_applied}

abbrev leaf : Bytes → Bytes → Parameter
leaf name v = record (new_defined_parameter name string none false) {
  writable = true;
  min_value = pos 64;
  value = heap v;
}

abbrev manager : Manager
manager = record {
  tree = record {
    parameters = leaf (codes "LAN.Name") (codes "old") ∷ leaf (codes "LAN.Key") (codes "k") ∷ [];
    nb_parameters = pos 2;
    data_changed = false;
  };
  calls = [];
  orders = [];
  diagnostics_requested = [];
  periodic_inform_changed = false;
  acs_parameters_to_update = false;
}

abbrev platform : Platform
platform = record {
  names = record {
    prefix = codes "LAN.";
    parameter_key = codes "LAN.Key";
    periodic_inform = [];
    acs_url = codes "LAN.URL";
    acs_account = [];
    passwords = codes "LAN.Password" ∷ [];
    device_status = codes "LAN.Status";
  };
  device = record {
    read_value = λ n v. (0, none);
    send_values = λ vs. 0;
    add_instance = λ n. (0, 1);
    remove_instance = λ n i. 0;
  };
  entities = [];
  is_date_string = λ s. true;
  evaluate = λ m p. (none, m);
  load = λ m n b. (0, m);
}

abbrev setting : Bytes → Bytes → Setting
setting name v = record { name = name; value = some v }

abbrev bad : List Setting
bad = setting (codes "LAN.Name") (codes "new") ∷ setting (codes "LAN.None") (codes "x") ∷ []

abbrev good : List Setting
good = setting (codes "LAN.Name") (codes "new") ∷ []

abbrev reply : List Setting → Reply
reply ss = elim (set_parameter_values platform 3 manager entity_acs ss (some (codes "7"))) [
  | none ↦ record { code = 1; status = undetermined; faults = []; manager = manager }
  | some r ↦ r
]

replied_bad :
    set_parameter_values platform 3 manager entity_acs bad (some (codes "7")) ≡ some (reply bad)
unfolding set_parameter_values new_defined_parameter find_parameter put_in
replied_bad = refl

set_parameter_values-IsSettled_example : At IsSettled (reply bad).manager (codes "LAN.Name")
unfolding new_defined_parameter is_node
set_parameter_values-IsSettled_example =
    set_parameter_values-IsSettled platform 3 manager entity_acs bad (some (codes "7")) (reply bad)
      (codes "LAN.Name") refl refl (first refl) replied_bad

set_parameter_values_atomic_example :
    (IsListed (codes "LAN.Name") bad
      → At
          (λ p. IsSettled p × (p.value ≡ heap (codes "old")))
          (reply bad).manager
          (codes "LAN.Name"))
    × At (λ p. IsSettled p → p.value ≡ heap (codes "old")) (reply bad).manager (codes "LAN.Name")
unfolding new_defined_parameter find_parameter is_missing set_parameter_values put_in
set_parameter_values_atomic_example =
    set_parameter_values_atomic platform 3 manager entity_acs bad (some (codes "7")) (reply bad)
      (codes "LAN.Name") (leaf (codes "LAN.Name") (codes "old")) refl
      ((λ m p. refl), (λ m n b. refl)) refl refl refl (ground arith) replied_bad (λ e. ground arith)

replied_good :
    set_parameter_values platform 3 manager entity_acs good (some (codes "7")) ≡ some (reply good)
unfolding set_parameter_values new_defined_parameter find_parameter put_in
replied_good = refl

set_parameter_values_applied_example :
    At (λ p. p.value ≡ heap (codes "new")) (reply good).manager (codes "LAN.Name")
unfolding new_defined_parameter find_parameter set_parameter_values put_in
set_parameter_values_applied_example =
    set_parameter_values_applied platform 3 manager entity_acs good (some (codes "7")) (reply good)
      (codes "LAN.Name") (codes "new") refl ((λ m p. refl), (λ m n b. refl))
      ((λ n v e. ground arith), (λ m n e. ground arith)) (IsGiven.first refl refl) replied_good refl

abbrev rooted : Manager
rooted = record manager {
  tree = record manager.tree { parameters = leaf (codes "LAN.") [] ∷ manager.tree.parameters };
}

abbrev infos : List Info
infos =
    record { name = codes "LAN.Name"; writable = true }
    ∷ record { name = codes "LAN.Key"; writable = true }
    ∷ []

named : (get_parameter_names platform rooted entity_acs (some (codes "LAN.")) true).0 ≡ got infos
unfolding get_parameter_names new_defined_parameter find_parameter
named = refl

get_parameter_names-IsChild_example :
    let i : Info = record { name = codes "LAN.Key"; writable = true } in
    let after = (get_parameter_names platform rooted entity_acs (some (codes "LAN.")) true).1 in
    Memᴰ i infos
    ↔ ((p : Parameter) × Memᴰ p after.tree.parameters × IsChild (codes "LAN.") p × (i ≡ info_of p))
get_parameter_names-IsChild_example =
    get_parameter_names-IsChild platform rooted entity_acs (codes "LAN.") infos
      (record { name = codes "LAN.Key"; writable = true }) named

abbrev secrets : Manager
secrets = record manager {
  tree = record manager.tree { parameters = leaf (codes "LAN.Password") (codes "pw") ∷ [] };
}

abbrev shown : List NamedValue
shown = record { name = codes "LAN.Password"; type = string; value = empty } ∷ []

read_shown :
    (get_parameter_values platform secrets entity_acs (codes "LAN.Password" ∷ [])).0 ≡ got shown
unfolding get_parameter_values new_defined_parameter find_parameter
read_shown = refl

get_parameter_values-IsFiltered_example : All (IsFiltered platform) shown
get_parameter_values-IsFiltered_example =
    get_parameter_values-IsFiltered platform secrets entity_acs (codes "LAN.Password" ∷ []) shown
      refl read_shown

abbrev requests : List Request
requests =
    record { name = codes "LAN.Name"; notification = pos 1; access_list = some [] }
    ∷ record { name = codes "LAN.None"; notification = pos 1; access_list = none }
    ∷ []

abbrev restored : Manager
restored = elim (set_parameter_attributes platform manager entity_acs requests) [
  | none ↦ manager
  | some (code, m) ↦ m
]

requested : set_parameter_attributes platform manager entity_acs requests ≡ some (9005, restored)
unfolding set_parameter_attributes new_defined_parameter find_parameter put_in
requested = refl

set_parameter_attributes-IsRestorable_example :
    find restored (codes "LAN.Name") ≡ some (leaf (codes "LAN.Name") (codes "old"))
unfolding new_defined_parameter set_parameter_attributes find_parameter put_in
set_parameter_attributes-IsRestorable_example =
    set_parameter_attributes-IsRestorable platform manager restored entity_acs 9005 requests
      (codes "LAN.Name") (leaf (codes "LAN.Name") (codes "old")) ((λ m p. refl), (λ m n b. refl))
      (refl, (refl, tt)) (inl (refl, (refl, tt)))
      ((λ e. ground arith), (default_access_list, refl), refl) refl requested (λ e. ground arith)
