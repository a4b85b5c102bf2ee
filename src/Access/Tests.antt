-- ===== src/Access/Tests.antt =====
-- Instances of objects on a small data model.
use tr069agent.Prelude.{
  ◌⊎◌, ℕ, ◌<◌, ◌^◌, ◌≡◌, ◌≢◌, refl, true, false, none, some, [], ◌∷◌, Bytes, codes, arith,
}
use tr069agent.Prelude.Int.{pos}
use tr069agent.Parameter.Struct.{Parameter, string, dm_only, computed}
use tr069agent.Parameter.Name.{starts_with}
use tr069agent.Parameter.Make.{new_defined_parameter}
use tr069agent.Store.Tree.{find_parameter, put_in}
use tr069agent.Access.{Manager, Platform, find, entity_acs, invalid_parameter_name}
use tr069agent.Access.Set.{Answer, undetermined, set_parameter_value}
use tr069agent.Access.Commit.{unset_parameter}
use tr069agent.Access.Ends.{set_parameter_value_ends, unset_parameter_ends}
use tr069agent.Access.Objects.{Added, add_object, delete_parameter_object, delete_from_device}
use tr069agent.Access.Objects.Numbers.{add_object_numbers}
use tr069agent.Access.Objects.Removed.{IsDeletable, delete_parameter_object_removes}

abbrev node : Bytes → Parameter
node name = record (new_defined_parameter name string none false) { writable = true }

abbrev hosts : Parameter
hosts = record (node (codes "LAN.Host.")) { min_value = pos 2 }

abbrev manager : Manager
manager = record {
  tree = record {
    parameters = node (codes "LAN.") ∷ hosts ∷ node (codes "LAN.Host..Name") ∷ [];
    nb_parameters = pos 3;
    data_changed = false;
  };
  calls = [];
  orders = [];
  diagnostics_requested = [];
  periodic_inform_changed = false;
  acs_parameters_to_update = false;
}

abbrev platform : Platform
platform = record {
  names = record {
    prefix = codes "LAN.";
    parameter_key = codes "LAN.Key";
    periodic_inform = [];
    acs_url = codes "LAN.URL";
    acs_account = [];
    passwords = [];
    device_status = codes "LAN.Status";
  };
  device = record {
    read_value = λ n v. (0, none);
    send_values = λ vs. 0;
    add_instance = λ n. (0, 1);
    remove_instance = λ n i. 0;
  };
  entities = [];
  is_date_string = λ s. true;
  evaluate = λ m p. (none, m);
  load = λ m n b. (0, m);
}

abbrev added : Added
added = elim (add_object platform manager entity_acs (codes "LAN.Host.")) [
  | none ↦ record { code = 1; number = none; status = undetermined; manager = manager }
  | some a ↦ a
]

answered : add_object platform manager entity_acs (codes "LAN.Host.") ≡ some added
unfolding add_object new_defined_parameter find_parameter put_in
answered = refl

add_object_numbers_example :
    (added.number ≡ some 3)
    × (3 < 2 ^ 31)
    × ((q : Parameter) × (find added.manager (codes "LAN.Host.") ≡ some q)
        × (q.storage_mode ≡ dm_only)
        × (q.min_value ≡ pos 3))
unfolding new_defined_parameter add_object find_parameter put_in
add_object_numbers_example =
    add_object_numbers platform manager entity_acs 2 (codes "LAN.Host.") hosts added refl refl refl
      (omega arith) answered refl

delete_parameter_object_removes_example :
    let object = codes "LAN.Host.3." in
    let r = delete_parameter_object platform added.manager entity_acs object in
    let IsGone = (name : Bytes) → starts_with object name ≡ true → find r.2 name ≡ none in
    (r.0 ≡ 0 → IsGone)
    × (r.0 ≢ 0
        → (r.2 ≡ added.manager)
          ⊎ (((p : Parameter) × (n : ℕ) × IsDeletable added.manager object p n
                × (delete_from_device platform entity_acs p n ≡ invalid_parameter_name))
              × IsGone))
delete_parameter_object_removes_example =
    delete_parameter_object_removes platform added.manager entity_acs (codes "LAN.Host.3.")

-- Two parameters that lead to each other.
abbrev loop : Bytes → Bytes → Parameter
loop name next = record (node name) { storage_mode = computed; definition = some next }

abbrev circular : Manager
circular = record manager {
  tree = record manager.tree {
    parameters = loop (codes "LAN.A") (codes "LAN.B") ∷ loop (codes "LAN.B") (codes "LAN.A") ∷ [];
  };
}

set_parameter_value_ends_example :
    (a : Answer) × (set_parameter_value platform 3 circular entity_acs
        (codes "LAN.A")
        (some (codes "1"))
        undetermined
        none
      ≡ some a)
set_parameter_value_ends_example =
    set_parameter_value_ends platform 3 circular entity_acs (codes "LAN.A") (some (codes "1"))
      undetermined none (λ m p. refl) (omega arith)

unset_parameter_ends_example :
    (m' : Manager) × (unset_parameter platform 3 circular (codes "LAN.A") ≡ some m')
unset_parameter_ends_example =
    unset_parameter_ends platform 3 circular (codes "LAN.A") (omega arith)
