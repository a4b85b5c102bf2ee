-- ===== src/Store/Tree/Tests.antt =====
-- The list of parameters on a small data model.
use tr069agent.Prelude.{
  true, false, none, some, [], ◌∷◌, ◌≡◌, refl, Bytes, codes, arith, if◌then◌else◌,
}
use tr069agent.Prelude.Int.{pos}
use tr069agent.Common.Number.{uint_to_string, uint_loop}
use tr069agent.Parameter.Struct.{Parameter, string}
use tr069agent.Parameter.Name.{starts_with}
use tr069agent.Parameter.Make.{new_defined_parameter, new_instance_parameter}
use tr069agent.Store.Tree.{Tree, find_parameter, create_instance, delete_object, prototype_rest}
use tr069agent.Store.Tree.Put.{IsCounted}
use tr069agent.Store.Tree.Instances.{find_last}
use tr069agent.Store.Tree.Create.{new_instances, find_parameter-create_instance}
use tr069agent.Store.Tree.Delete.{find_parameter-delete_object}

abbrev named : Bytes → Parameter
named name = new_defined_parameter name string none false

abbrev hosts : Parameter
hosts = named (codes "LAN.Host.")

abbrev model : Tree
model = record {
  parameters = named (codes "LAN.") ∷ hosts ∷ named (codes "LAN.Host..Name") ∷ [];
  nb_parameters = pos 3;
  data_changed = false;
}

find_parameter-create_instance_example :
    (t' : Tree) × (create_instance model hosts 7 ≡ some t')
    × (find_parameter t'.parameters (codes "LAN.Host.7.Name")
        ≡ find_last
            (new_instances model hosts 7)
            (codes "LAN.Host.7.Name")
            (find_parameter model.parameters (codes "LAN.Host.7.Name")))
    × IsCounted t'
    × (t'.data_changed ≡ true)
unfolding prototype_rest new_defined_parameter new_instance_parameter uint_to_string uint_loop
find_parameter-create_instance_example =
    find_parameter-create_instance model hosts 7 (codes "LAN.Host.7.Name")
      (omega arith, (omega arith, tt)) refl

find_parameter-delete_object_example :
    (find_parameter (delete_object model (codes "LAN.Host.")).parameters (codes "LAN.") ≡ (
      if starts_with (codes "LAN.Host.") (codes "LAN.")
      then none
      else find_parameter model.parameters (codes "LAN.")))
    × IsCounted (delete_object model (codes "LAN.Host."))
find_parameter-delete_object_example =
    find_parameter-delete_object model (codes "LAN.Host.") (codes "LAN.") refl
