-- ===== src/Examples/Pages.antt =====
-- A full page of components.
use tamga_go.Base.{pos, none, some, [], ◌∷◌}
use tamga_go.Text.{codes}
use tamga_go.Resource.{Component, Wire}
use tamga_go.Machine.Parts.{ListOptions, list_components, list_machine_processes}
use tamga_go.Machine.Parts.Paging.{Lists, list_components-Lists}
use tamga_go.Examples.{steady, wire_of, a_client}

abbrev a_component : Component
a_component = record {
  id = codes "c1";
  kind = codes "components";
  attributes = record {
    fingerprint = [];
    name = [];
    machine_id = [];
    created = [];
    updated = [];
    metadata = [];
  };
}

abbrev one_component : Wire
one_component = record (wire_of [] 1 []) { components = λ b. some (a_component ∷ []) }

abbrev one_each : ListOptions
one_each = record { after = none; limit = pos 1 }

list_components-Lists_example :
    Lists
      (λ x. x.id)
      one_each
      (list_components steady one_component a_client (codes "m1") one_each []).1
    × Lists
        (λ x. x.id)
        one_each
        (list_machine_processes steady one_component a_client (codes "m1") one_each []).1
list_components-Lists_example =
    list_components-Lists steady one_component a_client (codes "m1") one_each []
