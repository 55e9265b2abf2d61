-- ===== src/Mirror.antt =====
-- pkg/scheduler/simulator.go, `SyncWithClient` and the functions `...Watch`: the real cluster copied
-- into the fake one at the start, and followed afterwards. The kinds of objects that kubesim only
-- copies have one type `Object`, of which it reads the namespace and the name.
pub mod Sync
pub mod Watch
pub mod Watches
use kubesim.Prelude.{Bool, true, false, Option, List, [], ◌∷◌, String}
use kubesim.Platform.{Platform, Pod, Node, Resource}

-- The kinds that `SyncWithClient` copies after pods and nodes.
pub data Kind : Type 0 where
  services persistent_volume_claims persistent_volumes : Kind
  replication_controllers pod_disruption_budgets replica_sets stateful_sets : Kind
  storage_classes csi_nodes csi_drivers volume_attachments : Kind

-- The kinds in the order of `SyncWithClient`.
abbrev pub all_kinds : List Kind
all_kinds =
    services ∷ persistent_volume_claims ∷ persistent_volumes ∷ replication_controllers
    ∷ pod_disruption_budgets ∷ replica_sets ∷ stateful_sets ∷ storage_classes ∷ csi_nodes
    ∷ csi_drivers ∷ volume_attachments ∷ []

-- The fake clientset's resources of the other kinds, and what the real clientset lists. `none` is an
-- error. The namespace of an object without one is empty.
pub record Objects (p : Platform) : Type 1 where
  pub Object : Type 0
  pub name_of : Object → String
  pub namespace_of : Object → String
  pub resource : Kind → Resource p.Cluster Object
  pub real_pods : Option (List (Pod p.Quantity))
  pub real_nodes : Option (List (Node p.Quantity))
  pub real_objects : Kind → Option (List Object)
