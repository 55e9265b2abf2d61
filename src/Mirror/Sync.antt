-- ===== src/Mirror/Sync.antt =====
-- `SyncWithClient`.
pub mod Views
pub mod Loops
pub mod Copies
use kubesim.Prelude.{Bool, not, Option, none, some, List, [], ◌∷◌, String, str_eq, if◌then◌else◌}
use kubesim.Prelude.Text.{client}
use kubesim.Prelude.Exec.{done, Exec, ◌>>=◌, ◌>>◌, pure, raise, wrap}
use kubesim.Platform.{Platform, Pod, Node, Resource}
use kubesim.Simulator.{Kubesim}
use kubesim.Simulator.Pods.{change}
use kubesim.Mirror.{Kind, Objects, all_kinds}

-- What the error messages call the lists and the objects of a kind.
unfoldable pub list_text : Kind → String
list_text Kind.services = "unable to list services"
list_text Kind.persistent_volume_claims = "unable to list pvcs"
list_text Kind.persistent_volumes = "unable to list pvs"
list_text Kind.replication_controllers = "unable to list RCs"
list_text Kind.pod_disruption_budgets = "unable to list PDBs"
list_text Kind.replica_sets = "unable to list replicas sets"
list_text Kind.stateful_sets = "unable to list stateful sets"
list_text Kind.storage_classes = "unable to list storage classes"
list_text Kind.csi_nodes = "unable to list csinode"
list_text Kind.csi_drivers = "unable to list csi drivers"
list_text Kind.volume_attachments = "unable to list volumeAttachments"

unfoldable pub copy_text : Kind → String
copy_text Kind.services = "unable to copy service"
copy_text Kind.persistent_volume_claims = "unable to copy pvc"
copy_text Kind.persistent_volumes = "unable to copy pv"
copy_text Kind.replication_controllers = "unable to copy RC"
copy_text Kind.pod_disruption_budgets = "unable to copy PDB"
copy_text Kind.replica_sets = "unable to copy replica set"
copy_text Kind.stateful_sets = "unable to copy stateful set"
copy_text Kind.storage_classes = "unable to copy storage class"
copy_text Kind.csi_nodes = "unable to copy csinode"
copy_text Kind.csi_drivers = "unable to copy csi dirvers"
copy_text Kind.volume_attachments = "unable to copy volumeAttachments"

module _ (p : Platform) (o : Objects p) where
  open p use {Quantity, pods, nodes}

  abbrev pub list_or_fail : {A : Type 0} → String → Option A → Exec (Kubesim p) A
  list_or_fail text none = wrap text (raise client)
  list_or_fail text (some a) = pure a

  -- The loops over the items: the first creation that fails ends them.
  unfoldable pub copy_pods : List (Pod Quantity) → Exec (Kubesim p) Unit
  unfolding change
  copy_pods [] ks = done tt ks
  copy_pods (item ∷ items) ks =
      let rest = copy_pods items in
      (if not (str_eq item.phase "Pending")
          then (do wrap "unable to copy pod" (change p (pods.create item.namespace item)); rest)
          else rest)
        ks

  unfoldable pub copy_nodes : List (Node Quantity) → Exec (Kubesim p) Unit
  unfolding change
  copy_nodes [] = pure tt
  copy_nodes (item ∷ items) = do
    wrap "unable to copy node" (change p (nodes.create "" item))
    copy_nodes items

  unfoldable pub copy_objects : Kind → List o.Object → Exec (Kubesim p) Unit
  unfolding change copy_text
  copy_objects k [] = pure tt
  copy_objects k (item ∷ items) = do
    wrap (copy_text k) (change p ((o.resource k).create (o.namespace_of item) item))
    copy_objects k items

  -- The blocks for the other kinds, one after the other.
  unfoldable pub sync_kinds : List Kind → Exec (Kubesim p) Unit
  unfolding copy_objects list_text
  sync_kinds [] = pure tt
  sync_kinds (k ∷ ks) = do
    items ← list_or_fail (list_text k) (o.real_objects k)
    copy_objects k items
    sync_kinds ks

  -- `SyncWithClient`
  unfoldable pub sync_with_client : Exec (Kubesim p) Unit
  unfolding copy_pods copy_nodes sync_kinds
  sync_with_client = do
    pod_items ← list_or_fail "unable to list pods" o.real_pods
    copy_pods pod_items
    node_items ← list_or_fail "unable to list nodes" o.real_nodes
    copy_nodes node_items
    sync_kinds all_kinds
