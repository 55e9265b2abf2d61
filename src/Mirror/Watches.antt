-- ===== src/Mirror/Watches.antt =====
-- The watches, each with its filter and its handlers. client-go calls a handler with the values that
-- pass the filter.
use kubesim.Prelude.{Bool}
use kubesim.Prelude.Exec.{Exec}
use kubesim.Platform.{Platform, Pod, Node}
use kubesim.Simulator.{Kubesim}
use kubesim.Mirror.{Kind, Objects}
use kubesim.Mirror.Watch.{Value, Call, passes, pod_passes, watch_objects, watch_nodes, watch_pods}

-- `cache.FilteringResourceEventHandler`
pub record EventHandler (p : Platform) (A : Type 0) : Type 0 where
  pub filter : Value A → Bool
  pub handle : Call A → Exec (Kubesim p) Unit

module _ (p : Platform) (o : Objects p) where
  open p use {Quantity, pods, nodes}
  open o use {Object, resource, namespace_of, name_of}

  abbrev of_kind : Kind → EventHandler p Object
  of_kind k = record { filter = passes; handle = watch_objects p (resource k) namespace_of name_of }

  unfoldable pub pv_watch : EventHandler p Object
  pv_watch = of_kind Kind.persistent_volumes

  unfoldable pub pvc_watch : EventHandler p Object
  pvc_watch = of_kind Kind.persistent_volume_claims

  unfoldable pub storage_class_watch : EventHandler p Object
  storage_class_watch = of_kind Kind.storage_classes

  unfoldable pub csi_node_watch : EventHandler p Object
  csi_node_watch = of_kind Kind.csi_nodes

  unfoldable pub csi_driver_watch : EventHandler p Object
  csi_driver_watch = of_kind Kind.csi_drivers

  unfoldable pub volume_attachments_watch : EventHandler p Object
  volume_attachments_watch = of_kind Kind.volume_attachments

  -- Nodes have no namespace.
  unfoldable pub node_watch : EventHandler p (Node Quantity)
  node_watch = record {
    filter = passes;
    handle = watch_nodes p nodes (λ node. "") (λ node. node.name);
  }

  unfoldable pub pod_watch : EventHandler p (Pod Quantity)
  pod_watch = record {
    filter = pod_passes;
    handle = watch_pods p pods (λ pod. pod.namespace) (λ pod. pod.name);
  }
