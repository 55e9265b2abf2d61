-- ===== src/Mirror/Watch.antt =====
-- The handlers of the watches. client-go calls a handler for each change of the real cluster, with a
-- value that may be anything; a handler's errors are only logged.
pub mod Views
pub mod Contents
use kubesim.Prelude.{
  Bool, true, false, not, ◌||◌, Option, none, some, String, str_eq, if◌then◌else◌, List, [], ◌∷◌,
}
use kubesim.Prelude.Map.{present}
use kubesim.Prelude.Exec.{Exec, done, panics, ◌>>=◌, ◌>>◌, pure, ignore, crash, forget, then_do}
use kubesim.Platform.{Platform, Pod, Node, Resource}
use kubesim.Simulator.{Kubesim}
use kubesim.Simulator.Pods.{change}

-- `obj interface{}`: an object of the watched kind, the `DeletedFinalStateUnknown` that stands for a
-- deletion that was missed, with its object if that is of the kind, or anything else.
pub data Value (A : Type 0) : Type 0 where
  object : A → Value A
  final_state_unknown : Option A → Value A
  other : Value A

-- A call of a handler. For an update it is told whether both pointers are the same, as at a resync.
pub data Call (A : Type 0) : Type 0 where
  adds deletes : Value A → Call A
  updates : (old new : Value A) → Bool → Call A

module _ {A : Type 0} where
  -- `FilterFunc` of all watches but `PodWatch`.
  unfoldable pub passes : Value A → Bool
  passes (object a) = true
  passes (final_state_unknown a) = present a
  passes other = false

-- `FilterFunc` of `PodWatch`: pods that are bound or nominated.
unfoldable pub pod_passes : {Q : Type 0} → Value (Pod Q) → Bool
pod_passes (object pod) = not (str_eq pod.node_name "") || not (str_eq pod.nominated_node_name "")
pod_passes (final_state_unknown a) = present a
pod_passes other = false

module _ (p : Platform) {A : Type 0} (r : Resource p.Cluster A)
    (namespace_of name_of : A → String) where
  -- `AddFunc`: an object that is there already stays as it is.
  unfoldable pub on_add : Value A → Exec (Kubesim p) Unit
  unfolding change
  on_add (object a) ks = elim (r.get (namespace_of a) (name_of a) ks.cluster) [
    | none ↦ ignore (change p (r.create (namespace_of a) a)) ks
    | some there ↦ done tt ks
  ]
  on_add (final_state_unknown a) ks = done tt ks
  on_add other ks = done tt ks

  -- `DeleteFunc`: only an object is deleted.
  unfoldable pub on_delete : Value A → Exec (Kubesim p) Unit
  unfolding change
  on_delete (object a) = ignore (change p (r.delete (namespace_of a) (name_of a)))
  on_delete (final_state_unknown a) = pure tt
  on_delete other = pure tt

  -- `UpdateFunc` of `NodeWatch`.
  unfoldable pub on_node_update : Value A → Exec (Kubesim p) Unit
  unfolding change
  on_node_update (object new) = ignore (change p (r.update (namespace_of new) new))
  on_node_update (final_state_unknown a) = pure tt
  on_node_update other = pure tt

  -- `UpdateFunc` of `PodWatch`. A value that is no pod leaves a nil pointer, whose field is taken. The
  -- addresses of the two specifications differ unless the pods are one.
  unfoldable pub on_pod_update : Value A → Value A → Bool → Exec (Kubesim p) Unit
  unfolding change
  on_pod_update (object old) (object new) same =
      if same then pure tt else ignore (change p (r.update (namespace_of new) new))
  on_pod_update _ _ same = crash

  -- The handlers of a watch. The watches of other kinds than pods and nodes have no `UpdateFunc`.
  unfoldable pub watch_objects : Call A → Exec (Kubesim p) Unit
  unfolding on_add on_delete
  watch_objects (adds v) = on_add v
  watch_objects (deletes v) = on_delete v
  watch_objects (updates old new same) = pure tt

  unfoldable pub watch_nodes : Call A → Exec (Kubesim p) Unit
  unfolding on_add on_delete on_node_update
  watch_nodes (adds v) = on_add v
  watch_nodes (deletes v) = on_delete v
  watch_nodes (updates old new same) = on_node_update new

  unfoldable pub watch_pods : Call A → Exec (Kubesim p) Unit
  unfolding on_add on_delete on_pod_update
  watch_pods (adds v) = on_add v
  watch_pods (deletes v) = on_delete v
  watch_pods (updates old new same) = on_pod_update old new same

-- The calls in their order.
unfoldable pub run_calls :
    {p : Platform} {A : Type 0}
    → (Call A → Exec (Kubesim p) Unit)
    → List (Call A)
    → Exec (Kubesim p) Unit
run_calls handle [] = pure tt
run_calls handle (c ∷ cs) = do handle c; run_calls handle cs
