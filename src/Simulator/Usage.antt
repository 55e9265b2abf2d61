-- ===== src/Simulator/Usage.antt =====
-- pkg/scheduler/simulator.go, `GetNodeInfo`: what the scheduler's cache knows of the fake nodes.
use mathlib.Core.List.{map-append}
use kubesim.Prelude.{
  ℕ, ◌≡◌, refl, sym, Option, none, some, List, [], ◌∷◌, ◌++◌, String, arith, length, sum,
  sum-append, length-append, map,
}
use kubesim.Prelude.Int.{ℤ}
use kubesim.Prelude.Map.{Map, lookup}
use kubesim.Prelude.Text.{client}
use kubesim.Prelude.Exec.{Exec, ◌>>=◌, pure, raise, wrap, gets}
use kubesim.Platform.{Platform, Pod, Node, CachedNode}
use kubesim.Simulator.{Kubesim}
use kubesim.Simulator.Nodes.{
  NodeInfoList, count_pod, count_pods, count_node, count_nodes, node_info_list,
}

-- `utils.NodeInfo`
pub record NodeInfo : Type 0 where
  pub name : String
  pub used_cpu : ℤ
  pub used_memory : ℤ
  pub cpu : ℤ
  pub memory : ℤ
  pub cpu_percent : String
  pub memory_percent : String
  pub pod_number : ℕ

module _ (p : Platform) where
  open p use {Quantity, nodes, dump, percent}

  abbrev usage : String → CachedNode → NodeInfo
  usage name info = record {
    name = name;
    used_cpu = info.requested_milli_cpu;
    used_memory = info.requested_memory;
    cpu = info.allocatable_milli_cpu;
    memory = info.allocatable_memory;
    cpu_percent = percent info.requested_milli_cpu info.allocatable_milli_cpu;
    memory_percent = percent info.requested_memory info.allocatable_memory;
    pod_number = info.pod_count;
  }

  abbrev add_usage : String → Option CachedNode → List NodeInfo → List NodeInfo
  add_usage name none acc = acc
  add_usage name (some info) acc = acc ++ usage name info ∷ []

  -- The loop over the nodes. A node that the cache does not know is left out.
  unfoldable pub node_usages : Map CachedNode → List (Node Quantity) → List NodeInfo → List NodeInfo
  node_usages snapshot [] acc = acc
  node_usages snapshot (node ∷ rest) acc =
      node_usages snapshot rest (add_usage node.name (lookup node.name snapshot) acc)

  abbrev or_unlisted : {A : Type 0} → Option A → Exec (Kubesim p) A
  or_unlisted none = wrap "unable to get fake node list" (raise client)
  or_unlisted (some a) = pure a

  -- `GetNodeInfo`
  unfoldable pub get_node_info : Exec (Kubesim p) (List NodeInfo)
  unfolding node_usages
  get_node_info = do
    snapshot ← gets (λ ks. dump ks.cluster)
    fake ← (λ ks. or_unlisted (nodes.list "" "provisioner=kubesim" ks.cluster) ks)
    pure (node_usages snapshot fake [])

  abbrev pods_of : List NodeInfo → ℕ
  pods_of infos = sum (map (λ info. info.pod_number) infos)

  add_usage_lem :
      (name : String) (info : Option CachedNode) (acc : List NodeInfo) (l : NodeInfoList Quantity)
      → (length acc ≡ l.node_info_number)
      → (pods_of acc ≡ l.node_info_pod_number)
      → (length (add_usage name info acc) ≡ (count_node info l).node_info_number)
        × (pods_of (add_usage name info acc) ≡ (count_node info l).node_info_pod_number)
  unfolding count_node
  add_usage_lem name none acc l e f = (e, f)
  add_usage_lem name (some info) acc l e f =
      let more = usage name info ∷ [] in
      (
        omega (arith, length-append acc more),
        rw (map-append (λ x. x.pod_number) acc more) (
            omega (arith, sum-append (map (λ x. x.pod_number) acc) (map (λ x. x.pod_number) more))),
      )

  node_usages-count :
      (snapshot : Map CachedNode) (ns : List (Node Quantity)) (acc : List NodeInfo)
      (l : NodeInfoList Quantity)
      → (length acc ≡ l.node_info_number)
      → (pods_of acc ≡ l.node_info_pod_number)
      → (length (node_usages snapshot ns acc) ≡ (count_nodes snapshot ns l).node_info_number)
        × (pods_of (node_usages snapshot ns acc) ≡ (count_nodes snapshot ns l).node_info_pod_number)
  unfolding node_usages count_nodes
  node_usages-count snapshot [] acc l e f = (e, f)
  node_usages-count snapshot (node ∷ ns) acc l e f =
      let (e', f') = add_usage_lem node.name (lookup node.name snapshot) acc l e f in
      node_usages-count snapshot ns _ (count_node (lookup node.name snapshot) l) e' f'

  count_pods-infos :
      (ps : List (Pod Quantity)) (l : NodeInfoList Quantity)
      → ((count_pods ps l).node_info_number ≡ l.node_info_number)
        × ((count_pods ps l).node_info_pod_number ≡ l.node_info_pod_number)
  unfolding count_pods count_pod
  count_pods-infos [] l = (refl, refl)
  count_pods-infos (a ∷ ps) l = count_pods-infos ps (count_pod a l)

  -- For one list of nodes and one snapshot of the cache, the answers of `GetNodeInfo` and `ListNodes`
  -- agree: as many nodes are described as are counted as known to the cache, and their numbers of
  -- pods add up to the pods that are counted there.
  pub node_usages-node_info_list :
      (ns : List (Node Quantity)) (ps : List (Pod Quantity)) (snapshot : Map CachedNode)
      → (length (node_usages snapshot ns []) ≡ (node_info_list p ns ps snapshot).node_info_number)
        × (sum (map (λ info. info.pod_number) (node_usages snapshot ns []))
            ≡ (node_info_list p ns ps snapshot).node_info_pod_number)
  unfolding node_info_list
  node_usages-node_info_list ns ps snapshot =
      node_usages-count snapshot ns [] _ (sym (count_pods-infos ps _).0)
        (sym (count_pods-infos ps _).1)
