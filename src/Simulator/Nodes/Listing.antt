-- ===== src/Simulator/Nodes/Listing.antt =====
-- The counts of `ListNodes`.
use kubesim.Prelude.{
  ℕ, ◌+◌, ◌≡◌, refl, Bool, true, false, not, Option, none, some, List, [], ◌∷◌, String, arith,
  length, str_eq, ◌==◌, if◌then◌else◌, eq_iff, Option-cases, inl, inr, ap, ◌∙◌,
}
use kubesim.Prelude.Map.{Map, lookup, lookup-insert}
use kubesim.Platform.{Platform, Pod, Node, CachedNode}
use kubesim.Simulator.Nodes.{
  NodeInfoList, or_zero, count_pod, count_pods, count_node, count_nodes, node_info_list,
  nothing_counted, snapshot_pods,
}

-- How many elements pass a test.
abbrev pub count_where : {A : Type 0} → (A → Bool) → List A → ℕ
count_where f [] = 0
count_where f (x ∷ xs) = let rest = count_where f xs in if f x then rest + 1 else rest

abbrev pub present_node : Option CachedNode → Bool
present_node none = false
present_node (some info) = true

module _ {Q : Type 0} where
  abbrev pub is_running : Pod Q → Bool
  is_running pod = str_eq pod.phase "Running"

  abbrev pub is_unbound : Pod Q → Bool
  is_unbound pod = str_eq pod.node_name ""

  abbrev pub is_on : String → Pod Q → Bool
  is_on name pod = str_eq pod.node_name name

  abbrev pub is_cached : Map CachedNode → Node Q → Bool
  is_cached snapshot node = present_node (lookup node.name snapshot)

  count_pods_lem :
      (pods : List (Pod Q)) (l : NodeInfoList Q)
      → ((count_pods pods l).running_pod ≡ l.running_pod + count_where is_running pods)
        × ((count_pods pods l).not_running_pod
            ≡ l.not_running_pod + count_where (λ pod. not (is_running pod)) pods)
        × ((count_pods pods l).bind_failed ≡ l.bind_failed + count_where is_unbound pods)
        × ((count_pods pods l).bind_success
            ≡ l.bind_success + count_where (λ pod. not (is_unbound pod)) pods)
        × ((count_pods pods l).node_number ≡ l.node_number)
        × ((count_pods pods l).pod_number ≡ l.pod_number)
        × ((count_pods pods l).node_info_number ≡ l.node_info_number)
        × ((count_pods pods l).not_node_info_number ≡ l.not_node_info_number)
  unfolding count_pods count_pod
  count_pods_lem [] l = ground arith
  count_pods_lem (pod ∷ pods) l = ground (arith, count_pods_lem pods (count_pod pod l))

  -- The map of a node to its pods, one pod later.
  count_pod-node_pods :
      (pod : Pod Q) (name : String) (l : NodeInfoList Q)
      → or_zero (lookup name (count_pod pod l).node_pods)
        ≡ or_zero (lookup name l.node_pods) + (if is_on name pod then 1 else 0)
  unfolding count_pod
  count_pod-node_pods pod name l =
      let n = or_zero (lookup pod.node_name l.node_pods) in
      let put = if not (n == 0) then n + 1 else 1 in
      ground (arith, lookup-insert pod.node_name name put l.node_pods, eq_iff pod.node_name name)

  count_pods-node_pods :
      (pods : List (Pod Q)) (name : String) (l : NodeInfoList Q)
      → or_zero (lookup name (count_pods pods l).node_pods)
        ≡ or_zero (lookup name l.node_pods) + count_where (is_on name) pods
  unfolding count_pods
  count_pods-node_pods [] name l = omega arith
  count_pods-node_pods (pod ∷ pods) name l =
      ground
        (arith, count_pods-node_pods pods name (count_pod pod l), count_pod-node_pods pod name l)

  -- The nodes are counted, and no pod.
  abbrev CountsNodes : ℕ → ℕ → NodeInfoList Q → NodeInfoList Q → Type 0
  CountsNodes known unknown l m =
      (m.node_info_number ≡ l.node_info_number + known)
      × (m.not_node_info_number ≡ l.not_node_info_number + unknown)
      × (m.running_pod ≡ l.running_pod)
      × (m.not_running_pod ≡ l.not_running_pod)
      × (m.bind_failed ≡ l.bind_failed)
      × (m.bind_success ≡ l.bind_success)
      × (m.node_number ≡ l.node_number)
      × (m.pod_number ≡ l.pod_number)
      × (m.node_pods ≡ l.node_pods)

  count_nodes_lem :
      (snapshot : Map CachedNode) (nodes : List (Node Q)) (l : NodeInfoList Q)
      → CountsNodes
          (count_where (is_cached snapshot) nodes)
          (count_where (λ node. not (is_cached snapshot node)) nodes)
          l
          (count_nodes snapshot nodes l)
  unfolding count_nodes count_node
  count_nodes_lem snapshot [] l =
      (omega arith, omega arith, refl, refl, refl, refl, refl, refl, refl)
  count_nodes_lem snapshot (node ∷ nodes) l = elim (Option-cases (lookup node.name snapshot)) [
    | inl unknown ↦
        rw (unknown, count_nodes)
          (ground (arith, count_nodes_lem snapshot nodes (count_node none l)))
    | inr (info, known) ↦
        rw (known, count_nodes)
          (ground (arith, count_nodes_lem snapshot nodes (count_node (some info) l)))
  ]

zero_plus : (n : ℕ) → 0 + n ≡ n
zero_plus n = omega arith

-- The answer to a listing counts the pods in the phase Running and the others, the pods without a node
-- and the others, the nodes that the scheduler's cache has and the others, all nodes and all pods,
-- and for every node name the pods that have it.
pub node_info_list_lem :
    (p : Platform) (nodes : List (Node p.Quantity)) (pods : List (Pod p.Quantity))
    (snapshot : Map CachedNode)
    → ((node_info_list p nodes pods snapshot).running_pod ≡ count_where is_running pods)
      × ((node_info_list p nodes pods snapshot).not_running_pod
          ≡ count_where (λ pod. not (is_running pod)) pods)
      × ((node_info_list p nodes pods snapshot).bind_failed ≡ count_where is_unbound pods)
      × ((node_info_list p nodes pods snapshot).bind_success
          ≡ count_where (λ pod. not (is_unbound pod)) pods)
      × ((node_info_list p nodes pods snapshot).node_info_number
          ≡ count_where (is_cached snapshot) nodes)
      × ((node_info_list p nodes pods snapshot).not_node_info_number
          ≡ count_where (λ node. not (is_cached snapshot node)) nodes)
      × ((node_info_list p nodes pods snapshot).node_number ≡ length nodes)
      × ((node_info_list p nodes pods snapshot).pod_number ≡ length pods)
      × ((name : String)
          → or_zero (lookup name (node_info_list p nodes pods snapshot).node_pods)
            ≡ count_where (is_on name) pods)
unfolding node_info_list lookup
node_info_list_lem p nodes pods snapshot =
    let start = nothing_counted nodes (length pods) (snapshot_pods snapshot []) in
    let (a, b, c, d, e, f, g, h, i) = count_nodes_lem snapshot nodes (count_pods pods start) in
    let (j, k, l, m, n, o, q, r) = count_pods_lem pods start in
    (
      c ∙ j ∙ zero_plus _,
      d ∙ k ∙ zero_plus _,
      e ∙ l ∙ zero_plus _,
      f ∙ m ∙ zero_plus _,
      omega (arith, a, q),
      omega (arith, b, r),
      g ∙ n,
      h ∙ o,
      λ name.
          ap (λ m. or_zero (lookup name m)) i ∙ count_pods-node_pods pods name start ∙ zero_plus _,
    )
