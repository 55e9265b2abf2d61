-- ===== src/Simulator/Nodes/Laws.antt =====
-- What the fake clientset promises of its nodes, and what listing and deleting them does there.
use kubesim.Prelude.{
  ℕ, zero, suc, ◌+◌, ◌-◌, ◌≤◌, ◌≡◌, refl, some, List, [], ◌∷◌, ◌++◌, arith, ◌∙◌, sym, ap, length,
  take, Option, none,
}
use mathlib.Core.List.{append-nil}
use kubesim.Prelude.Map.{Map, lookup}
use kubesim.Prelude.Exec.{done}
use kubesim.Platform.{Platform, Node, Pod, CachedNode}
use kubesim.Simulator.{Kubesim}
use kubesim.Simulator.Pods.{change}
use kubesim.Simulator.Nodes.{
  NodeInfoList, count_pod, count_pods, count_node, count_nodes, node_info_list, list_nodes,
  delete_listed,
}
use kubesim.Simulator.Nodes.Listing.{node_info_list_lem}

-- What the fake clientset promises of its nodes: a number of nodes, which a listing shows and to
-- which a creation that succeeds adds one; listings do not fail.
pub record NodeLaws (p : Platform) : Type 0 where
  pub size : p.Cluster → ℕ
  pub listed :
      (c : p.Cluster)
      → (ns : List (Node p.Quantity)) × (p.nodes.list "" "" c ≡ some ns) × (length ns ≡ size c)
  pub pods_listed :
      (c : p.Cluster)
      → (ps : List (Pod p.Quantity)) × (p.pods.list "" "provisioner=kubesim" c ≡ some ps)
  pub created :
      (node : Node p.Quantity) (c c' : p.Cluster)
      → p.nodes.create "" node c ≡ some c'
      → size c' ≡ size c + 1

-- What the fake clientset promises of a deletion: a node that a listing shows first can be deleted,
-- which takes just that node from the next listing.
pub record NodeDeletions (p : Platform) : Type 0 where
  pub deleted :
      (c : p.Cluster) (node : Node p.Quantity) (rest : List (Node p.Quantity))
      → p.nodes.list "" "" c ≡ some (node ∷ rest)
      → (c' : p.Cluster) × (p.nodes.delete "" node.name c ≡ some c')
        × (p.nodes.list "" "" c' ≡ some rest)

module _ {Q : Type 0} where
  node_list-count_pods :
      (pods : List (Pod Q)) (l : NodeInfoList Q) → (count_pods pods l).node_list ≡ l.node_list
  unfolding count_pods count_pod
  node_list-count_pods [] l = refl
  node_list-count_pods (pod ∷ pods) l = node_list-count_pods pods (count_pod pod l)

  node_list-count_node :
      (info : Option CachedNode) (l : NodeInfoList Q) → (count_node info l).node_list ≡ l.node_list
  unfolding count_node
  node_list-count_node none l = refl
  node_list-count_node (some info) l = refl

  node_list-count_nodes :
      (snapshot : Map CachedNode) (nodes : List (Node Q)) (l : NodeInfoList Q)
      → (count_nodes snapshot nodes l).node_list ≡ l.node_list
  unfolding count_nodes
  node_list-count_nodes snapshot [] l = refl
  node_list-count_nodes snapshot (node ∷ nodes) l =
      node_list-count_nodes snapshot nodes (count_node (lookup node.name snapshot) l)
      ∙ node_list-count_node (lookup node.name snapshot) l

module _ {A : Type 0} where
  -- What is left of a list behind its first elements.
  take-rest :
      (n : ℕ) (xs : List A)
      → n ≤ length xs
      → (rest : List A) × (take n xs ++ rest ≡ xs) × (length rest ≡ length xs - n)
  take-rest zero xs h = (xs, refl, omega arith)
  take-rest (suc n) [] h = absurd (omega (arith, h))
  take-rest (suc n) (x ∷ xs) h =
      let (rest, e, l) = take-rest n xs (omega (arith, h)) in
      (rest, ap (λ ys. x ∷ ys) e, omega (arith, l))

  abbrev count_listed : Option (List A) → ℕ
  count_listed none = 0
  count_listed (some xs) = length xs

module _ (p : Platform) (laws : NodeLaws p) where
  -- A listing changes nothing, and has the nodes of the cluster and their number.
  pub list_nodes_lem :
      (ks : Kubesim p)
      → (l : NodeInfoList p.Quantity) × (list_nodes p ks ≡ done l ks)
        × (p.nodes.list "" "" ks.cluster ≡ some l.node_list)
        × (l.node_number ≡ laws.size ks.cluster)
  unfolding list_nodes node_info_list
  list_nodes_lem ks =
      let (ns, e, n) = laws.listed ks.cluster in
      let (ps, f) = laws.pods_listed ks.cluster in
      (
        node_info_list p ns ps (p.dump ks.cluster),
        rw (e, list_nodes, f) refl,
        e
            ∙ ap some
                (sym (node_list-count_nodes (p.dump ks.cluster) ns _ ∙ node_list-count_pods ps _)),
        (node_info_list_lem p ns ps (p.dump ks.cluster)).6 ∙ n,
      )

  pub size-length :
      (c : p.Cluster) (ns : List (Node p.Quantity))
      → p.nodes.list "" "" c ≡ some ns
      → laws.size c ≡ length ns
  size-length c ns e = let (ns', f, n) = laws.listed c in sym n ∙ ap count_listed (sym f ∙ e)

  module _ (deletions : NodeDeletions p) where
    -- The nodes that a listing shows first are deleted, and the others stay.
    delete_listed_lem :
        (ns rest : List (Node p.Quantity)) (ks : Kubesim p)
        → p.nodes.list "" "" ks.cluster ≡ some (ns ++ rest)
        → (c : p.Cluster) × (delete_listed p ns ks ≡ done tt (record ks { cluster = c }))
          × (p.nodes.list "" "" c ≡ some rest)
    unfolding delete_listed
    delete_listed_lem [] rest ks e = (ks.cluster, refl, e)
    delete_listed_lem (node ∷ ns) rest ks e =
        let (c, ok, e') = deletions.deleted ks.cluster node (ns ++ rest) e in
        let (c', f, g) = delete_listed_lem ns rest (record ks { cluster = c }) e' in
        (c', rw (ok, change, delete_listed) f, g)

    -- Deleting the first `n` of the listed nodes leaves `n` nodes fewer.
    pub delete_listed-take :
        (n : ℕ) (ns : List (Node p.Quantity)) (ks : Kubesim p)
        → p.nodes.list "" "" ks.cluster ≡ some ns
        → n ≤ length ns
        → (c : p.Cluster) × (delete_listed p (take n ns) ks ≡ done tt (record ks { cluster = c }))
          × (laws.size c ≡ length ns - n)
    delete_listed-take n ns ks e h =
        let (rest, s, l) = take-rest n ns h in
        let (c, f, g) = delete_listed_lem (take n ns) rest ks (e ∙ ap some (sym s)) in
        (c, f, size-length c rest g ∙ l)

    -- Deleting all that are listed leaves none.
    pub delete_listed-all :
        (ns : List (Node p.Quantity)) (ks : Kubesim p)
        → p.nodes.list "" "" ks.cluster ≡ some ns
        → (c : p.Cluster) × (delete_listed p ns ks ≡ done tt (record ks { cluster = c }))
          × (laws.size c ≡ 0)
    delete_listed-all ns ks e =
        let (c, f, g) = delete_listed_lem ns [] ks (e ∙ ap some (sym (append-nil ns))) in
        (c, f, size-length c [] g)
