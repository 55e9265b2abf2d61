-- ===== src/Simulator/Nodes/Deleting.antt =====
-- That `DeleteNodes` leaves no node, and `CreateFakeNode` just the wanted number.
use kubesim.Prelude.{refl, none, ◌<◌, ℕ, suc, ◌≡◌, List, String}
use kubesim.Prelude.Map.{Map}
use kubesim.Prelude.Int.{pos}
use kubesim.Prelude.Text.{message}
use kubesim.Prelude.Exec.{Outcome, done, fails, panics, blocks, then_do}
use kubesim.Platform.{Platform, Node}
use kubesim.Utils.{NodeConfig}
use kubesim.Simulator.{Kubesim}
use kubesim.Simulator.Emulators.Cleaning.{PodLaws, clean_pod_lem}
use kubesim.Simulator.Nodes.{NodeInfoList, delete_nodes, add_nodes_to, create_fake_node, created}
use kubesim.Simulator.Nodes.Laws.{NodeLaws, NodeDeletions, list_nodes_lem, delete_listed-all}
use kubesim.Simulator.Nodes.Adding.{Usable, Reaches, add_nodes_to-Settles}

module _ (p : Platform) (laws : NodeLaws p) (pod_laws : PodLaws p)
    (deletions : NodeDeletions p) where
  -- `DeleteNodes` ends without an error, leaves no node in the cluster, and changes nothing but the
  -- cluster.
  delete_nodes_lem :
      (fuel : ℕ) (ks : Kubesim p)
      → (c : p.Cluster) × (delete_nodes p (suc (suc fuel)) ks ≡ done tt (record ks { cluster = c }))
        × (laws.size c ≡ 0)
  unfolding delete_nodes
  delete_nodes_lem fuel ks =
      let (c, f, g) = clean_pod_lem p pod_laws fuel ks in
      let (l, e, h, n) = list_nodes_lem p laws (record ks { cluster = c }) in
      let (c', f', g') =
        delete_listed-all p laws deletions l.node_list (record ks { cluster = c }) h in
      (c', rw (f, delete_nodes, e) f', g')

  -- Just so many nodes in the cluster; or fewer, where the clientset refuses to create a node.
  abbrev pub Creates : ℕ → Outcome (Kubesim p) (NodeConfig × Map (List String)) → Type 0
  Creates count (done (config, access) s) = laws.size s.cluster ≡ count
  Creates count (fails e s) =
      (e ≡ message "failed to create nodes")
      × (laws.size s.cluster < count)
      × ((node : Node p.Quantity) × (p.nodes.create "" node s.cluster ≡ none))
  Creates count panics = ⊥
  Creates count blocks = ⊥

  created-Creates :
      (count : ℕ)
      (o : Outcome (Kubesim p) (NodeConfig × Map (List String) × NodeInfoList p.Quantity))
      → Reaches p laws count o
      → Creates count
          (then_do (created p o) (λ (config', access, found). λ s. done (config', access) s))
  created-Creates count (done (config, access, found) s) (a, b) = b
  created-Creates count (fails e s) (same, fewer, refused) = (refl, fewer, refused)
  created-Creates count panics h = h
  created-Creates count blocks h = h

  -- Whatever nodes there were, `CreateFakeNode` for a number of nodes, with a configuration that has
  -- labels and a capacity, ends with just that number of nodes in the cluster, or with fewer and an
  -- error, where the clientset refuses to create a node.
  pub create_fake_node-Creates :
      (fuel count : ℕ) (config : NodeConfig) (ks : Kubesim p)
      → Usable config
      → Creates count (create_fake_node p (suc (suc fuel)) config (pos count) ks)
  unfolding create_fake_node
  create_fake_node-Creates fuel count config ks u =
      let (c, f, z) = delete_nodes_lem fuel ks in
      let wanted = record config { node_number = pos count } in
      let s = record ks { cluster = c } in
      rw (f, create_fake_node)
        (created-Creates count (add_nodes_to p (suc (suc fuel)) wanted s) (
          add_nodes_to-Settles p laws deletions fuel wanted s
            (record { labels = u.labels; capacity = u.capacity })))
