-- ===== src/Simulator/Nodes/Adding.antt =====
-- That `AddNodes` ends with the wanted number of nodes.
use Prim.Native.String.{◌++◌ as str_append, slice}
use kubesim.Prelude.{
  length, ℕ, zero, suc, ◌+◌, ◌-◌, ◌<◌, ◌≡◌, ◌⊎◌, refl, true, false, some, List, [], ◌∷◌, ◌++◌,
  String, arith, ◌∙◌, sum, Option-cases, Bool-cases, inl, inr, subst, str_eq, leb, none, ap,
}
use kubesim.Prelude.Int.{ℤ, pos, negsuc, ltb_ℤ, sub_ℕ, pos_part}
use kubesim.Prelude.Text.{Error, client, wrapped}
use kubesim.Prelude.Map.{Map, insert}
use kubesim.Prelude.Exec.{Outcome, done, fails, panics, blocks, Exec, then_do, rewrap}
use kubesim.Platform.{Platform, Node}
use kubesim.Utils.{NodeConfig, NodeCapacity}
use kubesim.Node.{node_labels, built, build_node}
use kubesim.Simulator.{Kubesim}
use kubesim.Simulator.Pods.{change}
use kubesim.Simulator.Nodes.{
  NodeInfoList, build_rules_node, build_node_switches, add_switch_nodes, add_switches, add_nodes,
  add_nodes_loop, add_nodes_to,
}
use kubesim.Simulator.Nodes.Switches.{switches_lem}
use kubesim.Simulator.Nodes.Laws.{
  NodeLaws, NodeDeletions, list_nodes_lem, size-length, delete_listed-take,
}

-- A configuration from which nodes can be built.
pub record Usable (config : NodeConfig) : Type 0 where
  pub labels : (m : Map String) × (config.node_labels ≡ some m)
  pub capacity : (c : NodeCapacity) × (config.node_capacity ≡ some c)

module _ (p : Platform) (laws : NodeLaws p) where
  build_node-Usable :
      (config : NodeConfig) (name : String)
      → Usable config
      → (node : Node p.Quantity) × (config' : NodeConfig) × (build_node p config name
          ≡ some (node, config'))
        × Usable config'
  unfolding build_node
  build_node-Usable config name u = (
    built p name u.capacity.0 (node_labels name u.labels.0),
    record config { node_labels = some (node_labels name u.labels.0) },
    ground (arith, u.labels.1, u.capacity.1),
    record { labels = (node_labels name u.labels.0, refl); capacity = u.capacity },
  )

  -- The error of a creation of a node that the clientset refused.
  abbrev refused_error : Error
  refused_error = wrapped "unable to create fake node" client

  abbrev RefusedNode : Error → Kubesim p → Type 0
  RefusedNode e s =
      (e ≡ refused_error) × ((node : Node p.Quantity) × (p.nodes.create "" node s.cluster ≡ none))

  -- So many nodes more; or fewer, where a creation failed.
  abbrev Adds : {A : Type 0} → (A → NodeConfig) → ℕ → Kubesim p → Outcome (Kubesim p) A → Type 0
  Adds config_of n ks (done a s) =
      (laws.size s.cluster ≡ laws.size ks.cluster + n) × Usable (config_of a)
  Adds config_of n ks (fails e s) =
      (laws.size s.cluster < laws.size ks.cluster + n) × RefusedNode e s
  Adds config_of n ks panics = ⊥
  Adds config_of n ks blocks = ⊥

  Adds-shift :
      {A : Type 0} (config_of : A → NodeConfig) (k n l : ℕ) (ks s : Kubesim p)
      (o : Outcome (Kubesim p) A)
      → l ≡ k + n
      → laws.size s.cluster ≡ laws.size ks.cluster + k
      → Adds config_of n s o
      → Adds config_of l ks o
  Adds-shift config_of k n l ks s (done a s') q e (f, u) = (omega arith, u)
  Adds-shift config_of k n l ks s (fails e' s') q e (less, r) = (omega arith, r)
  Adds-shift config_of k n l ks s panics q e a = a
  Adds-shift config_of k n l ks s blocks q e a = a

  then_do-Adds :
      {A B : Type 0} (config_of : A → NodeConfig) (config_of' : B → NodeConfig) (n k : ℕ)
      (ks : Kubesim p) (o : Outcome (Kubesim p) A) (f : A → Exec (Kubesim p) B)
      → Adds config_of n ks o
      → ((a : A) (s : Kubesim p) → Usable (config_of a) → Adds config_of' k s (f a s))
      → Adds config_of' (n + k) ks (then_do o f)
  then_do-Adds config_of config_of' n k ks (done a s) f (e, u) h =
      Adds-shift config_of' n k (n + k) ks s (f a s) refl e (h a s u)
  then_do-Adds config_of config_of' n k ks (fails e s) f (less, r) h = (omega arith, r)
  then_do-Adds config_of config_of' n k ks panics f a h = a
  then_do-Adds config_of config_of' n k ks blocks f a h = a

  add_switch_nodes-Adds :
      (n : ℕ) (config : NodeConfig) (names : List String) (ks : Kubesim p)
      → Usable config
      → Adds (λ r. r.0) n ks (add_switch_nodes p n config names ks)
  unfolding add_switch_nodes
  add_switch_nodes-Adds zero config names ks u = (omega arith, u)
  add_switch_nodes-Adds (suc n) config names ks u =
      let name = str_append "fake-" (p.uuid ks.next_uuid) in
      let (node, config', e, u') = build_node-Usable config name u in
      rw (e, add_switch_nodes)
        (elim (Option-cases (p.nodes.create "" node ks.cluster)) [
          | inl refused ↦ rw (refused, change) (omega arith, (refl, (node, refused)))
          | inr (c, ok) ↦
              let s = record ks { cluster = c; next_uuid = ks.next_uuid + 1 } in
              rw (ok, change)
                (Adds-shift (λ r. r.0) 1 n (suc n) ks s
                  (add_switch_nodes p n config' (names ++ name ∷ []) s) (omega arith)
                  (laws.created node ks.cluster c ok)
                  (add_switch_nodes-Adds n config' (names ++ name ∷ []) s u'))
        ])

  add_switches-Adds :
      (sizes : List ℕ) (config : NodeConfig) (access : Map (List String)) (ks : Kubesim p)
      → Usable config
      → Adds (λ r. r.0) (sum sizes) ks (add_switches p sizes config access ks)
  unfolding add_switches
  add_switches-Adds [] config access ks u = (omega arith, u)
  add_switches-Adds (size ∷ sizes) config access ks u =
      let switch = str_append "access" (slice (p.uuid ks.next_uuid) 0 7) in
      let labelled = record config {
        node_labels = some (insert "accessSwitch" switch u.labels.0);
      } in
      let s = record ks { next_uuid = ks.next_uuid + 1 } in
      rw (u.labels.1, add_switches)
        (then_do-Adds (λ r. r.0) (λ r. r.0) size (sum sizes) s
          (add_switch_nodes p size labelled [] s)
          (λ (config', names). add_switches p sizes config' (insert switch names access))
          (add_switch_nodes-Adds size labelled [] s (record {
            labels = (insert "accessSwitch" switch u.labels.0, refl);
            capacity = u.capacity;
          }))
          λ r s' u'. add_switches-Adds sizes r.0 (insert switch r.1 access) s' u')

  add_nodes-Adds :
      (config : NodeConfig) (ks : Kubesim p)
      → Usable config
      → Adds (λ r. r.0) (pos_part config.node_number) ks (add_nodes p config ks)
  unfolding add_nodes
  add_nodes-Adds config ks u =
      let n = pos_part config.node_number in
      elim (Bool-cases (str_eq ks.add_node_strategy "prd")) [
        | inl rules ↦ rw rules (
            subst (λ k. Adds (λ r. r.0) k ks (add_switches p (build_rules_node n) config [] ks))
              (switches_lem n).0.0 (add_switches-Adds (build_rules_node n) config [] ks u))
        | inr plain ↦ rw plain (
            subst (λ k. Adds (λ r. r.0) k ks (add_switches p (build_node_switches n) config [] ks))
              (switches_lem n).1.0 (add_switches-Adds (build_node_switches n) config [] ks u))
      ]

  -- The wanted number of nodes, in the cluster and in the listing that is returned; or fewer, with the
  -- error of a creation that the clientset refused.
  abbrev pub Reaches :
      ℕ → Outcome (Kubesim p) (NodeConfig × Map (List String) × NodeInfoList p.Quantity) → Type 0
  Reaches count (done (config, access, found) s) =
      (found.node_number ≡ count) × (laws.size s.cluster ≡ count)
  Reaches count (fails e s) =
      (e ≡ wrapped "Unable to create simulator node" refused_error)
      × (laws.size s.cluster < count)
      × ((node : Node p.Quantity) × (p.nodes.create "" node s.cluster ≡ none))
  Reaches count panics = ⊥
  Reaches count blocks = ⊥

  at_count :
      (fuel count : ℕ) (config : NodeConfig) (access : Map (List String)) (ks : Kubesim p)
      → laws.size ks.cluster ≡ count
      → Reaches count (add_nodes_loop p (suc fuel) (pos count) config access ks)
  unfolding add_nodes_loop
  at_count fuel count config access ks h =
      let (l, e, listed, n) = list_nodes_lem p laws ks in rw (e, add_nodes_loop) (ground arith)

  added-Reaches :
      (fuel count : ℕ) (ks : Kubesim p) (o : Outcome (Kubesim p) (NodeConfig × Map (List String)))
      (k : ℕ)
      → Adds (λ r. r.0) k ks o
      → laws.size ks.cluster + k ≡ count
      → Reaches count (
          then_do
            (rewrap "Unable to create simulator node" o)
            (λ (config', access'). add_nodes_loop p (suc fuel) (pos count) config' access'))
  added-Reaches fuel count ks (done (config, access) s) k (e, u) h =
      at_count fuel count config access s (e ∙ h)
  added-Reaches fuel count ks (fails e s) k (less, (same, refused)) h =
      (ap (wrapped "Unable to create simulator node") same, omega arith, refused)
  added-Reaches fuel count ks panics k a h = a
  added-Reaches fuel count ks blocks k a h = a

  below_count :
      (fuel count : ℕ) (config : NodeConfig) (ks : Kubesim p)
      → Usable config
      → laws.size ks.cluster < count
      → Reaches count (add_nodes_loop p (suc (suc fuel)) (pos count) config [] ks)
  unfolding add_nodes_loop
  below_count fuel count config ks u h =
      let (l, e, listed, n) = list_nodes_lem p laws ks in
      let less : ltb_ℤ (pos l.node_number) (pos count) ≡ true = ground arith in
      let missing = record config { node_number = sub_ℕ count (0 + l.node_number) } in
      rw (e, add_nodes_loop, less)
        (added-Reaches fuel count ks (add_nodes p missing ks) (pos_part missing.node_number)
          (add_nodes-Adds missing ks (record { labels = u.labels; capacity = u.capacity }))
          (ground arith))

  above_count :
      (deletions : NodeDeletions p) (fuel count : ℕ) (config : NodeConfig) (ks : Kubesim p)
      → count < laws.size ks.cluster
      → Reaches count (add_nodes_loop p (suc (suc fuel)) (pos count) config [] ks)
  unfolding add_nodes_loop
  above_count deletions fuel count config ks h =
      let (l, e, listed, n) = list_nodes_lem p laws ks in
      let not_less : ltb_ℤ (pos l.node_number) (pos count) ≡ false = ground arith in
      let more : ltb_ℤ (pos count) (pos l.node_number) ≡ true = ground arith in
      let long = size-length p laws ks.cluster l.node_list listed in
      let fits : leb (l.node_number + 0 - count) (length l.node_list) ≡ true = ground arith in
      let (c, deleted, left) =
        delete_listed-take p laws deletions (l.node_number + 0 - count) l.node_list ks listed
          (omega arith) in
      rw (e, add_nodes_loop, not_less, more, fits, deleted)
        (at_count fuel count config [] (record ks { cluster = c }) (omega arith))

  -- More nodes are to be deleted than there are.
  negative_count :
      (fuel k : ℕ) (config : NodeConfig) (ks : Kubesim p)
      → add_nodes_loop p (suc fuel) (negsuc k) config [] ks ≡ panics
  unfolding add_nodes_loop
  negative_count fuel k config ks =
      let (l, e, listed, n) = list_nodes_lem p laws ks in
      let not_less : ltb_ℤ (pos l.node_number) (negsuc k) ≡ false = ground arith in
      let more : ltb_ℤ (negsuc k) (pos l.node_number) ≡ true = ground arith in
      let long = size-length p laws ks.cluster l.node_list listed in
      let short : leb (l.node_number + suc k - 0) (length l.node_list) ≡ false = ground arith in
      rw (e, add_nodes_loop, not_less, more, short) refl

  trichotomy : (a b : ℕ) → (a < b) ⊎ (a ≡ b) ⊎ (b < a)
  trichotomy a b = ground arith

  reaches :
      (deletions : NodeDeletions p) (fuel count : ℕ) (config : NodeConfig) (ks : Kubesim p)
      → Usable config
      → Reaches count (add_nodes_loop p (suc (suc fuel)) (pos count) config [] ks)
  reaches deletions fuel count config ks u = elim (trichotomy (laws.size ks.cluster) count) [
    | inl below ↦ below_count fuel count config ks u below
    | inr (inl same) ↦ at_count (suc fuel) count config [] ks same
    | inr (inr above) ↦ above_count deletions fuel count config ks above
  ]

  -- What `AddNodes` comes to for a number of nodes that may be negative.
  abbrev pub Settles :
      ℤ → Outcome (Kubesim p) (NodeConfig × Map (List String) × NodeInfoList p.Quantity) → Type 0
  Settles (pos count) o = Reaches count o
  Settles (negsuc k) o = o ≡ panics

  Settles-count :
      (deletions : NodeDeletions p) (fuel : ℕ) (count : ℤ) (config : NodeConfig) (ks : Kubesim p)
      → Usable config
      → Settles count (add_nodes_loop p (suc (suc fuel)) count config [] ks)
  Settles-count deletions fuel (pos count) config ks u = reaches deletions fuel count config ks u
  Settles-count deletions fuel (negsuc k) config ks u = negative_count (suc fuel) k config ks

  -- Asked for a number of nodes, with labels and a capacity, `AddNodes` ends, in two rounds of its
  -- loop and whatever nodes there were, with just that number of nodes in the cluster and in the
  -- listing that it returns, or with fewer and the error of a creation, where the clientset refuses
  -- to create a node; asked for a negative number, it panics.
  pub add_nodes_to-Settles :
      (deletions : NodeDeletions p) (fuel : ℕ) (config : NodeConfig) (ks : Kubesim p)
      → Usable config
      → Settles config.node_number (add_nodes_to p (suc (suc fuel)) config ks)
  unfolding add_nodes_to
  add_nodes_to-Settles deletions fuel config ks u =
      Settles-count deletions fuel config.node_number config ks u
