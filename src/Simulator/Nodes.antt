-- ===== src/Simulator/Nodes.antt =====
-- pkg/scheduler/simulator.go: the fake nodes of the cluster, in access switches of at most 45 nodes.
-- `fuel` bounds the rounds of `AddNodes` and of `CleanPod`; a loop out of fuel blocks.
pub mod Switches
pub mod Adding
pub mod Deleting
pub mod Listing
pub mod Laws
use Prim.Native.String.{slice, ◌++◌ as str_append}
use kubesim.Prelude.{
  ℕ, zero, suc, ◌+◌, ◌-◌, ◌*◌, ◌/◌, ◌%◌, Bool, true, false, not, Option, none, some, List, [], ◌∷◌,
  ◌++◌, String, str_eq, ◌==◌, ltb, leb, if◌then◌else◌, length, take, replicate,
}
use kubesim.Prelude.Int.{ℤ, pos, pos_part, neg_part, sub_ℕ, ltb_ℤ}
use kubesim.Prelude.Map.{Map, lookup, insert}
use kubesim.Prelude.Text.{Error, client, message, wrapped}
use kubesim.Prelude.Exec.{
  Outcome, done, fails, panics, blocks, Exec, ◌>>=◌, ◌>>◌, pure, raise, gets, crash, wrap, ignore,
  forget,
}
use kubesim.Platform.{Platform, Pod, Node, Resource, CachedNode}
use kubesim.Utils.{NodeConfig}
use kubesim.Node.{build_node}
use kubesim.Simulator.{Kubesim}
use kubesim.Simulator.Pods.{change}
use kubesim.Simulator.Emulators.{clean_pod}

abbrev pub access_num : ℕ
access_num = 45

-- `n` full switches, then one with the remainder.
abbrev full_switches : ℕ → List ℕ
full_switches n =
    replicate (n / access_num) access_num
    ++ (if not (n % access_num == 0) then (n % access_num) ∷ [] else [])

-- `buildRulesNode`: up to two full switches, the nodes are split over two.
unfoldable pub build_rules_node : ℕ → List ℕ
build_rules_node n =
    if leb n (2 * access_num) then (n / 2) ∷ (n / 2 + n % 2) ∷ [] else full_switches n

-- `buildNode`
unfoldable pub build_node_switches : ℕ → List ℕ
build_node_switches n = full_switches n

-- `utils.NodeInfoList`
pub record NodeInfoList (Quantity : Type 0) : Type 0 where
  pub node_number : ℕ
  pub pod_number : ℕ
  pub running_pod : ℕ
  pub status : String
  pub not_running_pod : ℕ
  pub node_info_pod_number : ℕ
  pub node_info_number : ℕ
  pub not_node_info_number : ℕ
  pub bind_failed : ℕ
  pub bind_success : ℕ
  pub node_pods : Map ℕ
  pub node_info_pods : Map ℕ
  pub node_list : List (Node Quantity)

abbrev pub or_zero : Option ℕ → ℕ
or_zero none = 0
or_zero (some n) = n

-- The body of the loop over the pods of `ListNodes`.
unfoldable pub count_pod : {Q : Type 0} → Pod Q → NodeInfoList Q → NodeInfoList Q
count_pod pod l =
    let n = or_zero (lookup pod.node_name l.node_pods) in
    let running = str_eq pod.phase "Running" in
    let unbound = str_eq pod.node_name "" in
    record l {
      node_pods = insert pod.node_name (if not (n == 0) then n + 1 else 1) l.node_pods;
      running_pod = if running then l.running_pod + 1 else l.running_pod;
      not_running_pod = if running then l.not_running_pod else l.not_running_pod + 1;
      status = if running then l.status else pod.phase;
      bind_failed = if unbound then l.bind_failed + 1 else l.bind_failed;
      bind_success = if unbound then l.bind_success else l.bind_success + 1;
    }

unfoldable pub count_pods : {Q : Type 0} → List (Pod Q) → NodeInfoList Q → NodeInfoList Q
unfolding count_pod
count_pods [] l = l
count_pods (pod ∷ pods) l = count_pods pods (count_pod pod l)

-- The body of the loop over the nodes: a node that the scheduler's snapshot knows, with its pods, or
-- one that it does not know.
unfoldable pub count_node : {Q : Type 0} → Option CachedNode → NodeInfoList Q → NodeInfoList Q
count_node none l = record l { not_node_info_number = l.not_node_info_number + 1 }
count_node (some info) l = record l {
  node_info_number = l.node_info_number + 1;
  node_info_pod_number = l.node_info_pod_number + info.pod_count;
}

unfoldable pub count_nodes :
    {Q : Type 0} → Map CachedNode → List (Node Q) → NodeInfoList Q → NodeInfoList Q
unfolding count_node
count_nodes snapshot [] l = l
count_nodes snapshot (node ∷ nodes) l =
    count_nodes snapshot nodes (count_node (lookup node.name snapshot) l)

unfoldable pub snapshot_pods : Map CachedNode → Map ℕ → Map ℕ
snapshot_pods [] m = m
snapshot_pods ((key, info) ∷ rest) m = snapshot_pods rest (insert key info.pod_count m)

abbrev pub nothing_counted : {Q : Type 0} → List (Node Q) → ℕ → Map ℕ → NodeInfoList Q
nothing_counted nodes pod_number infos = record {
  node_number = length nodes;
  pod_number = pod_number;
  running_pod = 0;
  status = "";
  not_running_pod = 0;
  node_info_pod_number = 0;
  node_info_number = 0;
  not_node_info_number = 0;
  bind_failed = 0;
  bind_success = 0;
  node_pods = [];
  node_info_pods = infos;
  node_list = nodes;
}

module _ (p : Platform) where
  open p use {Quantity, Cluster, pods, nodes, dump, uuid}

  -- The lists and counts of `ListNodes` after both lists were read. All nodes are listed, not only
  -- the fake ones; of the pods only those of kubesim.
  unfoldable pub node_info_list :
      List (Node Quantity) → List (Pod Quantity) → Map CachedNode → NodeInfoList Quantity
  unfolding count_pods count_nodes snapshot_pods
  node_info_list all_nodes all_pods snapshot = count_nodes snapshot all_nodes (
      count_pods all_pods (nothing_counted all_nodes (length all_pods) (snapshot_pods snapshot [])))

  abbrev or_client : {A : Type 0} → Option A → Exec (Kubesim p) A
  or_client none = raise client
  or_client (some a) = pure a

  -- `ListNodes`
  unfoldable pub list_nodes : Exec (Kubesim p) (NodeInfoList Quantity)
  unfolding node_info_list
  list_nodes ks =
      (do
        all_nodes ← wrap "unable to get fake node list" (or_client (nodes.list "" "" ks.cluster))
        all_pods ←
            wrap "unable to get pod list"
              (or_client (pods.list "" "provisioner=kubesim" ks.cluster))
        pure (node_info_list all_nodes all_pods (dump ks.cluster)))
        ks

  -- The UUID that is drawn next.
  abbrev draw : Exec (Kubesim p) String
  draw ks = done (uuid ks.next_uuid) (record ks { next_uuid = ks.next_uuid + 1 })

  abbrev or_crash : {A : Type 0} → Option A → Exec (Kubesim p) A
  or_crash none = crash
  or_crash (some a) = pure a

  -- The inner loop of `addNodes`: `n` nodes of one switch, and their names.
  unfoldable pub add_switch_nodes :
      ℕ → NodeConfig → List String → Exec (Kubesim p) (NodeConfig × List String)
  unfolding build_node change
  add_switch_nodes zero config names = pure (config, names)
  add_switch_nodes (suc n) config names = do
    id ← draw
    let name = str_append "fake-" id
    (node, config') ← or_crash (build_node p config name)
    wrap "unable to create fake node" (change p (nodes.create "" node))
    add_switch_nodes n config' (names ++ name ∷ [])

  -- `nodeConfig.NodeLabels["accessSwitch"] = name`; a write to a nil map panics.
  abbrev label_switch : String → NodeConfig → Exec (Kubesim p) NodeConfig
  label_switch name config = elim config.node_labels [
    | none ↦ crash
    | some labels ↦ pure (record config { node_labels = some (insert "accessSwitch" name labels) })
  ]

  -- The outer loop, over the switches.
  unfoldable pub add_switches :
      List ℕ → NodeConfig → Map (List String) → Exec (Kubesim p) (NodeConfig × Map (List String))
  unfolding add_switch_nodes
  add_switches [] config access = pure (config, access)
  add_switches (size ∷ sizes) config access = do
    id ← draw
    let switch = str_append "access" (slice id 0 7)
    labelled ← label_switch switch config
    (config', names) ← add_switch_nodes size labelled []
    add_switches sizes config' (insert switch names access)

  -- `addNodes`, which `AddNodes` calls for a positive number of nodes only.
  unfoldable pub add_nodes : NodeConfig → Exec (Kubesim p) (NodeConfig × Map (List String))
  unfolding build_rules_node build_node_switches add_switches
  add_nodes config ks =
      add_switches
        (if str_eq ks.add_node_strategy "prd"
          then build_rules_node (pos_part config.node_number)
          else build_node_switches (pos_part config.node_number))
        config [] ks

  -- Node deletions whose errors are only logged.
  unfoldable pub delete_listed : List (Node Quantity) → Exec (Kubesim p) Unit
  unfolding change
  delete_listed [] = pure tt
  delete_listed (node ∷ rest) = do ignore (change p (nodes.delete "" node.name)); delete_listed rest

  -- `Items[0:n]`. Go compares `n` with the capacity of the slice, which is at least its length; what lies
  -- behind the length are not nodes of the cluster.
  abbrev pub first_items : {A : Type 0} → ℕ → List A → Exec (Kubesim p) (List A)
  first_items n items = if leb n (length items) then pure (take n items) else crash

  -- The loop of `AddNodes` towards `count` nodes: it lists, and adds what is missing or deletes the
  -- first nodes too many, which for a negative count are more than there are. The result also has
  -- the configuration as the pointer's target is left.
  unfoldable pub add_nodes_loop :
      ℕ
      → ℤ
      → NodeConfig
      → Map (List String)
      → Exec (Kubesim p) (NodeConfig × Map (List String) × NodeInfoList Quantity)
  unfolding list_nodes add_nodes delete_listed
  add_nodes_loop zero count config access ks = blocks
  add_nodes_loop (suc fuel) count config access ks =
      let again = add_nodes_loop fuel count in
      (do
        found ← wrap "Unable to list simulator node" list_nodes
        if ltb_ℤ (pos found.node_number) count
            then (do
              (config', access') ← wrap "Unable to create simulator node" (
                  add_nodes (record config {
                    node_number = sub_ℕ (pos_part count) (neg_part count + found.node_number);
                  }))
              again config' access')
            else if ltb_ℤ count (pos found.node_number)
            then (do
              surplus ←
                  first_items (found.node_number + neg_part count - pos_part count) found.node_list
              delete_listed surplus
              again config access)
            else pure (config, access, found))
        ks

  -- `AddNodes`
  unfoldable pub add_nodes_to :
      ℕ → NodeConfig → Exec (Kubesim p) (NodeConfig × Map (List String) × NodeInfoList Quantity)
  unfolding add_nodes_loop
  add_nodes_to fuel config = add_nodes_loop fuel config.node_number config []

  -- `DeleteNodes`
  unfoldable pub delete_nodes : ℕ → Exec (Kubesim p) Unit
  unfolding list_nodes delete_listed clean_pod
  delete_nodes fuel = do
    ignore (clean_pod p fuel)
    found ← wrap "Unable to list simulator node" list_nodes
    delete_listed found.node_list

  -- The error of `CreateFakeNode` drops that of `AddNodes`.
  abbrev pub created : {A : Type 0} → Outcome (Kubesim p) A → Outcome (Kubesim p) A
  created (fails e s) = fails (message "failed to create nodes") s
  created (done a s) = done a s
  created panics = panics
  created blocks = blocks

  -- `CreateFakeNode`, with the configuration that is left behind its pointer.
  unfoldable pub create_fake_node :
      ℕ → NodeConfig → ℤ → Exec (Kubesim p) (NodeConfig × Map (List String))
  unfolding delete_nodes add_nodes_to
  create_fake_node fuel config count = do
    ignore (delete_nodes fuel)
    (config', access, found) ←
        λ ks. created (add_nodes_to fuel (record config { node_number = count }) ks)
    pure (config', access)
