-- ===== src/Tests/Nodes.antt =====
-- Fake nodes.
use kubesim.Prelude.{
  ℕ, not, Option, sym, ap, ◌∙◌, length-append, ◌+◌, ◌*◌, ◌≤◌, ◌<◌, ◌≡◌, refl, none, some, List, [],
  ◌∷◌, String, sum, length, if◌then◌else◌,
}
use kubesim.Prelude.Int.{ℤ, pos}
use kubesim.Prelude.Map.{Map, lookup}
use kubesim.Platform.{Node, CachedNode}
use kubesim.Utils.{NodeConfig, NodeCapacity}
use kubesim.Node.{build_node}
use kubesim.Node.Labels.{is_written, build_node_lem}
use kubesim.Simulator.Nodes.{
  NodeInfoList, or_zero, access_num, build_rules_node, build_node_switches, node_info_list,
}
use kubesim.Simulator.Nodes.Switches.{Fits, switches_lem}
use kubesim.Simulator.Nodes.Listing.{
  count_where, is_running, is_unbound, is_on, is_cached, node_info_list_lem,
}
use kubesim.Simulator.Nodes.{add_nodes_to}
use kubesim.Simulator.Nodes.Laws.{NodeLaws, NodeDeletions}
use kubesim.Simulator.Nodes.Adding.{Usable, Settles, add_nodes_to-Settles}
use text.Mathlib.TextPositions.{eq_refl}
use kubesim.Simulator.{Kubesim}
use kubesim.Simulator.Nodes.{create_fake_node}
use kubesim.Simulator.Nodes.Deleting.{Creates, create_fake_node-Creates}
use kubesim.Tests.Emulations.{desk_pods}
use kubesim.Tests.{remove, desk, DeskCluster, web, web_on, node_config, idle}

split : build_node_switches 100 ≡ 45 ∷ 45 ∷ 10 ∷ []
unfolding build_node_switches
split = refl

switches_lem_example :
    ((sum (build_rules_node 91) ≡ 91) × Fits (build_rules_node 91))
    × ((sum (build_node_switches 91) ≡ 91) × Fits (build_node_switches 91))
    × ((91 ≤ length (build_node_switches 91) * access_num)
        × (length (build_node_switches 91) * access_num < 91 + access_num))
switches_lem_example = switches_lem 91

abbrev labels : Map String
labels = ("zone", "a") ∷ []

abbrev capacity : NodeCapacity
capacity = record { gpu_number = pos 0; cpu = pos 4000; memory = pos 8192; storage = pos 100 }

build_node_lem_example :
    (node : Node ℤ) × (config' : NodeConfig) × (build_node desk node_config "fake-1"
      ≡ some (node, config'))
    × (node.name ≡ "fake-1")
    × (lookup "provisioner" node.labels ≡ some "kubesim")
    × (lookup "kubernetes.io/hostname" node.labels ≡ some "fake-1")
    × (config'.node_labels ≡ some node.labels)
    × (node.capacity ≡ node.allocatable)
    × ((k : String)
        → (if is_written k then none else lookup k node.labels)
          ≡ (if is_written k then none else lookup k labels))
build_node_lem_example = build_node_lem desk node_config "fake-1" labels capacity refl refl

abbrev pub node_of : String → Node ℤ
node_of name = record { name = name; labels = []; capacity = []; allocatable = []; conditions = [] }

abbrev pub two_nodes : List (Node ℤ)
two_nodes = node_of "n1" ∷ node_of "n2" ∷ []

abbrev pub cache : Map CachedNode
cache =
    (
      "n1",
      record {
        pod_count = 2;
        requested_milli_cpu = pos 500;
        requested_memory = pos 64;
        allocatable_milli_cpu = pos 4000;
        allocatable_memory = pos 8192;
      },
    )
    ∷ []

abbrev listing : NodeInfoList ℤ
listing = node_info_list desk two_nodes (web ∷ web_on "n1" ∷ []) cache

node_info_list_lem_example :
    (listing.running_pod ≡ count_where is_running (web ∷ web_on "n1" ∷ []))
    × (listing.not_running_pod ≡ count_where (λ pod. not (is_running pod)) (web ∷ web_on "n1" ∷ []))
    × (listing.bind_failed ≡ count_where is_unbound (web ∷ web_on "n1" ∷ []))
    × (listing.bind_success ≡ count_where (λ pod. not (is_unbound pod)) (web ∷ web_on "n1" ∷ []))
    × (listing.node_info_number ≡ count_where (is_cached cache) two_nodes)
    × (listing.not_node_info_number ≡ count_where (λ node. not (is_cached cache node)) two_nodes)
    × (listing.node_number ≡ 2)
    × (listing.pod_number ≡ 2)
    × ((name : String)
        → or_zero (lookup name listing.node_pods)
          ≡ count_where (is_on name) (web ∷ web_on "n1" ∷ []))
node_info_list_lem_example = node_info_list_lem desk two_nodes (web ∷ web_on "n1" ∷ []) cache

abbrev size_or_zero : Option DeskCluster → ℕ
size_or_zero none = 0
size_or_zero (some c) = length c.nodes

desk_laws : NodeLaws desk
desk_laws = record {
  size = λ c. length c.nodes;
  listed = λ c. (c.nodes, refl, refl);
  pods_listed = λ c. (c.pods, refl);
  created = λ node c c' e. sym (ap size_or_zero e) ∙ length-append c.nodes (node ∷ []);
}

node_config-Usable : Usable node_config
node_config-Usable = record { labels = (labels, refl); capacity = (capacity, refl) }

abbrev nodes_or_none : Option (List (Node ℤ)) → List (Node ℤ)
nodes_or_none none = []
nodes_or_none (some ns) = ns

desk_deletions : NodeDeletions desk
desk_deletions = record {
  deleted = λ c node rest e. (
    record c { nodes = rest },
    ap (λ ns. some (record c { nodes = remove (λ node. node.name) node.name (nodes_or_none ns) })) e
        ∙ rw (eq_refl node.name) refl,
    refl,
  );
}

abbrev two_old_nodes : Kubesim desk
two_old_nodes = record (idle []) { cluster = record { pods = web ∷ []; nodes = two_nodes } }

abbrev six_nodes : List (Node ℤ)
six_nodes = node_of "n6" ∷ node_of "n5" ∷ node_of "n4" ∷ node_of "n3" ∷ two_nodes

abbrev many_old_nodes : Kubesim desk
many_old_nodes = record (idle []) { cluster = record { pods = []; nodes = six_nodes } }

add_nodes_to-Settles_example :
    Settles desk desk_laws (pos 5) (add_nodes_to desk 2 node_config many_old_nodes)
add_nodes_to-Settles_example =
    add_nodes_to-Settles desk desk_laws desk_deletions 0 node_config many_old_nodes
      node_config-Usable

create_fake_node-Creates_example :
    Creates desk desk_laws desk_pods desk_deletions 7
      (create_fake_node desk 2 node_config (pos 7) two_old_nodes)
create_fake_node-Creates_example =
    create_fake_node-Creates desk desk_laws desk_pods desk_deletions 0 7 node_config two_old_nodes
      node_config-Usable
