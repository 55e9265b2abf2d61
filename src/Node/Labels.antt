-- ===== src/Node/Labels.antt =====
-- What every fake node carries.
use kubesim.Prelude.{◌≡◌, refl, Bool, ◌||◌, if◌then◌else◌, none, some, String, arith, str_eq}
use kubesim.Prelude.Map.{Map, lookup, lookup-insert}
use kubesim.Platform.{Platform, Node}
use kubesim.Utils.{NodeConfig, NodeCapacity}
use kubesim.Node.{node_labels, built, build_node}

-- The keys that `BuildNode` writes.
abbrev pub is_written : String → Bool
is_written k =
    str_eq "provisioner" k
    || str_eq "node-role.kubernetes.io/node" k
    || str_eq "kubernetes.io/os" k
    || str_eq "kubernetes.io/hostname" k
    || str_eq "kubernetes.io/arch" k

-- A configuration with labels and a capacity gives a node of the given name with the label
-- `provisioner=kubesim` and its own host name, whose other labels are those of the configuration
-- (five keys are written), and which may allocate all of its capacity.
pub build_node_lem :
    (p : Platform) (config : NodeConfig) (name : String) (labels : Map String) (c : NodeCapacity)
    → config.node_labels ≡ some labels
    → config.node_capacity ≡ some c
    → (node : Node p.Quantity) × (config' : NodeConfig) × (build_node p config name
        ≡ some (node, config'))
      × (node.name ≡ name)
      × (lookup "provisioner" node.labels ≡ some "kubesim")
      × (lookup "kubernetes.io/hostname" node.labels ≡ some name)
      × (config'.node_labels ≡ some node.labels)
      × (node.capacity ≡ node.allocatable)
      × ((k : String)
          → (if is_written k then none else lookup k node.labels)
            ≡ (if is_written k then none else lookup k labels))
unfolding build_node
build_node_lem p config name labels c hl hc = (
  built p name c (node_labels name labels),
  record config { node_labels = some (node_labels name labels) },
  ground arith,
  refl,
  simp lookup-insert,
  simp lookup-insert,
  refl,
  refl,
  λ k. simp lookup-insert (ground arith),
)
