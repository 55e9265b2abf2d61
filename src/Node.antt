-- ===== src/Node.antt =====
-- pkg/node/config.go: the fake nodes. `metav1.Time` values, addresses, images and the system
-- information are constants or clock readings that nothing looks at, and are left out.
pub mod Labels
use kubesim.Prelude.{ℕ, Option, none, some, List, [], ◌∷◌, String}
use kubesim.Prelude.Int.{ℤ, pos, mul64}
use kubesim.Prelude.Map.{Map, insert}
use kubesim.Prelude.Text.{codes}
use kubesim.Platform.{Platform, Node, PodCondition}
use kubesim.Utils.{NodeCapacity, NodeConfig}

unfoldable pub build_node_condition : List PodCondition
build_node_condition =
    record {
      kind = "Ready";
      status = "True";
      reason = "KubeletReady";
      message = codes "kubelet is posting ready status";
    }
    ∷ record {
      kind = "NetworkUnavailable";
      status = "False";
      reason = "NetworkIsNotCorrectly";
      message = codes "Node network is not correctl configured";
    }
    ∷ record {
      kind = "MemoryPressure";
      status = "False";
      reason = "KubeletHasSufficientMemory";
      message = codes "kubelet has sufficient memory available";
    }
    ∷ record {
      kind = "DiskPressure";
      status = "False";
      reason = "KubeletHasNoDiskPressure";
      message = codes "kubelet has no disk pressure";
    }
    ∷ record {
      kind = "PIDPressure";
      status = "False";
      reason = "KubeletHasSufficientPID";
      message = codes "kubelet has sufficient PID available";
    }
    ∷ []

-- The labels that `BuildNode` writes into the map of the configuration, which all nodes share.
unfoldable pub node_labels : String → Map String → Map String
node_labels node_name labels = insert "provisioner" "kubesim" (
    insert "node-role.kubernetes.io/node" "" (
      insert "kubernetes.io/os" "linux"
        (insert "kubernetes.io/hostname" node_name (insert "kubernetes.io/arch" "amd64" labels))))

module _ (p : Platform) where
  open p use {Quantity, milli, binary, decimal}

  unfoldable pub build_node_capacity : NodeCapacity → Map Quantity
  build_node_capacity c =
      ("cpu", milli c.cpu)
      ∷ ("memory", binary (mul64 (mul64 c.memory 1024) 1024))
      ∷ ("ephemeral-storage", binary (mul64 (mul64 (mul64 c.storage 1024) 1024) 1024))
      ∷ ("pods", decimal (pos 100))
      ∷ ("nvidia.com/gpu", decimal c.gpu_number)
      ∷ []

  unfoldable pub build_node_allocatable : NodeCapacity → Map Quantity
  build_node_allocatable c =
      ("cpu", milli c.cpu)
      ∷ ("memory", binary (mul64 (mul64 c.memory 1024) 1024))
      ∷ ("ephemeral-storage", binary (mul64 (mul64 (mul64 c.storage 1024) 1024) 1024))
      ∷ ("pods", decimal (pos 100))
      ∷ ("nvidia.com/gpu", decimal c.gpu_number)
      ∷ []

  unfoldable pub built : String → NodeCapacity → Map String → Node Quantity
  unfolding build_node_capacity build_node_allocatable build_node_condition
  built node_name capacity labels = record {
    name = node_name;
    labels = labels;
    capacity = build_node_capacity capacity;
    allocatable = build_node_allocatable capacity;
    conditions = build_node_condition;
  }

  -- The node, and the configuration with its label map written. `none` is a panic: a write to a nil
  -- map, or a nil capacity.
  unfoldable pub build_node : NodeConfig → String → Option (Node Quantity × NodeConfig)
  unfolding node_labels built
  build_node config node_name = elim config.node_labels [
    | none ↦ none
    | some labels ↦ elim config.node_capacity [
      | none ↦ none
      | some capacity ↦ some (
        built node_name capacity (node_labels node_name labels),
        record config { node_labels = some (node_labels node_name labels) },
      )
    ]
  ]
