-- ===== src/Platform.antt =====
-- What the program takes from outside its own sources: the fields that it reads or writes of the
-- Kubernetes API types, and the operations that it calls. Everything of `Platform` is a parameter.
use kubesim.Prelude.{ℕ, Bool, Option, List, String}
use kubesim.Prelude.Int.{ℤ}
use kubesim.Prelude.Map.{Map}
use kubesim.Prelude.Text.{Text}

-- `v1.Container`: the resource requests. `Quantity` is `resource.Quantity`.
pub record Container (Quantity : Type 0) : Type 0 where
  pub requests : Map Quantity

-- `v1.PodCondition`
pub record PodCondition : Type 0 where
  pub kind : String
  pub status : String
  pub reason : String
  pub message : Text

-- `v1.Pod`, the fields of its metadata, specification and status side by side. A nil map is `none`.
pub record Pod (Quantity : Type 0) : Type 0 where
  pub name : String
  pub namespace : String
  pub uid : String
  pub annotations : Option (Map String)
  pub labels : Option (Map String)
  pub containers : List (Container Quantity)
  pub node_name : String
  pub node_selector : Option (Map String)
  pub scheduler_name : String
  pub phase : String
  pub nominated_node_name : String
  pub conditions : List PodCondition

-- `v1.Node`: `capacity` and `allocatable` are the resource lists.
pub record Node (Quantity : Type 0) : Type 0 where
  pub name : String
  pub labels : Map String
  pub capacity : Map Quantity
  pub allocatable : Map Quantity
  pub conditions : List PodCondition

-- One resource of a clientset, as `client.CoreV1().Pods(namespace)`. `none` is an error. A call
-- that changes the cluster returns the new one; `list` takes a namespace and a label selector.
pub record Resource (Cluster Obj : Type 0) : Type 0 where
  pub list : String → String → Cluster → Option (List Obj)
  pub get : String → String → Cluster → Option Obj
  pub create : String → Obj → Cluster → Option Cluster
  pub update : String → Obj → Cluster → Option Cluster
  pub delete : String → String → Cluster → Option Cluster

-- What the program reads of an entry of the scheduler's cache: the number of its pods, and of
-- `Requested` and `Allocatable` the fields `MilliCPU` and `Memory`.
pub record CachedNode : Type 0 where
  pub pod_count : ℕ
  pub requested_milli_cpu : ℤ
  pub requested_memory : ℤ
  pub allocatable_milli_cpu : ℤ
  pub allocatable_memory : ℤ

pub record Platform : Type 1 where
  pub Quantity : Type 0
  -- `NewMilliQuantity(_, DecimalSI)`, `NewQuantity(_, BinarySI)`, `NewQuantity(_, DecimalSI)`
  pub milli : ℤ → Quantity
  pub binary : ℤ → Quantity
  pub decimal : ℤ → Quantity
  pub add : Quantity → Quantity → Quantity
  pub value : Quantity → ℤ
  -- `schedutil.IsScalarResourceName`
  pub is_scalar_resource_name : String → Bool
  -- The state of the fake clientset, and its resources.
  pub Cluster : Type 0
  pub pods : Resource Cluster (Pod Quantity)
  pub nodes : Resource Cluster (Node Quantity)
  -- `SchedulerCache.Dump().Nodes`
  pub dump : Cluster → Map CachedNode
  -- `fmt.Sprintf("%v%v", float64(used)/float64(all)*100, "%")`
  pub percent : ℤ → ℤ → String
  -- The i-th UUID that is drawn.
  pub uuid : ℕ → String
