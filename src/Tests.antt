-- ===== src/Tests.antt =====
-- Test data: a small cluster that keeps lists of pods and nodes, and requests to it. Its children
-- instantiate the theorems on it.
pub mod Queues
pub mod Reports
pub mod Emulations
pub mod Nodes
pub mod Searches
pub mod Submissions
pub mod Mirrors
pub mod Routing
pub mod Starting
pub mod Failures
pub mod Placements
pub mod Decisions
use Prim.Native.String.{◌++◌ as str_append}
use kubesim.Prelude.{
  ◌≡◌, refl, ℕ, zero, suc, ◌+◌, Bool, true, false, not, Option, none, some, List, [], ◌∷◌, ◌++◌,
  String, str_eq, if◌then◌else◌,
}
use kubesim.Prelude.Int.{ℤ, pos, negsuc, add64}
use kubesim.Prelude.Map.{Map}
use kubesim.Platform.{Platform, Pod, Node, Resource, CachedNode}
use kubesim.Utils.{NodeConfig, NodeCapacity, PodRequest}
use kubesim.Simulator.{Kubesim, new, Callback, unmade}

pub record DeskCluster : Type 0 where
  pub pods : List (Pod ℤ)
  pub nodes : List (Node ℤ)

module _ {A : Type 0} (name_of : A → String) where
  abbrev pub find : String → List A → Option A
  find name [] = none
  find name (a ∷ as') = let rest = find name as' in if str_eq (name_of a) name then some a else rest

  abbrev pub remove : String → List A → List A
  remove name [] = []
  remove name (a ∷ as') =
      let rest = remove name as' in if str_eq (name_of a) name then as' else a ∷ rest

  abbrev pub replace : A → List A → List A
  replace new [] = []
  replace new (a ∷ as') =
      let rest = replace new as' in
      if str_eq (name_of a) (name_of new) then new ∷ rest else a ∷ rest

abbrev pub token : ℕ → String
token zero = "0a1b2c3"
token (suc i) = str_append "f" (token i)

abbrev pub desk : Platform
desk = record {
  Quantity = ℤ;
  milli = λ v. v;
  binary = λ v. v;
  decimal = λ v. v;
  add = add64;
  value = λ v. v;
  is_scalar_resource_name = λ name. str_eq name "nvidia.com/gpu";
  Cluster = DeskCluster;
  pods = record {
    list = λ namespace selector c. some c.pods;
    get = λ namespace name c. find (λ pod. pod.name) name c.pods;
    create = λ namespace pod c. some (record c { pods = c.pods ++ pod ∷ [] });
    update = λ namespace pod c. some (record c { pods = replace (λ pod. pod.name) pod c.pods });
    delete = λ namespace name c. some (record c { pods = remove (λ pod. pod.name) name c.pods });
  };
  nodes = record {
    list = λ namespace selector c. some c.nodes;
    get = λ namespace name c. find (λ node. node.name) name c.nodes;
    create = λ namespace node c. some (record c { nodes = c.nodes ++ node ∷ [] });
    update =
        λ namespace node c. some (record c { nodes = replace (λ node. node.name) node c.nodes });
    delete =
        λ namespace name c. some (record c { nodes = remove (λ node. node.name) name c.nodes });
  };
  dump = λ c. [];
  percent = λ used all. "12.5%";
  uuid = token;
}

abbrev pub web : Pod ℤ
web = record {
  name = "web";
  namespace = "default";
  uid = "1";
  annotations = none;
  labels = none;
  containers = record { requests = ("cpu", pos 500) ∷ [] } ∷ [];
  node_name = "";
  node_selector = none;
  scheduler_name = "default-scheduler";
  phase = "";
  nominated_node_name = "";
  conditions = [];
}

abbrev pub web_on : String → Pod ℤ
web_on node = record web { node_name = node }

-- A kubesim on an empty cluster, with the calls that its scheduler will make.
abbrev pub idle : List (Callback ℤ) → Kubesim desk
idle calls = record {
  add_node_strategy = "prd";
  default_scheduler_name = "default-scheduler";
  cluster = record { pods = []; nodes = [] };
  simulated_pod = none;
  last_simulated_pod = none;
  max_simulated = pos 0;
  simulated = pos 0;
  status = record { pods = []; stop_reason = [] };
  report = none;
  emulator_result = [];
  prediction_node = [];
  fifo_queue = record { app_group = []; queue = [] };
  informer_stop_ch = unmade;
  scheduler_ch = unmade;
  stop = unmade;
  stopped = false;
  closed = false;
  next_uuid = 0;
  callbacks = calls;
}

idle-new :
    (calls : List (Callback ℤ))
    → idle calls ≡ new desk "prd" (record { pods = []; nodes = [] }) 0 calls
unfolding new
idle-new calls = refl

abbrev pub node_config : NodeConfig
node_config = record {
  node_number = pos 5;
  node_capacity =
      some (record { gpu_number = pos 0; cpu = pos 4000; memory = pos 8192; storage = pos 100 });
  node_labels = some (("zone", "a") ∷ []);
}

abbrev pub stateful_web : PodRequest ℤ
stateful_web = record { pod = some web; replicas = pos 3; kind = "statefulset" }
