-- ===== src/Simulator.antt =====
-- pkg/scheduler/simulator.go, the struct `Kubesim`: the state that the emulators and the callbacks
-- of the scheduler share. The informers, the recorder, the schedulers' table and the locks have no
-- fields: each operation that the code runs under a lock is one step.
pub mod Pods
pub mod Runs
pub mod Emulators
pub mod Nodes
pub mod Usage
pub mod Prediction
use kubesim.Prelude.{ℕ, Bool, false, Option, none, List, [], String}
use kubesim.Prelude.Int.{ℤ, pos}
use kubesim.Prelude.Map.{Map}
use kubesim.Prelude.Text.{Text}
use kubesim.Platform.{Platform, Pod}
use kubesim.Report.{Status, Review}
use kubesim.Utils.{AppGroup}
use kubesim.Queue.{FifoQueue, new_fifo_queue}

-- `SchedulerPrediction`; the report list is a pointer.
pub record SchedulerPrediction (Quantity : Type 0) : Type 0 where
  pub success_apps_name : List String
  pub success_apps_count : ℤ
  pub failed_apps_count : ℤ
  pub first_app_failed_reason : Text
  pub prediction_go : Bool
  pub report_list : Option (List (Review Quantity))

pub record AccessSwitch : Type 0 where
  pub name : String
  pub node_number : ℤ
  pub node_name_list : List String

pub record AccessSwitchSpec : Type 0 where
  pub min_node : ℤ
  pub max_node : ℤ
  pub prediction_node : ℤ

pub record AccessSwitchStatus : Type 0 where
  pub prediction_node : ℤ
  pub access : List AccessSwitch

pub record PredictionNodeReview : Type 0 where
  pub spec : AccessSwitchSpec
  pub status : AccessSwitchStatus

-- `JobReport`
pub record JobReport (Quantity : Type 0) : Type 0 where
  pub job_id : String
  pub status : String
  pub report : List (Review Quantity)
  pub prediction_node : Option PredictionNodeReview

pub data Channel : Type 0 where
  unmade opened closed : Channel

-- What the scheduler's goroutines call: the bind plugin with a pod and a node, or the informer's
-- handler with an updated pod.
pub data Callback (Quantity : Type 0) : Type 0 where
  binds : Pod Quantity → String → Callback Quantity
  updates : Pod Quantity → Callback Quantity

-- `cluster` is the state behind `externalkubeclient`. `next_uuid` counts the UUIDs drawn, and
-- `callbacks` are the calls that the scheduler has still to make, in their order.
pub record Kubesim (p : Platform) : Type 0 where
  pub add_node_strategy : String
  pub default_scheduler_name : String
  pub cluster : p.Cluster
  pub simulated_pod : Option (Pod p.Quantity)
  pub last_simulated_pod : Option (Pod p.Quantity)
  pub max_simulated : ℤ
  pub simulated : ℤ
  pub status : Status p.Quantity
  pub report : Option (Review p.Quantity)
  pub emulator_result : Map (Option (List (Review p.Quantity)))
  pub prediction_node : Map PredictionNodeReview
  pub fifo_queue : FifoQueue (AppGroup p.Quantity)
  pub informer_stop_ch : Channel
  pub scheduler_ch : Channel
  pub stop : Channel
  pub stopped : Bool
  pub closed : Bool
  pub next_uuid : ℕ
  pub callbacks : List (Callback p.Quantity)

-- `New`, with the cluster and the callbacks of the run.
unfoldable pub new :
    (p : Platform) → String → p.Cluster → ℕ → List (Callback p.Quantity) → Kubesim p
unfolding new_fifo_queue
new p add_strategy cluster next_uuid callbacks = record {
  add_node_strategy = add_strategy;
  default_scheduler_name = "default-scheduler";
  cluster = cluster;
  simulated_pod = none;
  last_simulated_pod = none;
  max_simulated = pos 0;
  simulated = pos 0;
  status = record { pods = []; stop_reason = [] };
  report = none;
  emulator_result = [];
  prediction_node = [];
  fifo_queue = new_fifo_queue;
  informer_stop_ch = unmade;
  scheduler_ch = unmade;
  stop = unmade;
  stopped = false;
  closed = false;
  next_uuid = next_uuid;
  callbacks = callbacks;
}
