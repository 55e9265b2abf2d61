-- ===== src/Emulator.antt =====
-- pkg/scheduler/emulator.go: the emulators as the routes hold them, and the constructors of
-- pkg/scheduler/scheduler_emulator.go. `cache`, the kubesim, is the state that `func` runs on; the
-- handlers hand on what `func` returns, its error included. Where the type of `Func` has no error, as
-- for apps and predictions, the result of the `func` that its constructor sets is never `fails`.
use kubesim.Prelude.{ℕ, List, String}
use kubesim.Prelude.Exec.{Exec}
use kubesim.Platform.{Platform}
use kubesim.Report.{Review}
use kubesim.Utils.{PodRequest, NodeConfig}
use kubesim.Simulator.{Kubesim, JobReport, SchedulerPrediction}
use kubesim.Simulator.Nodes.{NodeInfoList}
use kubesim.Simulator.Usage.{NodeInfo}
use kubesim.Jobs.{
  RealApps, submit_apps, submit_horizontal, submit_vertical, submit_prediction, emulator_report,
  add_nodes_emulator, list_nodes_emulator, list_node_info_emulator, delete_nodes_emulator,
  deprecated_prediction_emulator, deprecated_apps_emulator,
}

module _ (p : Platform) where
  open p use {Quantity}

  pub record AppsEmulator : Type 0 where
    pub name : String
    pub func : List NodeConfig → List (PodRequest Quantity) → Exec (Kubesim p) String

  unfoldable pub apps_handler :
      AppsEmulator → List NodeConfig → List (PodRequest Quantity) → Exec (Kubesim p) String
  apps_handler e nodes apps = e.func nodes apps

  pub record HorizontalEmulator : Type 0 where
    pub name : String
    pub func : List NodeConfig → List (PodRequest Quantity) → Exec (Kubesim p) String

  unfoldable pub horizontal_handler :
      HorizontalEmulator → List NodeConfig → List (PodRequest Quantity) → Exec (Kubesim p) String
  horizontal_handler e nodes apps = e.func nodes apps

  pub record VerticalEmulator : Type 0 where
    pub name : String
    pub func : List NodeConfig → List (PodRequest Quantity) → Exec (Kubesim p) String

  unfoldable pub vertical_handler :
      VerticalEmulator → List NodeConfig → List (PodRequest Quantity) → Exec (Kubesim p) String
  vertical_handler e nodes apps = e.func nodes apps

  pub record PredictionEmulator : Type 0 where
    pub name : String
    pub func : List NodeConfig → List (PodRequest Quantity) → Exec (Kubesim p) String

  unfoldable pub prediction_handler :
      PredictionEmulator → List NodeConfig → List (PodRequest Quantity) → Exec (Kubesim p) String
  prediction_handler e nodes apps = e.func nodes apps

  pub record EmulatorReport : Type 0 where
    pub name : String
    pub func : String → Exec (Kubesim p) (JobReport Quantity)

  unfoldable pub emulator_report_handler :
      EmulatorReport → String → Exec (Kubesim p) (JobReport Quantity)
  emulator_report_handler e id = e.func id

  pub record AddNodesEmulator : Type 0 where
    pub name : String
    pub func : NodeConfig → Exec (Kubesim p) (NodeInfoList Quantity)

  unfoldable pub add_nodes_handler :
      AddNodesEmulator → NodeConfig → Exec (Kubesim p) (NodeInfoList Quantity)
  add_nodes_handler e config = e.func config

  pub record ListNodesEmulator : Type 0 where
    pub name : String
    pub func : Exec (Kubesim p) (NodeInfoList Quantity)

  unfoldable pub list_nodes_handler : ListNodesEmulator → Exec (Kubesim p) (NodeInfoList Quantity)
  list_nodes_handler e = e.func

  pub record ListNodeInfoEmulator : Type 0 where
    pub name : String
    pub func : Exec (Kubesim p) (List NodeInfo)

  unfoldable pub list_node_info_handler : ListNodeInfoEmulator → Exec (Kubesim p) (List NodeInfo)
  list_node_info_handler e = e.func

  pub record DeleteNodesEmulator : Type 0 where
    pub name : String
    pub func : Exec (Kubesim p) Unit

  unfoldable pub delete_nodes_handler : DeleteNodesEmulator → Exec (Kubesim p) Unit
  delete_nodes_handler e = e.func

  pub record DeprecatedPredictionEmulator : Type 0 where
    pub name : String
    pub func :
        List NodeConfig
        → List (PodRequest Quantity)
        → Exec (Kubesim p) (SchedulerPrediction Quantity)

  unfoldable pub deprecated_prediction_handler :
      DeprecatedPredictionEmulator
      → List NodeConfig
      → List (PodRequest Quantity)
      → Exec (Kubesim p) (SchedulerPrediction Quantity)
  deprecated_prediction_handler e nodes apps = e.func nodes apps

  pub record DeprecatedAppsEmulator : Type 0 where
    pub name : String
    pub func :
        List NodeConfig → List (PodRequest Quantity) → Exec (Kubesim p) (List (Review Quantity))

  unfoldable pub deprecated_apps_handler :
      DeprecatedAppsEmulator
      → List NodeConfig
      → List (PodRequest Quantity)
      → Exec (Kubesim p) (List (Review Quantity))
  deprecated_apps_handler e nodes apps = e.func nodes apps

  module _ (real : RealApps) (fuel : ℕ) where
    unfoldable pub new_apps_emulator : AppsEmulator
    unfolding submit_apps
    new_apps_emulator = record { name = "AppsEmulator"; func = λ nodes apps. submit_apps p apps }

    unfoldable pub new_horizontal_emulator : HorizontalEmulator
    unfolding submit_horizontal
    new_horizontal_emulator = record {
      name = "HorizontalEmulator";
      func = λ nodes apps. submit_horizontal p real apps;
    }

    unfoldable pub new_vertical_emulator : VerticalEmulator
    unfolding submit_vertical
    new_vertical_emulator = record {
      name = "VerticalEmulator";
      func = λ nodes apps. submit_vertical p real apps;
    }

    unfoldable pub new_prediction_emulator : PredictionEmulator
    unfolding submit_prediction
    new_prediction_emulator = record {
      name = "PredictionEmulator";
      func = λ nodes apps. submit_prediction p nodes apps;
    }

    unfoldable pub new_emulator_report : EmulatorReport
    unfolding emulator_report
    new_emulator_report = record { name = "EmulatorReport"; func = λ id. emulator_report p id }

    unfoldable pub new_add_nodes_emulator : AddNodesEmulator
    unfolding add_nodes_emulator
    new_add_nodes_emulator = record {
      name = "nodesimulator";
      func = λ config. add_nodes_emulator p fuel config;
    }

    unfoldable pub new_list_nodes_emulator : ListNodesEmulator
    unfolding list_nodes_emulator
    new_list_nodes_emulator = record { name = "nodesimulator"; func = list_nodes_emulator p fuel }

    unfoldable pub new_list_node_info_emulator : ListNodeInfoEmulator
    unfolding list_node_info_emulator
    new_list_node_info_emulator = record {
      name = "nodeinfosimulator";
      func = list_node_info_emulator p fuel;
    }

    unfoldable pub new_delete_nodes_emulator : DeleteNodesEmulator
    unfolding delete_nodes_emulator
    new_delete_nodes_emulator = record {
      name = "nodesimulator";
      func = delete_nodes_emulator p fuel;
    }

    unfoldable pub new_deprecated_prediction_emulator : DeprecatedPredictionEmulator
    unfolding deprecated_prediction_emulator
    new_deprecated_prediction_emulator = record {
      name = "deprecatedschedulerprediction";
      func = λ nodes apps. deprecated_prediction_emulator p fuel apps;
    }

    unfoldable pub new_deprecated_apps_emulator : DeprecatedAppsEmulator
    unfolding deprecated_apps_emulator
    new_deprecated_apps_emulator = record {
      name = "scheduleremulator";
      func = λ nodes apps. deprecated_apps_emulator p fuel apps;
    }
