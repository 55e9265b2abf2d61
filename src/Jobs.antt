-- ===== src/Jobs.antt =====
-- pkg/scheduler/scheduler_emulator.go and `Run` of simulator.go: jobs are submitted to the queue, run
-- one at a time, and reported on. `RealApps` is the real cluster's clientset, as far as it is read.
pub mod Reports
pub mod Running
pub mod Failing
pub mod Answers
pub mod Deciding
use kubesim.Prelude.{
  ℕ, ◌+◌, Bool, true, false, not, Option, none, some, List, [], ◌∷◌, ◌++◌, String, str_eq,
  if◌then◌else◌,
}
use kubesim.Prelude.Int.{ℤ, pos, leb_ℤ, sub32}
use kubesim.Prelude.Map.{Map, lookup, insert, present}
use kubesim.Prelude.Text.{Text, Error, client, message, wrapped}
use kubesim.Prelude.Exec.{
  Outcome, done, fails, panics, blocks, Exec, ◌>>=◌, ◌>>◌, pure, raise, crash, wrap, ignore, forget,
  modify,
}
use kubesim.Platform.{Platform, Pod, Container, Resource}
use kubesim.Report.{Review, len32}
use kubesim.Queue.{FifoQueue, Popped, found, err_empty_queue, push, pop, get}
use kubesim.Utils.{AppGroup, PodRequest, NodeConfig}
use kubesim.Simulator.{Kubesim, JobReport, SchedulerPrediction, PredictionNodeReview}
use kubesim.Simulator.Pods.{clean_status_pods}
use kubesim.Simulator.Emulators.{
  get_app_pod, reports_status, emulate_apps, apps_emulator, apps_pod_emulator, horizontal_emulator,
  vertical_emulator, clean_pod, create_apps,
}
use kubesim.Simulator.Nodes.{NodeInfoList, add_nodes_to, list_nodes, delete_nodes}
use kubesim.Simulator.Usage.{NodeInfo, get_node_info}
use kubesim.Simulator.Prediction.{prediction_emulator}
use Prim.Native.String.{◌++◌ as str_append}

-- What is read of a deployment or a stateful set: the replicas' pointer and the selector's labels.
pub record AppSpec : Type 0 where
  pub replicas : Option ℤ
  pub match_labels : Map String

pub record RealApps : Type 0 where
  pub deployment : String → String → Option AppSpec
  pub stateful_set : String → String → Option AppSpec

-- `NewEmulatorReport`: the status of a job whose result is there, is queued, or neither.
unfoldable pub job_status :
    {Q : Type 0} → Option (Option (List (Review Q))) → Option (AppGroup Q) → String
job_status (some (some reports)) queued = reports_status "" reports
job_status (some none) queued = "stopped"
job_status none (some group) = "queuing"
job_status none none = "processing"

abbrev kept_reports : {Q : Type 0} → Option (Option (List (Review Q))) → List (Review Q)
kept_reports (some (some reports)) = reports
kept_reports _ = []

module _ (p : Platform) where
  open p use {Quantity, pods, uuid}

  abbrev pub no_group : String → AppGroup Quantity
  no_group kind = record {
    emulator_type = kind;
    nodes = [];
    apps = [];
    old_pods = [];
    pods_config = none;
  }

  -- A job id is drawn, and the group is pushed under it.
  unfoldable pub submit : AppGroup Quantity → Exec (Kubesim p) String
  submit group ks = done (uuid ks.next_uuid) (record ks {
    fifo_queue = push (uuid ks.next_uuid) group ks.fifo_queue;
    next_uuid = ks.next_uuid + 1;
  })

  -- `NewAppsEmulator`
  unfoldable pub submit_apps : List (PodRequest Quantity) → Exec (Kubesim p) String
  unfolding submit
  submit_apps apps = submit (record (no_group "AppsEmulator") { apps = apps })

  -- `NewPredictionEmulator`
  unfoldable pub submit_prediction :
      List NodeConfig → List (PodRequest Quantity) → Exec (Kubesim p) String
  unfolding submit
  submit_prediction nodes apps =
      submit (record (no_group "Prediction") { nodes = nodes; apps = apps })

  module _ (real : RealApps) where
    abbrev or_crash : {A : Type 0} → Option A → Exec (Kubesim p) A
    or_crash none = crash
    or_crash (some a) = pure a

    -- The error text of a failed `Get` names the app.
    abbrev or_missing : Option AppSpec → Exec (Kubesim p) AppSpec
    or_missing none = raise (wrapped "unable to get apps name " client)
    or_missing (some spec) = pure spec

    -- The replicas that an app still lacks; none is an error.
    unfoldable pub scale_up :
        Pod Quantity → ℤ → Option AppSpec → Exec (Kubesim p) (PodRequest Quantity)
    scale_up pod wanted answer = do
      spec ← or_missing answer
      current ← or_crash spec.replicas
      let missing = sub32 wanted current
      if leb_ℤ missing (pos 0)
          then raise (message "horizontal apps is stop,scale replicas is too samll.")
          else pure (record { pod = some pod; replicas = missing; kind = "" })

    -- The body of the loop of `NewHorizontalEmulator`. `last` is the variable `newPodRequest`, which
    -- lives across the rounds and starts as the zero value.
    unfoldable pub horizontal_request :
        PodRequest Quantity → PodRequest Quantity → Exec (Kubesim p) (PodRequest Quantity)
    unfolding scale_up
    horizontal_request last app =
        if str_eq app.kind "deployment"
        then (do
          pod ← or_crash app.pod
          scale_up pod app.replicas (real.deployment pod.namespace pod.name))
        else if str_eq app.kind "statefulsets"
        then (do
          pod ← or_crash app.pod
          scale_up pod app.replicas (real.stateful_set pod.namespace pod.name))
        else pure last

    unfoldable pub horizontal_requests :
        PodRequest Quantity
        → List (PodRequest Quantity)
        → List (PodRequest Quantity)
        → Exec (Kubesim p) (List (PodRequest Quantity))
    unfolding horizontal_request
    horizontal_requests last [] acc = pure acc
    horizontal_requests last (app ∷ apps) acc = do
      request ← horizontal_request last app
      horizontal_requests request apps (acc ++ request ∷ [])

    abbrev zero_request : PodRequest Quantity
    zero_request = record { pod = none; replicas = pos 0; kind = "" }

    -- `NewHorizontalEmulator`
    unfoldable pub submit_horizontal : List (PodRequest Quantity) → Exec (Kubesim p) String
    unfolding horizontal_requests submit
    submit_horizontal apps = do
      requests ← horizontal_requests zero_request apps []
      submit (record (no_group "HorizontalEmulator") { apps = requests })

    abbrev selector : Option String → String
    selector none = ""
    selector (some value) = str_append "app=" value

    -- The pod with the new containers, pinned to the node of the old one.
    unfoldable pub pinned : List (Container Quantity) → Pod Quantity → PodRequest Quantity
    pinned containers pod = record {
      pod = some (record pod {
        node_name = "";
        containers = containers;
        node_selector = some (insert "kubernetes.io/hostname" pod.node_name []);
      });
      replicas = pos 1;
      kind = "";
    }

    abbrev pin_all : List (Container Quantity) → List (Pod Quantity) → List (PodRequest Quantity)
    pin_all containers [] = []
    pin_all containers (pod ∷ rest) = pinned containers pod ∷ pin_all containers rest

    -- The loop of `NewVerticalEmulator`: the requests and the old pods.
    unfoldable pub vertical_requests :
        List (PodRequest Quantity)
        → List (PodRequest Quantity)
        → List (Pod Quantity)
        → Exec (Kubesim p) (List (PodRequest Quantity) × List (Pod Quantity))
    unfolding pinned get_app_pod
    vertical_requests [] requests old ks = done (requests, old) ks
    vertical_requests (app ∷ apps) requests old ks =
        let rest = vertical_requests apps in
        (do
          pod ← or_crash app.pod
          spec ← or_missing (real.deployment pod.namespace pod.name)
          listed ←
              wrap "unable to get pod"
                (get_app_pod p pod.namespace (selector (lookup "app" spec.match_labels)))
          rest (requests ++ pin_all pod.containers listed) (old ++ listed))
          ks

    -- `NewVerticalEmulator`
    unfoldable pub submit_vertical : List (PodRequest Quantity) → Exec (Kubesim p) String
    unfolding vertical_requests submit
    submit_vertical apps = do
      (requests, old) ← vertical_requests apps [] []
      submit (record (no_group "VerticalEmulator") { apps = requests; old_pods = old })

  -- `NewEmulatorReport`
  unfoldable pub emulator_report : String → Exec (Kubesim p) (JobReport Quantity)
  unfolding job_status
  emulator_report id ks =
      done
        (record {
          job_id = id;
          status = job_status (lookup id ks.emulator_result) (lookup id (get ks.fifo_queue));
          report = kept_reports (lookup id ks.emulator_result);
          prediction_node = lookup id ks.prediction_node;
        })
        ks

  module _ (fuel : ℕ) where
    -- `NewAddNodesEmulator`, `NewListNodesEmulator`, `NewDeleteNodesEmulator`
    unfoldable pub add_nodes_emulator : NodeConfig → Exec (Kubesim p) (NodeInfoList Quantity)
    unfolding add_nodes_to
    add_nodes_emulator config = do
      (config', access, list) ← wrap "Unable to create simulator node" (add_nodes_to p fuel config)
      pure list

    unfoldable pub list_nodes_emulator : Exec (Kubesim p) (NodeInfoList Quantity)
    unfolding list_nodes
    list_nodes_emulator = wrap "Unable to list simulator node" (list_nodes p)

    -- `NewListNodeInfoEmulator`
    unfoldable pub list_node_info_emulator : Exec (Kubesim p) (List NodeInfo)
    unfolding get_node_info
    list_node_info_emulator = wrap "Unable to list simulator node" (get_node_info p)

    abbrev undeleted : Outcome (Kubesim p) Unit → Outcome (Kubesim p) Unit
    undeleted (fails e s) = fails (message "Unable to delete simulator node") s
    undeleted r = r

    unfoldable pub delete_nodes_emulator : Exec (Kubesim p) Unit
    unfolding delete_nodes
    delete_nodes_emulator ks = undeleted (delete_nodes p fuel ks)

    -- `NewDeprecatedAppsEmulator` runs in the request, and saves no result.
    unfoldable pub deprecated_apps_emulator :
        List (PodRequest Quantity) → Exec (Kubesim p) (List (Review Quantity))
    unfolding emulate_apps clean_pod clean_status_pods
    deprecated_apps_emulator apps = do
      reports ← emulate_apps p pure apps []
      ignore (clean_pod p fuel)
      clean_status_pods p
      pure reports

    -- `NewDeprecatedPredictionEmulator`: the loop of `CreateApps`, without the reports.
    unfoldable pub deprecated_prediction_emulator :
        List (PodRequest Quantity) → Exec (Kubesim p) (SchedulerPrediction Quantity)
    unfolding create_apps
    deprecated_prediction_emulator apps = do
      prediction ← create_apps p fuel (record (no_group "") { apps = apps })
      pure (record prediction { report_list = none })

    -- The switch over the emulators; an error is logged and dropped.
    unfoldable pub run_group : AppGroup Quantity → String → Exec (Kubesim p) Unit
    run_group group key =
        if str_eq group.emulator_type "AppsEmulator"
        then ignore (apps_emulator p fuel group key)
        else if str_eq group.emulator_type "AppsPodEmulator"
        then ignore (apps_pod_emulator p fuel group key)
        else if str_eq group.emulator_type "HorizontalEmulator"
        then ignore (horizontal_emulator p fuel group key)
        else if str_eq group.emulator_type "VerticalEmulator"
        then ignore (vertical_emulator p fuel group key)
        else if str_eq group.emulator_type "Prediction"
        then ignore (prediction_emulator p fuel group key)
        else pure tt

    abbrev run_popped : Popped (AppGroup Quantity) → Exec (Kubesim p) Unit
    run_popped (found group key) = run_group group key
    run_popped (err_empty_queue key) = pure tt

    -- One round of the loop of `Run`; on an empty queue it goes round again.
    unfoldable pub run_round : Exec (Kubesim p) Unit
    unfolding run_group
    run_round ks =
        run_popped (pop ks.fifo_queue).0 (record ks { fifo_queue = (pop ks.fifo_queue).1 })
