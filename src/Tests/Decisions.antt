-- ===== src/Tests/Decisions.antt =====
-- A request whose apps find nodes, from the route to the report.
use kubesim.Prelude.{◌≡◌, refl, false, none, some, List, [], ◌∷◌, ◌++◌, String, ℕ, arith}
use kubesim.Prelude.Int.{ℤ, pos}
use kubesim.Prelude.Exec.{done}
use kubesim.Platform.{Pod}
use kubesim.Queue.Pending.{pending}
use kubesim.Utils.{Workload, PodRequest}
use kubesim.Simulator.{Kubesim, Callback, JobReport, new}
use kubesim.Simulator.Pods.{simulated_pod_of}
use kubesim.Simulator.Emulators.Placing.{Ready}
use kubesim.Jobs.{RealApps, run_round}
use kubesim.Jobs.Answers.{Answer, binds_all, AllDecided, verdict, all_made, all_calls}
use kubesim.Emulator.{new_apps_emulator, new_emulator_report}
use kubesim.Routes.{WriterCall, job_report, Web, Server, send_text, parse_request}
use kubesim.Routes.Handles.{apps_emulator_route, emulator_report_route}
use kubesim.Routes.Answers.{text_calls}
use kubesim.Routes.Deciding.{apps-decide}
use kubesim.Tests.{token}
use kubesim.Tests.Placements.{farm, farm_placing, farm_pods}

abbrev stateful : Workload ℤ
stateful = record {
  kind = "StatefulSet";
  name = "db";
  namespace = "default";
  annotations = none;
  replicas = some (pos 2);
  template_labels = none;
  containers = [];
  node_name = "";
  node_selector = none;
  scheduler_name = "";
}

abbrev web_farm : Web farm
web_farm = record {
  Body = String;
  decode_apps = λ body. record {
    value = record { nodes = []; deploy_apps = []; statefulset_apps = some stateful ∷ [] };
    failed = false;
  };
  decode_node = λ body. none;
  marshal = λ value. some "{}";
}

abbrev db : Pod ℤ
db = record {
  name = "db";
  namespace = "default";
  uid = token 0;
  annotations = none;
  labels = none;
  containers = [];
  node_name = "";
  node_selector = none;
  scheduler_name = "default-scheduler";
  phase = "";
  nominated_node_name = "";
  conditions = [];
}

abbrev request : PodRequest ℤ
request = record { pod = some db; replicas = pos 2; kind = "statefulset" }

abbrev on_nodes : Answer ℤ
on_nodes = binds_all db ("n1" ∷ "n2" ∷ [])

-- The first UUID goes to the app, the second to the job.
abbrev calls_to_come : List (Callback ℤ)
calls_to_come = all_calls farm "default-scheduler" 2 (on_nodes ∷ []) []

abbrev farming : ℕ → Kubesim farm
farming i = new farm "prd" (record { pods = []; nodes = [] }) i calls_to_come

abbrev page : String
page = "{}"

abbrev server : Server farm
server = record { ks = farming 0; calls = [] }

parsed :
    parse_request farm web_farm "statefulset" (some page) (farming 0)
    ≡ done ([], request ∷ []) (farming 1)
unfolding parse_request new
parsed = refl

idle : pending (farming 1).fifo_queue ≡ []
unfolding pending new
idle = refl

ready : Ready farm 1 (all_made farm "default-scheduler" 2 (on_nodes ∷ [])) calls_to_come (farming 1)
unfolding new simulated_pod_of
ready = record { no_pods = refl; calls = refl; next = refl; unused = (refl, (refl, tt)) }

abbrev real : RealApps
real = record { deployment = λ namespace name. none; stateful_set = λ namespace name. none }

apps-decide_example :
    (t : Server farm) × (u : Kubesim farm) × (r : JobReport ℤ) × (apps_emulator_route farm web_farm
        (new_apps_emulator farm real 7)
        (record { kind = "statefulset"; id = ""; body = some page })
        server
      ≡ done tt t)
    × (t.calls ≡ [] ++ text_calls "{}")
    × (run_round farm 9 t.ks ≡ done tt u)
    × ((calls : List WriterCall)
        → emulator_report_route farm web_farm
            (new_emulator_report farm real 7)
            (record { kind = ""; id = token 1; body = some page })
            (record { ks = u; calls = calls })
          ≡ send_text farm (web_farm.marshal (job_report r)) (record { ks = u; calls = calls }))
    × (r.status ≡ verdict "" (on_nodes ∷ []))
    × AllDecided (on_nodes ∷ []) r.report
unfolding new
apps-decide_example =
    apps-decide farm web_farm real farm_placing farm_pods 7 "statefulset" "" page server []
      (request ∷ []) (farming 1) "{}" (on_nodes ∷ []) [] parsed
      ((refl, refl, omega arith, omega arith), tt) idle tt ready refl
