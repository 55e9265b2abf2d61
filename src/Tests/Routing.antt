-- ===== src/Tests/Routing.antt =====
-- Requests to a kubesim on the small cluster.
use kubesim.Prelude.{
  ◌≡◌, refl, true, false, none, some, List, [], ◌∷◌, ◌++◌, String, str_eq, if◌then◌else◌, length,
  sum, map,
}
use kubesim.Prelude.Int.{ℤ, pos}
use kubesim.Prelude.Map.{lookup}
use kubesim.Prelude.Exec.{done, panics, then_do}
use kubesim.Queue.Pending.{pending}
use kubesim.Utils.{Workload, PodRequest}
use kubesim.Simulator.{Kubesim, JobReport}
use kubesim.Simulator.Nodes.{node_info_list}
use kubesim.Simulator.Usage.{node_usages, node_usages-node_info_list}
use kubesim.Jobs.{run_round}
use kubesim.Emulator.{
  new_apps_emulator, new_emulator_report, new_horizontal_emulator, horizontal_handler,
  AddNodesEmulator, new_add_nodes_emulator,
}
use kubesim.Routes.{
  WriterCall, job_report, Web, Server, send_text, parse_request, parse_node, check_body,
}
use kubesim.Routes.Handles.{
  apps_emulator_route, emulator_report_route, add_nodes_emulator_route, requested,
}
use kubesim.Routes.Answers.{text_calls, handle_of, expected, adds_nodes, handle_of-expected}
use kubesim.Routes.Following.{apps_group, apps-report}
use kubesim.Routes.Scaling.{horizontal-panics}
use kubesim.Prelude.Exec.{Outcome}
use kubesim.Routes.Table.{Router, distinct}
use kubesim.Routes.Table.Registered.{add_routes}
use kubesim.Tests.{desk, idle, token, node_config}
use kubesim.Tests.Nodes.{two_nodes, cache}
use kubesim.Tests.Submissions.{real}

abbrev stateful : Workload ℤ
stateful = record {
  kind = "StatefulSet";
  name = "db";
  namespace = "default";
  annotations = none;
  replicas = some (pos 3);
  template_labels = none;
  containers = [];
  node_name = "";
  node_selector = none;
  scheduler_name = "";
}

-- An empty body is no configuration of nodes.
abbrev web_desk : Web desk
web_desk = record {
  Body = String;
  decode_apps = λ body. record {
    value = record { nodes = []; deploy_apps = []; statefulset_apps = some stateful ∷ [] };
    failed = false;
  };
  decode_node = λ body. if str_eq body "" then none else some node_config;
  marshal = λ value. some "{}";
}

abbrev page : String
page = "{}"

abbrev no_page : String
no_page = ""

abbrev server : Server desk
server = record { ks = idle []; calls = [] }

abbrev db : PodRequest ℤ
db = record {
  pod = some (record {
    name = "db";
    namespace = "default";
    uid = token 0;
    annotations = none;
    labels = none;
    containers = [];
    node_name = "";
    node_selector = none;
    scheduler_name = "default-scheduler";
    phase = "";
    nominated_node_name = "";
    conditions = [];
  });
  replicas = pos 3;
  kind = "statefulset";
}

abbrev one_drawn : Kubesim desk
one_drawn = record (idle []) { next_uuid = 1 }

db_parsed :
    parse_request desk web_desk "statefulset" (some page) (idle []) ≡ done ([], db ∷ []) one_drawn
unfolding parse_request
db_parsed = refl

unknown : lookup (token 1) one_drawn.emulator_result ≡ none
unfolding lookup
unknown = refl

no_jobs : pending one_drawn.fifo_queue ≡ []
unfolding pending
no_jobs = refl

apps-report_example :
    (t : Server desk) × (r : JobReport ℤ) × (apps_emulator_route desk web_desk
        (new_apps_emulator desk real 9)
        (record { kind = "statefulset"; id = ""; body = some page })
        server
      ≡ done tt t)
    × (t.calls ≡ [] ++ text_calls "{}")
    × (pending t.ks.fifo_queue
        ≡ pending one_drawn.fifo_queue ++ (token 1, apps_group desk web_desk real 9 (db ∷ [])) ∷ [])
    × ((calls : List WriterCall)
        → emulator_report_route desk web_desk
            (new_emulator_report desk real 9)
            (record { kind = ""; id = token 1; body = some page })
            (record t { calls = calls })
          ≡ send_text desk (web_desk.marshal (job_report r)) (record t { calls = calls }))
    × (r.status ≡ "queuing")
    × (r.report ≡ [])
apps-report_example =
    apps-report desk web_desk real 9 "statefulset" "" page server [] (db ∷ []) one_drawn "{}"
      db_parsed tt unknown refl

horizontal-panics_example :
    then_do
      (requested desk web_desk
        (horizontal_handler desk (new_horizontal_emulator desk real 9))
        "statefulset"
        (some page)
        (idle []))
      (λ id. run_round desk 9)
    ≡ panics
horizontal-panics_example =
    horizontal-panics desk web_desk real 9 page (idle []) one_drawn [] db [] db_parsed no_jobs tt

abbrev adding : AddNodesEmulator desk
adding = new_add_nodes_emulator desk real 9

-- A body that is no configuration is answered like a success.
unreadable_page :
    handle_of desk web_desk
      (adds_nodes adding)
      (record { kind = ""; id = ""; body = some no_page })
      server
    ≡ done tt (record { ks = idle []; calls = text_calls "{}" })
unfolding add_nodes_emulator_route parse_node send_text check_body
unreadable_page = refl

handle_of-expected_example :
    handle_of desk web_desk
      (adds_nodes adding)
      (record { kind = ""; id = ""; body = some no_page })
      server
    ≡ expected desk web_desk (adds_nodes adding) "" "" no_page server
handle_of-expected_example =
    handle_of-expected desk web_desk (adds_nodes adding) "" "" no_page server

node_usages-node_info_list_example :
    (length (node_usages desk cache two_nodes [])
      ≡ (node_info_list desk two_nodes [] cache).node_info_number)
    × (sum (map (λ info. info.pod_number) (node_usages desk cache two_nodes []))
        ≡ (node_info_list desk two_nodes [] cache).node_info_pod_number)
node_usages-node_info_list_example = node_usages-node_info_list desk two_nodes [] cache

abbrev router_of : {A : Type 0} → Outcome (Router desk web_desk) A → Router desk web_desk
router_of (done a router) = router
router_of _ = []

-- The routes of the program, none of which is registered twice.
no_route_twice : distinct desk web_desk (router_of (add_routes desk web_desk real 9 [])) ≡ true
unfolding add_routes distinct
no_route_twice = refl
