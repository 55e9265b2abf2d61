-- ===== src/Tests/Reports.antt =====
-- Three placed pods of one app, and the parsers.
use kubesim.Report.Printing.{Formats, review_pretty_print, review_pretty_print-quiet}
use kubesim.Prelude.{
  ◌≡◌, refl, ◌++◌, Option, none, some, List, [], ◌∷◌, String, str_eq, tally, false,
}
use kubesim.Prelude.Int.{ℤ, pos}
use kubesim.Prelude.Text.{codes, sprint, trim, first_line}
use kubesim.Report.{
  Status, Review, get_report, ReviewResult, parse_pods_review, get_main_fail_reason,
}
use kubesim.Report.Counting.{Distinct, replicas_of}
use kubesim.Report.Distribution.{total, parse_pods_review-single, total-parse_pods_review}
use kubesim.Simulator.Pods.{schedulable, unschedulable}
use kubesim.Simulator.Pods.Reason.{get_main_fail_reason-stop_reasons, scheduled}
use kubesim.Utils.{Workload, parse_to_pod}
use kubesim.Utils.Replicas.{NeverFails, parse_to_pod-NeverFails}
use kubesim.Tests.{desk, web, web_on}

abbrev placed : Status ℤ
placed = record {
  pods = web_on "n1" ∷ web_on "n2" ∷ web_on "n1" ∷ [];
  stop_reason = codes "Schedulable: Schedule the number of simulated pods: 3";
}

parse_pods_review-single_example :
    (r : ReviewResult) × (parse_pods_review (web ∷ []) placed ≡ some (r ∷ []))
    × (r.us_name ≡ "web")
    × Distinct r.replicas_on_nodes
    × ((x : String)
        → replicas_of x r.replicas_on_nodes ≡ tally (λ pod. str_eq pod.node_name x) placed.pods)
parse_pods_review-single_example = parse_pods_review-single web placed

total-parse_pods_review_example :
    (rs : List ReviewResult) × (parse_pods_review (web ∷ web_on "n3" ∷ []) placed ≡ some rs)
    × (total rs ≡ 3)
total-parse_pods_review_example = total-parse_pods_review web (web_on "n3" ∷ []) placed

on_n1 : replicas_of "n1" (parse_pods_review-single web placed).0.replicas_on_nodes ≡ 2
on_n1 = (parse_pods_review-single web placed).4 "n1"

get_main_fail_reason-stop_reasons_example :
    (get_main_fail_reason (schedulable (pos 3))
      ≡ some (record { kind = codes "Schedulable"; message = scheduled ++ sprint (pos 3) }))
    × (get_main_fail_reason (unschedulable "Unschedulable" (codes "no room \nat all"))
        ≡ some (record {
          kind = codes "Unschedulable";
          message = trim 32 (first_line (codes "no room \nat all"));
        }))
get_main_fail_reason-stop_reasons_example =
    get_main_fail_reason-stop_reasons (pos 3) (codes "no room \nat all")

-- A document of another kind than was asked for.
abbrev daemon : Workload ℤ
daemon = record {
  kind = "DaemonSet";
  name = "logs";
  namespace = "default";
  annotations = none;
  replicas = some (pos 2);
  template_labels = none;
  containers = [];
  node_name = "";
  node_selector = none;
  scheduler_name = "";
}

parse_to_pod-NeverFails_example :
    NeverFails desk (parse_to_pod desk "deployment" (record { value = daemon; failed = false }) 0)
parse_to_pod-NeverFails_example =
    parse_to_pod-NeverFails desk "deployment" (record { value = daemon; failed = false }) 0

abbrev formats : Formats ℤ
formats = record {
  cpu = λ m. [];
  memory = λ m. [];
  scalars = λ m. [];
  selector = λ m. [];
  marshal_json = λ r. none;
  marshal_yaml = λ r. none;
  infof = λ t. t;
}

abbrev two_placed : Status ℤ
two_placed = record {
  pods = web_on "n1" ∷ web_on "n2" ∷ [];
  stop_reason = codes "Schedulable: done";
}

abbrev report_or_empty : Option (Review ℤ) → Review ℤ
report_or_empty (some r) = r
report_or_empty none = record {
  spec = record { desired_replicas = pos 0; pod_requirements = [] };
  status = record { replicas = pos 0; reason = record { kind = []; message = [] }; pods = [] };
}

abbrev placed_report : Review ℤ
placed_report = report_or_empty (get_report desk (web ∷ []) two_placed (pos 2))

reported : get_report desk (web ∷ []) two_placed (pos 2) ≡ some placed_report
unfolding get_report get_main_fail_reason parse_pods_review
reported = refl

review_pretty_print-quiet_example :
    review_pretty_print formats placed_report false ≡ sprint (pos 2) ++ 10 ∷ []
review_pretty_print-quiet_example =
    review_pretty_print-quiet desk formats web two_placed (pos 2) placed_report reported
