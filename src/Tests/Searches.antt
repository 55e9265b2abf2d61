-- ===== src/Tests/Searches.antt =====
-- Searches.
use kubesim.Prelude.{
  ℕ, ◌*◌, ◌/◌, ◌≤◌, ◌<◌, ◌≡◌, refl, Bool, true, false, none, some, List, [], ◌∷◌, arith, leb,
  if◌then◌else◌,
}
use kubesim.Prelude.Int.{ℤ, pos}
use kubesim.Prelude.Int.{inc32}
use kubesim.Prelude.Map.{lookup, insert}
use kubesim.Report.{get_report, get_main_fail_reason, parse_pods_review}
use kubesim.Prelude.Text.{codes}
use kubesim.Prelude.Exec.{Exec, Outcome, done, fails, panics, blocks}
use kubesim.Platform.{Pod}
use kubesim.Utils.{AppGroup, NodeConfig}
use kubesim.Simulator.{Kubesim, binds, updates}
use kubesim.Simulator.Pods.{simulated_pod_of, schedulable, unschedulable}
use kubesim.Simulator.Prediction.{
  Trial, first_bounds, decide, narrow, trial, prediction_emulator, generate_max_node, config_of,
}
use kubesim.Simulator.Prediction.Decision.{measure}
use kubesim.Simulator.Prediction.Search.{Found, Trials}
use kubesim.Simulator.Prediction.Ends.{own_trial, prediction_emulator-Found}
use kubesim.Simulator.Prediction.Scaling.{generate_max_node_lem}
use kubesim.Simulator.Prediction.Endless.{NeverDone, prediction_emulator_endless}
use kubesim.Tests.{web, desk, idle, node_config}

-- Three nodes are enough.
abbrev three : ℕ → Bool
three n = leb 3 n

abbrev prediction : List NodeConfig → AppGroup ℤ
prediction nodes = record {
  emulator_type = "Prediction";
  nodes = nodes;
  apps = record { pod = some web; replicas = pos 1; kind = "deployment" } ∷ [];
  old_pods = [];
  pods_config = none;
}

from_three : (k : ℕ) → 3 ≤ k → three k ≡ true
from_three k h = ground arith

rounds_suffice : measure 3 (first_bounds 2) < 250
unfolding first_bounds generate_max_node
rounds_suffice = omega arith

abbrev two_nodes_or_more : List NodeConfig
two_nodes_or_more = record node_config { node_number = pos 2 } ∷ []

-- The trial of the program itself, of one app with one replica.
abbrev web_trial : NodeConfig → ℕ → Exec (Kubesim desk) (Trial desk)
web_trial = own_trial desk 250 (prediction two_nodes_or_more) "job"

-- On three nodes the scheduler binds the pod, on two it refuses it.
abbrev refused : Pod ℤ
refused = record (simulated_pod_of desk "default-scheduler" 11 web) {
  conditions =
      record {
        kind = "PodScheduled";
        status = "False";
        reason = "Unschedulable";
        message = codes "0/2 nodes are available";
      }
      ∷ [];
}

abbrev two_trials : Kubesim desk
two_trials =
    idle (
      binds (simulated_pod_of desk "default-scheduler" 5 web) "fake-f0a1b2c3"
      ∷ updates refused
      ∷ [])

abbrev state_after : {A : Type 0} → Outcome (Kubesim desk) A → Kubesim desk
state_after (done a s) = s
state_after (fails e s) = s
state_after panics = idle []
state_after blocks = idle []

abbrev trial_of : Outcome (Kubesim desk) (Trial desk) → Trial desk
trial_of (done t s) = t
trial_of _ = record {
  config = node_config;
  access = [];
  prediction = record {
    success_apps_name = [];
    success_apps_count = pos 0;
    failed_apps_count = pos 0;
    first_app_failed_reason = [];
    prediction_go = false;
    report_list = none;
  };
}

abbrev on_three : Outcome (Kubesim desk) (Trial desk)
on_three = web_trial (config_of two_nodes_or_more) 3 two_trials

abbrev on_two : Outcome (Kubesim desk) (Trial desk)
on_two = web_trial (trial_of on_three).config 2 (state_after on_three)

web_trial-Trials :
    Trials desk 250
      (prediction two_nodes_or_more)
      "job"
      web_trial
      three
      250
      (first_bounds 2)
      (config_of two_nodes_or_more)
      two_trials
unfolding trial first_bounds generate_max_node config_of lookup inc32 get_report
    get_main_fail_reason schedulable parse_pods_review decide narrow insert unschedulable
web_trial-Trials = (
  trial_of on_three,
  state_after on_three,
  refl,
  refl,
  (trial_of on_two, state_after on_two, refl, refl, tt),
)

two_or_more : (config_of two_nodes_or_more).node_number ≡ pos 2
unfolding config_of
two_or_more = refl

prediction_emulator-Found_example :
    Found desk 250
      (prediction two_nodes_or_more)
      "job"
      web_trial
      three
      (prediction_emulator desk 250 (prediction two_nodes_or_more) "job" two_trials)
prediction_emulator-Found_example =
    prediction_emulator-Found desk 250 (prediction two_nodes_or_more) "job" three 2 3 two_trials
      two_or_more (omega arith) from_three web_trial-Trials rounds_suffice

generate_max_node_lem_example : generate_max_node 1500 ≡ (
    if leb 1500 1
    then 10
    else if leb 1500 100
    then 2 * 1500
    else if leb 1500 1000
    then 12 * 1500 / 10
    else 13 * 1500 / 10)
generate_max_node_lem_example = generate_max_node_lem 1500 (omega arith)

abbrev large : List NodeConfig
large = record node_config { node_number = pos 3500 } ∷ []

large-size : (config_of large).node_number ≡ pos 3500
unfolding config_of
large-size = refl

prediction_emulator_endless_example :
    NeverDone desk 9
      (prediction large)
      "job"
      (prediction_emulator desk 9 (prediction large) "job" (idle []))
prediction_emulator_endless_example =
    prediction_emulator_endless desk 9 (prediction large) "job" 3500 (idle []) large-size
      (omega arith) (omega arith)
