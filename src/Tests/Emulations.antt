-- ===== src/Tests/Emulations.antt =====
-- Emulations on the small cluster, with a scheduler that places a pod and one that cannot.
use kubesim.Prelude.{◌≡◌, refl, Option, none, some, List, [], ◌∷◌, String, inl, true, arith}
use kubesim.Prelude.Int.{ℤ, pos, inc32}
use kubesim.Prelude.Map.{lookup}
use kubesim.Prelude.Text.{Text, codes}
use kubesim.Prelude.Exec.{Outcome, done, Returns}
use kubesim.Platform.{Pod}
use kubesim.Report.{Review, get_report, get_main_fail_reason, parse_pods_review}
use kubesim.Utils.{AppGroup, PodRequest}
use kubesim.Simulator.{Kubesim, Callback, binds, updates, opened}
use kubesim.Simulator.Pods.{has_annotation, schedulable, unschedulable}
use kubesim.Simulator.Emulators.{is_unschedulable, reports_status, emulate_app, second_pass}
use kubesim.Simulator.Runs.Ending.{Ends}
use kubesim.Simulator.{opened}
use kubesim.Platform.{PodCondition}
use kubesim.Simulator.Emulators.Endings.{emulate_app-Ends}
use text.Mathlib.TextPositions.{eq_refl}
use kubesim.Simulator.Emulators.{clean_pod}
use kubesim.Simulator.Emulators.Cleaning.{PodLaws, clean_pod_lem}
use kubesim.Prelude.{ap, ◌∙◌}
use kubesim.Tests.{DeskCluster, remove}
use kubesim.Simulator.Emulators.Passes.{Spoiled, second_pass-Spoiled}
use kubesim.Tests.{desk, web, idle}

-- The pods that the emulator will create.
abbrev simulated : String → String → Pod ℤ
simulated name uid = record web {
  name = name;
  uid = uid;
  annotations = some (("kubesim.kubernetes.io/provisioned", "default-scheduler") ∷ []);
  labels = some (("provisioner", "kubesim") ∷ []);
}

abbrev first_pod : Pod ℤ
first_pod = simulated "web-0a1b2c3" "f0a1b2c3"

abbrev second_pod : Pod ℤ
second_pod = simulated "web-ff0a1b2" "fff0a1b2c3"

abbrev no_room : Pod ℤ → Pod ℤ
no_room pod = record pod {
  conditions =
      record {
        kind = "PodScheduled";
        status = "False";
        reason = "Unschedulable";
        message = codes "0/1 nodes are available";
      }
      ∷ [];
}

-- Both pods are placed.
abbrev two_fit : List (Callback ℤ)
two_fit = binds first_pod "n1" ∷ binds second_pod "n2" ∷ []

-- The first pod is placed, the second is not.
abbrev one_fits : List (Callback ℤ)
one_fits = binds first_pod "n1" ∷ updates (no_room second_pod) ∷ []

abbrev reported : Outcome (Kubesim desk) (Review ℤ) → Option (ℤ × Text)
reported (done r s) = some (r.status.replicas, r.status.reason.kind)
reported _ = none

both_placed :
    reported (emulate_app desk (some web) (pos 2) (idle two_fit))
    ≡ some (pos 2, codes "Schedulable")
unfolding emulate_app inc32 get_report get_main_fail_reason schedulable parse_pods_review
both_placed = refl

one_placed :
    reported (emulate_app desk (some web) (pos 2) (idle one_fits))
    ≡ some (pos 1, codes "Unschedulable")
unfolding emulate_app inc32 lookup get_report get_main_fail_reason unschedulable parse_pods_review
one_placed = refl

annotated : has_annotation (no_room second_pod) "kubesim.kubernetes.io/provisioned" ≡ true
unfolding has_annotation lookup
annotated = refl

emulate_app-Ends_example : Ends (emulate_app desk (some web) (pos 2) (idle one_fits))
emulate_app-Ends_example =
    emulate_app-Ends desk 2 web (idle one_fits) (omega arith) (omega arith) refl
      (inl (refl, annotated, inl (refl, refl, refl)))

abbrev waiting : Kubesim desk
waiting = record (idle []) {
  simulated_pod = some web;
  max_simulated = pos 2;
  simulated = pos 1;
  stop = opened;
  informer_stop_ch = opened;
  scheduler_ch = opened;
  cluster = record { pods = first_pod ∷ []; nodes = [] };
  next_uuid = 2;
}

abbrev web_request : PodRequest ℤ
web_request = record { pod = some web; replicas = pos 2; kind = "deployment" }

abbrev vertical : AppGroup ℤ
vertical = record {
  emulator_type = "VerticalEmulator";
  nodes = [];
  apps = web_request ∷ [];
  old_pods = [];
  pods_config = none;
}

abbrev failed_report : Review ℤ
failed_report = record {
  spec = record { desired_replicas = pos 2; pod_requirements = [] };
  status = record {
    replicas = pos 1;
    reason = record { kind = codes "Unschedulable"; message = [] };
    pods = [];
  };
}

first_failed : reports_status "" (failed_report ∷ []) ≡ "failed"
unfolding reports_status is_unschedulable
first_failed = refl

second_pass-Spoiled_example :
    Returns
      (Spoiled desk 9 vertical (failed_report ∷ []))
      (second_pass desk 9 vertical (failed_report ∷ []) (idle two_fit))
second_pass-Spoiled_example =
    second_pass-Spoiled desk 9 vertical (failed_report ∷ []) (idle two_fit) first_failed

abbrev pods_or_none : Option (List (Pod ℤ)) → List (Pod ℤ)
pods_or_none none = []
pods_or_none (some ps) = ps

pub desk_pods : PodLaws desk
desk_pods = record {
  listed = λ c. (c.pods, refl);
  deleted = λ c pod rest e. (
    record c { pods = rest },
    ap (λ ps. some (record c { pods = remove (λ pod. pod.name) pod.name (pods_or_none ps) })) e
        ∙ rw (eq_refl pod.name) refl,
    refl,
  );
}

abbrev crowded : Kubesim desk
crowded = record (idle []) { cluster = record { pods = first_pod ∷ second_pod ∷ []; nodes = [] } }

clean_pod_lem_example :
    (c : DeskCluster) × (clean_pod desk 2 crowded ≡ done tt (record crowded { cluster = c }))
    × (some c.pods ≡ some [])
clean_pod_lem_example = clean_pod_lem desk desk_pods 0 crowded

abbrev after_run : Outcome (Kubesim desk) Unit → Kubesim desk
after_run (done u s) = s
after_run _ = idle []

-- A request for one replica, which is refused.
abbrev requested : Kubesim desk
requested = record (idle (updates (no_room first_pod) ∷ [])) {
  simulated_pod = some web;
  max_simulated = pos 1;
  stop = opened;
  informer_stop_ch = opened;
  scheduler_ch = opened;
}

abbrev says_no : PodCondition
says_no = record {
  kind = "PodScheduled";
  status = "False";
  reason = "Unschedulable";
  message = codes "0/1 nodes are available";
}
