-- ===== src/Tests/Placements.antt =====
-- Jobs on a small cluster whose scheduler finds a node for every pod.
use text.Mathlib.TextPositions.{eq_refl}
use kubesim.Prelude.{
  ◌≡◌, refl, arith, none, some, Option, List, [], ◌∷◌, ◌++◌, String, str_eq, eq_iff, if◌then◌else◌,
  ◌&&◌, ap, ◌∙◌, inl,
}
use kubesim.Prelude.Int.{ℤ, pos}
use kubesim.Prelude.Map.{insert, lookup}
use kubesim.Prelude.Exec.{done}
use kubesim.Prelude.Text.{codes}
use kubesim.Platform.{Platform, Pod, PodCondition}
use kubesim.Queue.{found, pop}
use kubesim.Report.{Review}
use kubesim.Utils.{AppGroup}
use kubesim.Simulator.{Kubesim, Callback, updates, JobReport, new}
use kubesim.Simulator.Pods.{simulated_pod_of, has_annotation}
use kubesim.Simulator.Runs.Halting.{Refusal}
use kubesim.Simulator.Emulators.Refusing.{Cut, made_and_one, emulate_app-Cut}
use kubesim.Simulator.Emulators.{emulate_app}
use kubesim.Simulator.Runs.Steps.{PlacingLaws, put_pod, made, bindings}
use kubesim.Simulator.Emulators.Cleaning.{PodLaws}
use kubesim.Simulator.Emulators.Placing.{Spread, Ready, emulate_app-Spread}
use kubesim.Jobs.{run_round, emulator_report}
use kubesim.Jobs.Answers.{Answer, binds_all, cuts, AllDecided, all_made, all_calls}
use kubesim.Jobs.Deciding.{run_round-decides}
use kubesim.Tests.{desk, DeskCluster, web}

abbrev find_pod : String → String → List (Pod ℤ) → Option (Pod ℤ)
find_pod ns n [] = none
find_pod ns n (a ∷ rest) =
    if str_eq a.namespace ns && str_eq a.name n then some a else find_pod ns n rest

abbrev replace_pod : Pod ℤ → List (Pod ℤ) → List (Pod ℤ)
replace_pod a [] = []
replace_pod a (b ∷ rest) =
    let others = replace_pod a rest in
    if str_eq b.namespace a.namespace && str_eq b.name a.name then a ∷ rest else b ∷ others

abbrev remove_pod : String → String → List (Pod ℤ) → List (Pod ℤ)
remove_pod ns n [] = []
remove_pod ns n (a ∷ rest) =
    let others = remove_pod ns n rest in
    if str_eq a.namespace ns && str_eq a.name n then rest else a ∷ others

abbrev if_found : {A B : Type 0} → Option A → B → Option B
if_found none b = none
if_found (some a) b = some b

-- The cluster keeps its pods in a list, under their namespaces and names.
abbrev pub farm : Platform
farm = record desk {
  pods = record {
    list = λ namespace selector c. some c.pods;
    get = λ namespace name c. find_pod namespace name c.pods;
    create = λ namespace pod c. some (record c { pods = pod ∷ c.pods });
    update = λ namespace pod c.
        if_found (find_pod namespace pod.name c.pods) (record c { pods = replace_pod pod c.pods });
    delete = λ namespace name c.
        if_found (find_pod namespace name c.pods)
          (record c { pods = remove_pod namespace name c.pods });
  };
}

find_pod-replace_pod :
    (a b : Pod ℤ) (pods : List (Pod ℤ)) (ns n : String)
    → find_pod a.namespace a.name pods ≡ some b
    → find_pod ns n (replace_pod a pods) ≡ put_pod a (λ ns n. find_pod ns n pods) ns n
find_pod-replace_pod a b [] ns n e = cc
find_pod-replace_pod a b (c ∷ rest) ns n e = ground (
  arith,
  find_pod-replace_pod a b rest ns n,
  eq_iff c.namespace a.namespace,
  eq_iff c.name a.name,
  eq_iff c.namespace ns,
  eq_iff c.name n,
  eq_iff a.namespace ns,
  eq_iff a.name n,
)

find_pod-remove_pod :
    (ns' n' : String) (pods : List (Pod ℤ)) (ns n : String)
    → find_pod ns n pods ≡ none
    → find_pod ns n (remove_pod ns' n' pods) ≡ none
find_pod-remove_pod ns' n' [] ns n e = refl
find_pod-remove_pod ns' n' (a ∷ rest) ns n e = ground (arith, find_pod-remove_pod ns' n' rest ns n)

deleted_pods :
    (ns' n' : String) (c c' : DeskCluster)
    → if_found (find_pod ns' n' c.pods) (record c { pods = remove_pod ns' n' c.pods }) ≡ some c'
    → (ns n : String) → find_pod ns n c.pods ≡ none
    → find_pod ns n c'.pods ≡ none
deleted_pods ns' n' c c' e ns n k = ground (arith, find_pod-remove_pod ns' n' c.pods ns n)

pub farm_placing : PlacingLaws farm
farm_placing = record {
  created = λ a c e. (record c { pods = a ∷ c.pods }, refl, λ ns n. refl);
  updated = λ a b c e. (
    record c { pods = replace_pod a c.pods },
    rw e refl,
    λ ns n. find_pod-replace_pod a b c.pods ns n e,
  );
  deleted = λ ns' n' c c' e. deleted_pods ns' n' c c' e;
}

abbrev pods_or_none : Option (List (Pod ℤ)) → List (Pod ℤ)
pods_or_none none = []
pods_or_none (some ps) = ps

-- The outcome of a deletion, from the listed pods.
abbrev deleted_from : DeskCluster → Pod ℤ → List (Pod ℤ) → Option DeskCluster
deleted_from c pod ps =
    if_found (find_pod pod.namespace pod.name ps)
      (record c { pods = remove_pod pod.namespace pod.name ps })

deleted_first :
    (c : DeskCluster) (pod : Pod ℤ) (rest : List (Pod ℤ))
    → deleted_from c pod (pod ∷ rest) ≡ some (record c { pods = rest })
deleted_first c pod rest = rw (eq_refl pod.namespace, eq_refl pod.name) refl

pub farm_pods : PodLaws farm
farm_pods = record {
  listed = λ c. (c.pods, refl);
  deleted = λ c pod rest e. (
    record c { pods = rest },
    ap (λ ps. deleted_from c pod (pods_or_none ps)) e ∙ deleted_first c pod rest,
    refl,
  );
}

abbrev db : Pod ℤ
db = record web { name = "db" }

-- The scheduler refuses the second pod of the second app.
abbrev no_room : PodCondition
no_room = record {
  kind = "PodScheduled";
  status = "False";
  reason = "Unschedulable";
  message = codes "0/2 nodes are available";
}

abbrev refused_pod : Pod ℤ
refused_pod = record (simulated_pod_of farm "default-scheduler" 6 db) { conditions = no_room ∷ [] }

refused_pod-Refusal : Refusal "default-scheduler" refused_pod no_room
unfolding simulated_pod_of has_annotation lookup insert
refused_pod-Refusal = record {
  scheduler = refl;
  annotated = refl;
  condition = refl;
  stops = (refl, refl, refl);
}

abbrev on_two : Answer ℤ
on_two = binds_all web ("n1" ∷ "n2" ∷ [])

abbrev on_one : Answer ℤ
on_one = cuts db 3 ("n1" ∷ []) refused_pod no_room

abbrev two_apps : AppGroup ℤ
two_apps = record {
  emulator_type = "AppsEmulator";
  nodes = [];
  apps =
      record { pod = some web; replicas = pos 2; kind = "deployment" }
      ∷ record { pod = some db; replicas = pos 3; kind = "deployment" }
      ∷ [];
  old_pods = [];
  pods_config = none;
}

abbrev farming : List (Callback ℤ) → Kubesim farm
farming calls = record (new farm "prd" (record { pods = []; nodes = [] }) 0 calls) {
  fifo_queue = record { app_group = ("j1", two_apps) ∷ []; queue = "j1" ∷ [] };
}

abbrev binding_two : List (Callback ℤ)
binding_two = bindings farm "default-scheduler" web 0 ("n1" ∷ "n2" ∷ [])

two_Ready :
    Ready farm 0
      (made farm "default-scheduler" web 0 ("n1" ∷ "n2" ∷ []))
      binding_two
      (farming binding_two)
unfolding new simulated_pod_of
two_Ready = record { no_pods = refl; calls = refl; next = refl; unused = (refl, (refl, tt)) }

emulate_app-Spread_example :
    (r : Review ℤ) × (s : Kubesim farm) × (emulate_app farm (some web) (pos 2) (farming binding_two)
      ≡ done r s)
    × Spread web ("n1" ∷ "n2" ∷ []) r
    × Ready farm 4 [] [] s
unfolding new
emulate_app-Spread_example =
    emulate_app-Spread farm farm_placing web ("n1" ∷ "n2" ∷ []) [] [] (farming binding_two)
      "default-scheduler" 0 (omega arith) (omega arith) refl two_Ready

-- The first pod finds a node, the second none.
abbrev calls_one : List (Callback ℤ)
calls_one = bindings farm "default-scheduler" db 4 ("n1" ∷ []) ++ updates refused_pod ∷ []

abbrev farming_db : Kubesim farm
farming_db = record (farming calls_one) { next_uuid = 4 }

one_Ready :
    Ready farm 4
      (made_and_one farm farm_placing db 3 "default-scheduler" 4 ("n1" ∷ []) [])
      calls_one
      farming_db
unfolding new simulated_pod_of
one_Ready = record { no_pods = refl; calls = refl; next = refl; unused = (refl, (refl, tt)) }

emulate_app-Cut_example :
    (r : Review ℤ) × (s : Kubesim farm) × (emulate_app farm (some db) (pos 3) farming_db ≡ done r s)
    × Cut db 3 ("n1" ∷ []) no_room r
    × Ready farm 8 [] [] s
unfolding new
emulate_app-Cut_example =
    emulate_app-Cut farm farm_placing db 3 ("n1" ∷ []) [] refused_pod no_room [] farming_db
      "default-scheduler" 4 (omega arith) (omega arith) refl refused_pod-Refusal one_Ready

abbrev calls_all : List (Callback ℤ)
calls_all = all_calls farm "default-scheduler" 0 (on_two ∷ on_one ∷ []) []

first_job : (pop (farming calls_all).fifo_queue).0 ≡ found two_apps "j1"
unfolding pop lookup
first_job = refl

all_Ready :
    Ready farm 0
      (all_made farm "default-scheduler" 0 (on_two ∷ on_one ∷ []))
      calls_all
      (farming calls_all)
unfolding new simulated_pod_of
all_Ready = record {
  no_pods = refl;
  calls = refl;
  next = refl;
  unused = (refl, (refl, (refl, (refl, tt))));
}

run_round-decides_example :
    (r : JobReport ℤ) × (s : Kubesim farm) × (run_round farm 9 (farming calls_all) ≡ done tt s)
    × (emulator_report farm "j1" s ≡ done r s)
    × (r.status ≡ "failed")
    × AllDecided (on_two ∷ on_one ∷ []) r.report
    × (s.emulator_result ≡ insert "j1" (some r.report) (farming calls_all).emulator_result)
    × (s.fifo_queue ≡ (pop (farming calls_all).fifo_queue).1)
    × (s.callbacks ≡ [])
    × (some s.cluster.pods ≡ some [])
unfolding new
run_round-decides_example =
    run_round-decides farm "default-scheduler" farm_placing farm_pods 7 two_apps "j1"
      (on_two ∷ on_one ∷ []) [] (farming calls_all) first_job (inl refl)
      (
        (refl, refl, omega arith, omega arith),
        ((refl, refl, omega arith, omega arith, refused_pod-Refusal), tt),
      )
      refl all_Ready
