-- ===== src/Tests/Failures.antt =====
-- A job on a cluster that refuses every pod.
use kubesim.Prelude.{◌≡◌, refl, none, some, [], ◌∷◌, inl}
use kubesim.Prelude.Int.{ℤ, pos}
use kubesim.Prelude.Map.{lookup}
use kubesim.Prelude.Text.{Error, client, wrapped}
use kubesim.Prelude.Exec.{Outcome, done, fails, pure}
use kubesim.Platform.{Platform}
use kubesim.Queue.{found, pop}
use kubesim.Utils.{AppGroup}
use kubesim.Simulator.{Kubesim, JobReport, new}
use kubesim.Simulator.Emulators.{emulate_apps}
use kubesim.Jobs.{emulator_report, run_round}
use kubesim.Jobs.Failing.{run_round-fails}
use kubesim.Tests.{desk, web}

abbrev refusing : Platform
refusing = record desk { pods = record (desk.pods) { create = λ namespace pod c. none } }

abbrev group : AppGroup ℤ
group = record {
  emulator_type = "AppsEmulator";
  nodes = [];
  apps = record { pod = some web; replicas = pos 2; kind = "deployment" } ∷ [];
  old_pods = [];
  pods_config = none;
}

abbrev one_job : Kubesim refusing
one_job = record (new refusing "prd" (record { pods = []; nodes = [] }) 0 []) {
  fifo_queue = record { app_group = ("j1", group) ∷ []; queue = "j1" ∷ [] };
}

abbrev taken : Kubesim refusing
taken = record one_job { fifo_queue = (pop one_job.fifo_queue).1 }

abbrev state_of : {A : Type 0} → Outcome (Kubesim refusing) A → Kubesim refusing
state_of (done a s) = s
state_of (fails e s) = s
state_of _ = one_job

abbrev failed : Kubesim refusing
failed = state_of (emulate_apps refusing pure group.apps [] taken)

abbrev why : Error
why =
    wrapped "Unable to create next pod to schedule"
      (wrapped "nable to create next pod to schedule" client)

first_job : (pop one_job.fifo_queue).0 ≡ found group "j1"
unfolding pop lookup
first_job = refl

not_emulated : emulate_apps refusing pure group.apps [] taken ≡ fails why failed
unfolding emulate_apps new
not_emulated = refl

no_result : lookup "j1" one_job.emulator_result ≡ none
unfolding new lookup
no_result = refl

run_round-fails_example :
    (r : JobReport ℤ) × (run_round refusing 9 one_job ≡ done tt failed)
    × (emulator_report refusing "j1" failed ≡ done r failed)
    × (r.status ≡ "processing")
    × (r.report ≡ [])
run_round-fails_example =
    run_round-fails refusing 9 group "j1" one_job failed why first_job (inl refl) not_emulated
      no_result
