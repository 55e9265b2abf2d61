-- ===== src/Tests/Submissions.antt =====
-- Jobs submitted to an idle kubesim.
use kubesim.Prelude.{◌≡◌, refl, none, some, [], ◌∷◌, ◌++◌, String, str_eq, if◌then◌else◌}
use kubesim.Prelude.Int.{ℤ, pos}
use kubesim.Prelude.Map.{lookup}
use kubesim.Prelude.Exec.{done}
use kubesim.Queue.{get}
use kubesim.Queue.Pending.{pending}
use kubesim.Utils.{AppGroup}
use kubesim.Simulator.{Kubesim, JobReport}
use kubesim.Jobs.{RealApps, no_group, submit, emulator_report, job_status}
use kubesim.Jobs.Reports.{submit_lem}
use kubesim.Tests.{desk, idle, token, stateful_web}

abbrev pub real : RealApps
real = record {
  deployment = λ namespace name. some (record { replicas = some (pos 1); match_labels = [] });
  stateful_set = λ namespace name. none;
}

abbrev apps_job : AppGroup ℤ
apps_job = record (no_group desk "AppsEmulator") { apps = stateful_web ∷ [] }

unknown : lookup (token 0) (idle []).emulator_result ≡ none
unfolding lookup
unknown = refl

no_jobs : pending (idle []).fifo_queue ≡ []
unfolding pending
no_jobs = refl

submit_lem_example :
    (s : Kubesim desk) × (r : JobReport ℤ) × (submit desk apps_job (idle []) ≡ done (token 0) s)
    × (pending s.fifo_queue ≡ pending (idle []).fifo_queue ++ (token 0, apps_job) ∷ [])
    × (emulator_report desk (token 0) s ≡ done r s)
    × (r.status ≡ "queuing")
    × (r.report ≡ [])
    × ((id : String)
        → job_status (lookup id s.emulator_result) (lookup id (get s.fifo_queue)) ≡ (
            if str_eq (token 0) id
            then "queuing"
            else job_status
                (lookup id (idle []).emulator_result)
                (lookup id (get (idle []).fifo_queue))))
submit_lem_example = submit_lem desk apps_job (idle []) tt unknown
