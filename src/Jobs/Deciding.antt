-- ===== src/Jobs/Deciding.antt =====
-- That a round of the job loop, whose scheduler binds or refuses the pods of each app, ends, and what
-- it reports.
use text.Mathlib.TextPositions.{eq_refl}
use kubesim.Prelude.{
  ℕ, suc, ◌+◌, ◌≡◌, refl, none, some, List, [], String, ap, ◌∙◌, inl, inr, if◌then◌else◌, Option,
}
use kubesim.Prelude.Map.{Map, lookup, insert, lookup-insert}
use kubesim.Prelude.Exec.{done, pure}
use kubesim.Platform.{Platform}
use kubesim.Queue.{found, pop, push}
use kubesim.Queue.Pending.{pending, Fresh as FreshKey}
use kubesim.Queue.Order.{pop-push}
use kubesim.Report.{Review}
use kubesim.Utils.{AppGroup}
use kubesim.Simulator.{Kubesim, Callback, JobReport}
use kubesim.Simulator.Pods.{clean_status_pods}
use kubesim.Simulator.Runs.Steps.{PlacingLaws}
use kubesim.Simulator.Emulators.{
  emulate_apps, apps_emulator, horizontal_emulator, save_result, reports_status,
}
use kubesim.Simulator.Emulators.Cleaning.{PodLaws, clean_pod_lem}
use kubesim.Simulator.Emulators.Placing.{Ready}
use kubesim.Jobs.{run_group, run_popped, run_round, emulator_report, job_status, submit}
use kubesim.Jobs.Failing.{OnlyEmulates}
use kubesim.Jobs.Answers.{
  Answer, AllDecided, verdict, Asks, all_made, all_calls, reports_status-verdict,
  emulate_apps-Decided,
}

module _ (p : Platform) (name : String) (laws : PlacingLaws p) (pod_laws : PodLaws p)
    (fuel : ℕ) where
  -- The state after the round: the pods are deleted, and the reports saved.
  saved : p.Cluster → String → List (Review p.Quantity) → Kubesim p → Kubesim p
  saved c key rs s = record s {
    cluster = c;
    status = record (s.status) { pods = [] };
    report = none;
    emulator_result = insert key (some rs) s.emulator_result;
  }

  run_group-saved :
      (group : AppGroup p.Quantity) (key : String) (ks s : Kubesim p)
      (rs : List (Review p.Quantity))
      → OnlyEmulates group.emulator_type
      → emulate_apps p pure group.apps [] ks ≡ done rs s
      → (c : p.Cluster) × (run_group p (suc (suc fuel)) group key ks ≡ done tt (saved c key rs s))
        × (p.pods.list "" "provisioner=kubesim" c ≡ some [])
  unfolding run_group apps_emulator horizontal_emulator saved clean_status_pods save_result
  run_group-saved group key ks s rs (inl kind) e =
      let (c, cleaned, gone) = clean_pod_lem p pod_laws fuel s in
      (c, rw (kind, run_group, e, cleaned) refl, gone)
  run_group-saved group key ks s rs (inr kind) e =
      let (c, cleaned, gone) = clean_pod_lem p pod_laws fuel s in
      (c, rw (kind, run_group, e, cleaned) refl, gone)

  lookup-insert_self :
      (key : String) (rs : List (Review p.Quantity))
      (results : Map (Option (List (Review p.Quantity))))
      → lookup key (insert key (some rs) results) ≡ some (some rs)
  lookup-insert_self key rs results =
      lookup-insert key key (some rs) results
      ∙ ap (λ b. if b then some (some rs) else lookup key results) (eq_refl key)

  emulator_report_lem :
      (key : String) (rs : List (Review p.Quantity)) (s : Kubesim p)
      → lookup key s.emulator_result ≡ some (some rs)
      → emulator_report p key s
        ≡ done
            (record {
              job_id = key;
              status = reports_status "" rs;
              report = rs;
              prediction_node = lookup key s.prediction_node;
            })
            s
  unfolding emulator_report job_status
  emulator_report_lem key rs s kept = rw kept refl

  -- The round of the job loop that takes a job of the apps or the horizontal emulator from the queue,
  -- where the scheduler first binds the pods of each app, each as soon as it is created, or binds
  -- some and refuses the next: the round ends, and the job is reported with one report for each
  -- app. A report says that all replicas are placed, or that some are and the scheduler's message,
  -- and gives every node as many as were bound to it; the status is "failed" if a pod was refused
  -- and else "succeed", or empty without apps. These reports are the only new result, the rest
  -- of the queue and of the calls waits, and no pod of kubesim is left in the cluster.
  pub run_round-decides :
      (group : AppGroup p.Quantity) (key : String) (answers : List (Answer p.Quantity))
      (more : List (Callback p.Quantity)) (ks : Kubesim p)
      → (pop ks.fifo_queue).0 ≡ found group key
      → OnlyEmulates group.emulator_type
      → Asks p name group.apps answers
      → ks.default_scheduler_name ≡ name
      → Ready p ks.next_uuid
          (all_made p name ks.next_uuid answers)
          (all_calls p name ks.next_uuid answers more)
          ks
      → (r : JobReport p.Quantity) × (s : Kubesim p) × (run_round p (suc (suc fuel)) ks ≡ done tt s)
        × (emulator_report p key s ≡ done r s)
        × (r.status ≡ verdict "" answers)
        × AllDecided answers r.report
        × (s.emulator_result ≡ insert key (some r.report) ks.emulator_result)
        × (s.fifo_queue ≡ (pop ks.fifo_queue).1)
        × (s.callbacks ≡ more)
        × (p.pods.list "" "provisioner=kubesim" s.cluster ≡ some [])
  unfolding run_round saved
  run_round-decides group key answers more ks popped kind asks n w =
      let popped_ks = record ks { fifo_queue = (pop ks.fifo_queue).1 } in
      let (rs, s, ran, decided, calls, frame) =
        emulate_apps-Decided p name laws group.apps answers more [] popped_ks popped_ks ks.next_uuid
          asks n (refl, refl, refl)
          (record { no_pods = w.no_pods; calls = w.calls; next = refl; unused = w.unused }) in
      let (c, group_ran, gone) = run_group-saved group key popped_ks s rs kind ran in
      let s' = saved c key rs s in
      (
        record {
          job_id = key;
          status = reports_status "" rs;
          report = rs;
          prediction_node = lookup key s.prediction_node;
        },
        s',
        ap (λ x. run_popped p (suc (suc fuel)) x popped_ks) popped ∙ group_ran,
        emulator_report_lem key rs s' (lookup-insert_self key rs s.emulator_result),
        reports_status-verdict "" answers rs decided,
        decided,
        ap (insert key (some rs)) frame.1,
        frame.2,
        calls,
        gone,
      )

  -- A job that is submitted to an idle kubesim, whose scheduler so answers, is reported after the
  -- next round of the job loop with the status and the reports that the answers give.
  pub submit-decides :
      (group : AppGroup p.Quantity) (answers : List (Answer p.Quantity))
      (more : List (Callback p.Quantity)) (ks : Kubesim p)
      → OnlyEmulates group.emulator_type
      → Asks p name group.apps answers
      → ks.default_scheduler_name ≡ name
      → pending ks.fifo_queue ≡ []
      → FreshKey (p.uuid ks.next_uuid) ks.fifo_queue.queue
      → Ready p ks.next_uuid
          (all_made p name (ks.next_uuid + 1) answers)
          (all_calls p name (ks.next_uuid + 1) answers more)
          ks
      → (s : Kubesim p) × (u : Kubesim p) × (r : JobReport p.Quantity) × (submit p group ks
          ≡ done (p.uuid ks.next_uuid) s)
        × (run_round p (suc (suc fuel)) s ≡ done tt u)
        × (emulator_report p (p.uuid ks.next_uuid) u ≡ done r u)
        × (r.status ≡ verdict "" answers)
        × AllDecided answers r.report
  unfolding submit
  submit-decides group answers more ks kind asks n idle fresh w =
      let key = p.uuid ks.next_uuid in
      let s = record ks {
        fifo_queue = push key group ks.fifo_queue;
        next_uuid = ks.next_uuid + 1;
      } in
      let (r, u, ran, reported, status, decided, results, queue, calls, gone) =
        run_round-decides group key answers more s (pop-push key group ks.fifo_queue idle fresh)
          kind asks n
          (record { no_pods = w.no_pods; calls = w.calls; next = refl; unused = w.unused }) in
      (s, u, r, refl, ran, reported, status, decided)
