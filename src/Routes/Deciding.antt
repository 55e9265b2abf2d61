-- ===== src/Routes/Deciding.antt =====
-- A request for an emulation of apps, the round of the job loop that runs it, and the request for its
-- report.
use kubesim.Prelude.{◌≡◌, refl, ℕ, suc, ◌+◌, some, List, [], ◌++◌, String, ◌∙◌, inl}
use kubesim.Prelude.Exec.{done}
use kubesim.Platform.{Platform}
use kubesim.Queue.Pending.{Fresh, pending}
use kubesim.Utils.{NodeConfig, PodRequest}
use kubesim.Simulator.{Kubesim, Callback, JobReport}
use kubesim.Simulator.Runs.Steps.{PlacingLaws}
use kubesim.Simulator.Emulators.Cleaning.{PodLaws}
use kubesim.Simulator.Emulators.Placing.{Ready}
use kubesim.Jobs.{RealApps, run_round}
use kubesim.Jobs.Answers.{Answer, Asks, AllDecided, verdict, all_made, all_calls}
use kubesim.Jobs.Deciding.{submit-decides}
use kubesim.Emulator.{new_apps_emulator, new_emulator_report, apps_handler, emulator_report_handler}
use kubesim.Routes.{WriterCall, job, job_report, Web, Server, send_text, parse_request}
use kubesim.Routes.Handles.{apps_emulator_route, emulator_report_route}
use kubesim.Routes.Answers.{text_calls}
use kubesim.Routes.Following.{apps_group, emulated_lem, send_text_lem, emulator_report_route_lem}

module _ (p : Platform) (w : Web p) (real : RealApps) (laws : PlacingLaws p) (pod_laws : PodLaws p)
    (fuel : ℕ) where
  -- A request for an emulation of apps that can be read, on a kubesim with no jobs and with a new job
  -- id, where the scheduler will first bind the pods of each app, each as soon as it is created, or
  -- bind some and refuse the next: the answer is 200 with the JSON of the job id, the next round of the
  -- job loop ends, and a request for the report of that id is then answered by the JSON of a report
  -- with the status "failed" if a pod was refused and else "succeed", or empty without apps, and with
  -- one report for each app, which says that all replicas are placed, or that some are and the
  -- scheduler's message, and gives every node as many as were bound to it.
  pub apps-decide :
      (kind id : String) (body : w.Body) (s : Server p) (node_list : List NodeConfig)
      (apps : List (PodRequest p.Quantity)) (ks : Kubesim p) (text : String)
      (answers : List (Answer p.Quantity)) (more : List (Callback p.Quantity))
      → parse_request p w kind (some body) s.ks ≡ done (node_list, apps) ks
      → Asks p ks.default_scheduler_name apps answers
      → pending ks.fifo_queue ≡ []
      → Fresh (p.uuid ks.next_uuid) ks.fifo_queue.queue
      → Ready p ks.next_uuid
          (all_made p ks.default_scheduler_name (ks.next_uuid + 1) answers)
          (all_calls p ks.default_scheduler_name (ks.next_uuid + 1) answers more)
          ks
      → w.marshal (job (p.uuid ks.next_uuid)) ≡ some text
      → (t : Server p) × (u : Kubesim p) × (r : JobReport p.Quantity) × (apps_emulator_route p w
            (new_apps_emulator p real fuel)
            (record { kind = kind; id = id; body = some body })
            s
          ≡ done tt t)
        × (t.calls ≡ s.calls ++ text_calls text)
        × (run_round p (suc (suc fuel)) t.ks ≡ done tt u)
        × ((calls : List WriterCall)
            → emulator_report_route p w
                (new_emulator_report p real fuel)
                (record { kind = ""; id = p.uuid ks.next_uuid; body = some body })
                (record { ks = u; calls = calls })
              ≡ send_text p (w.marshal (job_report r)) (record { ks = u; calls = calls }))
        × (r.status ≡ verdict "" answers)
        × AllDecided answers r.report
  unfolding apps_emulator_route apps_handler new_apps_emulator emulator_report_handler
      new_emulator_report
  apps-decide kind id body s node_list apps ks text answers more parsed asks idle fresh ready
        marshalled =
      let (after, u, r, submitted, ran, reported, status, decided) =
        submit-decides p ks.default_scheduler_name laws pod_laws fuel
          (apps_group p w real fuel apps) answers more ks (inl refl) asks refl idle fresh ready in
      (
        record { ks = after; calls = s.calls ++ text_calls text },
        u,
        r,
        emulated_lem p w job (apps_handler p (new_apps_emulator p real fuel)) kind id body s
              node_list apps ks after (p.uuid ks.next_uuid) parsed submitted
            ∙ send_text_lem p w (w.marshal (job (p.uuid ks.next_uuid))) text
                (record { ks = after; calls = s.calls }) marshalled,
        refl,
        ran,
        λ calls.
            emulator_report_route_lem p w (new_emulator_report p real fuel) (p.uuid ks.next_uuid)
              body (record { ks = u; calls = calls }) r reported,
        status,
        decided,
      )
