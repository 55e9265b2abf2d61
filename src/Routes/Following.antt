-- ===== src/Routes/Following.antt =====
-- Requests that follow one another.
use kubesim.Prelude.{◌≡◌, refl, ℕ, Option, none, some, List, [], ◌∷◌, ◌++◌, String, ap, ◌∙◌}
use kubesim.Prelude.Map.{lookup}
use kubesim.Prelude.Exec.{done, Exec, then_do}
use kubesim.Platform.{Platform}
use kubesim.Queue.Pending.{Fresh, pending}
use kubesim.Utils.{NodeConfig, PodRequest, AppGroup}
use kubesim.Simulator.{Kubesim, JobReport}
use kubesim.Jobs.{RealApps, no_group}
use kubesim.Jobs.Reports.{submit_lem}
use kubesim.Emulator.{
  new_apps_emulator, new_emulator_report, apps_handler, emulator_report_handler, EmulatorReport,
}
use kubesim.Routes.{
  WriterCall, Payload, job, job_report, Web, Server, answer, send_text, parse_request, caught,
}
use kubesim.Routes.Handles.{emulated, requested, ok_or, apps_emulator_route, emulator_report_route}
use kubesim.Routes.Answers.{text_calls}

module _ (p : Platform) (w : Web p) where
  -- A route whose parts succeed sends their result.
  pub emulated_lem :
      {A : Type 0} (payload : A → Payload p)
      (handler : List NodeConfig → List (PodRequest p.Quantity) → Exec (Kubesim p) A)
      (kind id : String) (body : w.Body) (s : Server p) (node_list : List NodeConfig)
      (apps : List (PodRequest p.Quantity)) (ks ks' : Kubesim p) (a : A)
      → parse_request p w kind (some body) s.ks ≡ done (node_list, apps) ks
      → handler node_list apps ks ≡ done a ks'
      → emulated p w payload handler (record { kind = kind; id = id; body = some body }) s
        ≡ send_text p (w.marshal (payload a)) (record { ks = ks'; calls = s.calls })
  unfolding emulated
  emulated_lem payload handler kind id body s node_list apps ks ks' a parsed handled =
      let both : requested p w handler kind (some body) s.ks ≡ done a ks' =
        ap (λ o. then_do o (λ x. handler x.0 x.1)) parsed ∙ handled in
      ap (λ o. then_do (caught p s.calls o) (λ r. answer p w (ok_or p w payload r))) both

  pub emulator_report_route_lem :
      (e : EmulatorReport p) (id : String) (body : w.Body) (s : Server p) (r : JobReport p.Quantity)
      → emulator_report_handler p e id s.ks ≡ done r s.ks
      → emulator_report_route p w e (record { kind = ""; id = id; body = some body }) s
        ≡ send_text p (w.marshal (job_report r)) s
  unfolding emulator_report_route
  emulator_report_route_lem e id body s r handled =
      ap (λ o. then_do (caught p s.calls o) (λ x. answer p w (ok_or p w job_report x))) handled

  pub send_text_lem :
      (answered : Option String) (text : String) (s : Server p)
      → answered ≡ some text
      → send_text p answered s ≡ done tt (record s { calls = s.calls ++ text_calls text })
  unfolding send_text
  send_text_lem answered text s e = ap (λ o. send_text p o s) e

module _ (p : Platform) (w : Web p) (real : RealApps) (fuel : ℕ) where
  abbrev pub apps_group : List (PodRequest p.Quantity) → AppGroup p.Quantity
  apps_group apps = record (no_group p "AppsEmulator") { apps = apps }

  -- A request for an emulation of apps that can be read, where the job id that is drawn is new: the
  -- answer is 200 with the JSON of the job id, the apps wait at the end of the queue under it, and a
  -- request for the report of that id, with or without other calls on its writer, is answered by the
  -- JSON of a report with this id, the status "queuing" and no reports.
  pub apps-report :
      (kind id : String) (body : w.Body) (s : Server p) (node_list : List NodeConfig)
      (apps : List (PodRequest p.Quantity)) (ks : Kubesim p) (text : String)
      → parse_request p w kind (some body) s.ks ≡ done (node_list, apps) ks
      → Fresh (p.uuid ks.next_uuid) ks.fifo_queue.queue
      → lookup (p.uuid ks.next_uuid) ks.emulator_result ≡ none
      → w.marshal (job (p.uuid ks.next_uuid)) ≡ some text
      → (t : Server p) × (r : JobReport p.Quantity) × (apps_emulator_route p w
            (new_apps_emulator p real fuel)
            (record { kind = kind; id = id; body = some body })
            s
          ≡ done tt t)
        × (t.calls ≡ s.calls ++ text_calls text)
        × (pending t.ks.fifo_queue
            ≡ pending ks.fifo_queue ++ (p.uuid ks.next_uuid, apps_group apps) ∷ [])
        × ((calls : List WriterCall)
            → emulator_report_route p w
                (new_emulator_report p real fuel)
                (record { kind = ""; id = p.uuid ks.next_uuid; body = some body })
                (record t { calls = calls })
              ≡ send_text p (w.marshal (job_report r)) (record t { calls = calls }))
        × (r.status ≡ "queuing")
        × (r.report ≡ [])
  unfolding apps_emulator_route apps_handler new_apps_emulator emulator_report_handler
      new_emulator_report
  apps-report kind id body s node_list apps ks text parsed fresh new marshalled =
      let (after, r, submitted, queued, reported, status, none_yet, others) =
        submit_lem p (apps_group apps) ks fresh new in
      (
        record { ks = after; calls = s.calls ++ text_calls text },
        r,
        emulated_lem p w job (apps_handler p (new_apps_emulator p real fuel)) kind id body s
              node_list apps ks after (p.uuid ks.next_uuid) parsed submitted
            ∙ send_text_lem p w (w.marshal (job (p.uuid ks.next_uuid))) text
                (record { ks = after; calls = s.calls }) marshalled,
        refl,
        queued,
        λ calls.
            emulator_report_route_lem p w (new_emulator_report p real fuel) (p.uuid ks.next_uuid)
              body (record { ks = after; calls = calls }) r reported,
        status,
        none_yet,
      )
