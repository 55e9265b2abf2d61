-- ===== src/Jobs/Reports.antt =====
-- Submitted jobs, and what is reported of them.
use kubesim.Prelude.{
  ℕ, ◌+◌, ◌-◌, ◌<◌, ◌≡◌, refl, none, some, List, [], ◌∷◌, ◌++◌, String, arith, str_eq, eq_iff, ltb,
  if◌then◌else◌, All, ap, sym, ◌∙◌,
}
use mathlib.Core.List.{append_assoc, append-nil}
use text.Mathlib.TextPositions.{eq_refl}
use kubesim.Prelude.Int.{pos, sub32}
use kubesim.Prelude.Map.{Map, lookup, lookup-insert}
use kubesim.Prelude.Text.{Error, message}
use kubesim.Prelude.Exec.{done, fails}
use kubesim.Platform.{Platform, Pod}
use kubesim.Queue.{push, get}
use kubesim.Queue.Pending.{pending, Fresh}
use kubesim.Queue.Order.{pending-push}
use kubesim.Utils.{AppGroup, PodRequest}
use kubesim.Simulator.{Kubesim, JobReport}
use kubesim.Jobs.{
  RealApps, job_status, no_group, submit, submit_horizontal, horizontal_requests, zero_request,
  scale_up, emulator_report,
}

module _ (p : Platform) where
  -- A group that is submitted under an id without a result goes to the end of the queue, its job
  -- is reported as "queuing" with no reports, and the status of every other id is as before.
  pub submit_lem :
      (group : AppGroup p.Quantity) (ks : Kubesim p)
      → Fresh (p.uuid ks.next_uuid) ks.fifo_queue.queue
      → lookup (p.uuid ks.next_uuid) ks.emulator_result ≡ none
      → (s : Kubesim p) × (r : JobReport p.Quantity) × (submit p group ks
          ≡ done (p.uuid ks.next_uuid) s)
        × (pending s.fifo_queue ≡ pending ks.fifo_queue ++ (p.uuid ks.next_uuid, group) ∷ [])
        × (emulator_report p (p.uuid ks.next_uuid) s ≡ done r s)
        × (r.status ≡ "queuing")
        × (r.report ≡ [])
        × ((id : String)
            → job_status (lookup id s.emulator_result) (lookup id (get s.fifo_queue)) ≡ (
                if str_eq (p.uuid ks.next_uuid) id
                then "queuing"
                else job_status (lookup id ks.emulator_result) (lookup id (get ks.fifo_queue))))
  unfolding submit emulator_report push get
  submit_lem group ks fresh new = (
    record ks {
      fifo_queue = push (p.uuid ks.next_uuid) group ks.fifo_queue;
      next_uuid = ks.next_uuid + 1;
    },
    record {
      job_id = p.uuid ks.next_uuid;
      status = "queuing";
      report = [];
      prediction_node = lookup (p.uuid ks.next_uuid) ks.prediction_node;
    },
    refl,
    pending-push (p.uuid ks.next_uuid) group ks.fifo_queue fresh,
    ground (
      arith,
      new,
      lookup-insert (p.uuid ks.next_uuid) (p.uuid ks.next_uuid) group ks.fifo_queue.app_group,
      eq_refl (p.uuid ks.next_uuid),
    ),
    refl,
    refl,
    λ id.
        rw (lookup-insert (p.uuid ks.next_uuid) id group ks.fifo_queue.app_group)
          (ground (arith, new, eq_iff (p.uuid ks.next_uuid) id)),
  )

  module _ (real : RealApps) where
    abbrev pub too_small : Error
    too_small = message "horizontal apps is stop,scale replicas is too samll."

    -- Scaling an app that runs `current` replicas to `wanted` asks for the difference, or is the
    -- error of the source where the difference is not positive; nothing else changes.
    pub scale_up_lem :
        (pod : Pod p.Quantity) (wanted current : ℕ) (labels : Map String) (ks : Kubesim p)
        → wanted < 2147483648
        → current < 2147483648
        → scale_up p real pod
            (pos wanted)
            (some (record { replicas = some (pos current); match_labels = labels }))
            ks
          ≡ (if ltb current wanted
              then done (record { pod = some pod; replicas = pos (wanted - current); kind = "" }) ks
              else fails too_small ks)
    unfolding scale_up sub32
    scale_up_lem pod wanted current labels ks h k = ground arith

    -- The requests that are all for one kind of workload, as the parser makes them.
    abbrev pub OfKind : String → List (PodRequest p.Quantity) → Type 0
    OfKind kind = All (λ app. app.kind ≡ kind)

    -- As many requests with no pod.
    abbrev pub no_pods : List (PodRequest p.Quantity) → List (PodRequest p.Quantity)
    no_pods [] = []
    no_pods (app ∷ apps) = zero_request p real ∷ no_pods apps

    horizontal_requests-stateful :
        (apps acc : List (PodRequest p.Quantity)) (ks : Kubesim p)
        → OfKind "statefulset" apps
        → horizontal_requests p real (zero_request p real) apps acc ks
          ≡ done (acc ++ no_pods apps) ks
    unfolding horizontal_requests
    horizontal_requests-stateful [] acc ks k = ap (λ rs. done rs ks) (sym (append-nil acc))
    horizontal_requests-stateful (app ∷ apps) acc ks k =
        rw (k.0, horizontal_requests)
          (horizontal_requests-stateful apps (acc ++ zero_request p real ∷ []) ks k.1
            ∙ ap (λ rs. done rs ks) (append_assoc acc (zero_request p real ∷ []) (no_pods apps)))

    -- Requests for stateful sets, which the parser marks "statefulset", meet no case of the loop,
    -- which looks for "statefulsets": the job that is submitted has as many requests, without a pod.
    pub submit_horizontal-stateful :
        (apps : List (PodRequest p.Quantity)) (ks : Kubesim p)
        → OfKind "statefulset" apps
        → submit_horizontal p real apps ks
          ≡ submit p (record (no_group p "HorizontalEmulator") { apps = no_pods apps }) ks
    unfolding submit_horizontal
    submit_horizontal-stateful apps ks k = rw (horizontal_requests-stateful apps [] ks k)
