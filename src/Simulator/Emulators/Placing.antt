-- ===== src/Simulator/Emulators/Placing.antt =====
-- The emulation of an app for which the scheduler binds every pod.
use kubesim.Prelude.{
  ℕ, ◌+◌, ◌<◌, ◌≡◌, refl, subst, none, some, List, [], ◌∷◌, ◌++◌, String, arith, ap, ◌∙◌, str_eq,
  length, inl, inr, tally,
}
use kubesim.Prelude.Int.{pos}
use kubesim.Prelude.Text.{codes}
use kubesim.Prelude.Exec.{Outcome, done, then_do, rewrap}
use kubesim.Platform.{Platform, Pod}
use kubesim.Report.{Review, ReviewResult, get_report}
use kubesim.Report.Counting.{Distinct, replicas_of}
use kubesim.Report.Distribution.{parse_pods_review-single, get_report-pods}
use kubesim.Simulator.{Kubesim, Callback, opened}
use kubesim.Simulator.Pods.{update_pod_request, report, clean_status_pods}
use kubesim.Simulator.Runs.Steps.{PlacingLaws, Unused, held, made, bindings, placed, drawn}
use kubesim.Simulator.Runs.Placing.{Complete, scheduler_pod-Complete}
use kubesim.Simulator.Emulators.{emulate_app}
use kubesim.Simulator.Emulators.Outcomes.{Reads, Ended-Reads}

-- The report of an app whose pods are all placed: it says so, and its one result gives every node as
-- many replicas as it stands in the list.
abbrev pub Spread : {Q : Type 0} → Pod Q → List String → Review Q → Type 0
Spread t nodes r =
    (r.spec.desired_replicas ≡ pos (length nodes))
    × (r.status.replicas ≡ pos (length nodes))
    × (r.status.reason.kind ≡ codes "Schedulable")
    × ((x : ReviewResult) × (r.status.pods ≡ x ∷ [])
        × (x.us_name ≡ t.name)
        × Distinct x.replicas_on_nodes
        × ((node : String)
            → replicas_of node x.replicas_on_nodes ≡ tally (λ n. str_eq n node) nodes))

module _ (p : Platform) (name : String) (t : Pod p.Quantity) where
  pub length-placed :
      (i : ℕ) (nodes : List String) → length (placed p name t i nodes) ≡ length nodes
  length-placed i [] = refl
  length-placed i (node ∷ nodes) = omega (arith, length-placed (i + 2) nodes)

  pub tally-placed :
      (x : String) (i : ℕ) (nodes : List String)
      → tally (λ (pod : Pod p.Quantity). str_eq pod.node_name x) (placed p name t i nodes)
        ≡ tally (λ n. str_eq n x) nodes
  tally-placed x i [] = refl
  tally-placed x i (node ∷ nodes) = ground (arith, tally-placed x (i + 2) nodes)

module _ (p : Platform) where
  -- Between two apps: nothing is placed, the calls that are still to come, the next UUID, and pods that
  -- can be made.
  pub record Ready (u : ℕ) (later : List (Pod p.Quantity)) (more : List (Callback p.Quantity))
      (s : Kubesim p) : Type 0 where
    pub no_pods : s.status.pods ≡ []
    pub calls : s.callbacks ≡ more
    pub next : s.next_uuid ≡ u
    pub unused : Unused later (held p s)

module _ (p : Platform) (laws : PlacingLaws p) (t : Pod p.Quantity) where
  unfoldable pub report_run : Kubesim p → Outcome (Kubesim p) (Review p.Quantity)
  report_run s =
      then_do (report p s) (λ r s'. then_do (clean_status_pods p s') (λ _ s''. done r s''))

  unfoldable pub cleaned : Kubesim p → Kubesim p
  cleaned s = record s { report = none; status = record (s.status) { pods = [] } }

  pub report_run_lem :
      (m : ℕ) (s : Kubesim p) (r : Review p.Quantity)
      → s.simulated_pod ≡ some t
      → s.max_simulated ≡ pos m
      → get_report p (t ∷ []) s.status (pos m) ≡ some r
      → report_run s ≡ done r (cleaned s)
  unfolding report clean_status_pods report_run cleaned
  report_run_lem m s r e l made_it = rw (e, report, l, made_it) refl

  Reads-Schedulable :
      (m k : ℕ) (r : Review p.Quantity)
      → k ≡ m
      → Reads p m k r
      → (r.status.replicas ≡ pos m) × (r.status.reason.kind ≡ codes "Schedulable")
  Reads-Schedulable m k r e (d, n, counted, inl (full, kind)) = (n ∙ ap pos e, kind)
  Reads-Schedulable m k r e (d, n, counted, inr (few, kind)) = absurd (omega (arith, e))

  module _ (i : ℕ) (name : String) (nodes : List String) (later : List (Pod p.Quantity))
      (more : List (Callback p.Quantity)) where
    report-Spread :
        (s : Kubesim p)
        → length nodes < 2147483648
        → Complete p laws (length nodes) t (placed p name t i nodes) (drawn p i nodes) later more s
        → (r : Review p.Quantity) × (s' : Kubesim p) × (report_run s ≡ done r s')
          × Spread t nodes r
          × Ready p (drawn p i nodes) later more s'
    unfolding cleaned
    report-Spread s h w =
        let full : length s.status.pods ≡ length nodes =
          ap length w.pods ∙ length-placed p name t i nodes in
        let (r, made_it, reads) =
          Ended-Reads p (length nodes) t [] s.status h (inl (full, w.reason)) in
        let (x, parsed, named, distinct, spread) = parse_pods_review-single t s.status in
        let (replicas, kind) =
          Reads-Schedulable (length nodes) (length s.status.pods) r full reads in
        (
          r,
          cleaned s,
          report_run_lem (length nodes) s r w.template w.limit made_it,
          (
            reads.0,
            replicas,
            kind,
            (
              x,
              get_report-pods p (t ∷ []) s.status (pos (length nodes)) (x ∷ []) r parsed made_it,
              named,
              distinct,
              λ node.
                  spread node
                  ∙ ap (tally (λ pod. str_eq pod.node_name node)) w.pods
                  ∙ tally-placed p name t node i nodes,
            ),
          ),
          record { no_pods = refl; calls = w.calls; next = w.next; unused = w.unused },
        )

  -- What `emulate_app-Spread` says, for the scheduler's name and the number of the next UUID.
  Places :
      List String
      → List (Pod p.Quantity)
      → List (Callback p.Quantity)
      → Kubesim p
      → String
      → ℕ
      → Type 0
  Places nodes later more ks name i =
      Ready p i (made p name t i nodes ++ later) (bindings p name t i nodes ++ more) ks
      → (r : Review p.Quantity) × (s : Kubesim p) × (emulate_app p (some t) (pos (length nodes)) ks
          ≡ done r s)
        × Spread t nodes r
        × Ready p (drawn p i nodes) later more s

  emulate_app-Places :
      (nodes : List String) (later : List (Pod p.Quantity)) (more : List (Callback p.Quantity))
      (ks : Kubesim p)
      → 0 < length nodes
      → length nodes < 2147483648
      → Places nodes later more ks ks.default_scheduler_name ks.next_uuid
  unfolding Places emulate_app update_pod_request report_run
  emulate_app-Places [] later more ks h k w = absurd (omega (arith, h))
  emulate_app-Places (node ∷ nodes) later more ks h k w =
      let name = ks.default_scheduler_name in
      let asked = record ks {
        simulated_pod = some t;
        max_simulated = pos (length (node ∷ nodes));
        simulated = pos 0;
        stop = opened;
        informer_stop_ch = opened;
        scheduler_ch = opened;
      } in
      let (s, ran, complete) =
        scheduler_pod-Complete p laws (length (node ∷ nodes)) t node nodes later more asked
          (record {
            template = refl;
            limit = refl;
            count = refl;
            bounded = k;
            waiting = refl;
            channels = inr (refl, refl);
          })
          refl w.no_pods w.calls w.unused in
      let (r, s', reported, spread, rest) =
        report-Spread ks.next_uuid name (node ∷ nodes) later more s k complete in
      (
        r,
        s',
        ap (λ o. then_do (rewrap "Unable to create next pod to schedule" o) (λ _. report_run)) ran
            ∙ reported,
        spread,
        rest,
      )

  -- The emulation of an app for one replica or more, for which the scheduler first binds each pod as
  -- soon as it is created, ends without an error; the report says that all replicas are placed, and
  -- gives every node as many as the scheduler has bound to it; the calls that bind the pods are used
  -- up, and nothing is placed for the next app.
  pub emulate_app-Spread :
      (nodes : List String) (later : List (Pod p.Quantity)) (more : List (Callback p.Quantity))
      (ks : Kubesim p) (name : String) (i : ℕ)
      → 0 < length nodes
      → length nodes < 2147483648
      → ks.default_scheduler_name ≡ name
      → Ready p i (made p name t i nodes ++ later) (bindings p name t i nodes ++ more) ks
      → (r : Review p.Quantity) × (s : Kubesim p) × (emulate_app p (some t) (pos (length nodes)) ks
          ≡ done r s)
        × Spread t nodes r
        × Ready p (drawn p i nodes) later more s
  unfolding Places
  emulate_app-Spread nodes later more ks name i h k e w =
      subst (λ n. Places nodes later more ks n i) e
        (subst (Places nodes later more ks ks.default_scheduler_name) w.next
          (emulate_app-Places nodes later more ks h k))
        w
