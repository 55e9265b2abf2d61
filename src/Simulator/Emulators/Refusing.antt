-- ===== src/Simulator/Emulators/Refusing.antt =====
-- The emulation of an app for which the scheduler binds some pods and refuses one.
use kubesim.Prelude.{
  ℕ, ◌+◌, ◌<◌, ◌≡◌, refl, subst, some, List, [], ◌∷◌, ◌++◌, String, arith, ap, ◌∙◌, str_eq, eq_iff,
  length, inr, tally,
}
use kubesim.Prelude.Int.{ℤ, pos}
use kubesim.Prelude.Text.{codes, trim, first_line}
use kubesim.Prelude.Exec.{done, then_do, rewrap}
use kubesim.Platform.{Platform, Pod, PodCondition}
use kubesim.Report.{Review, ReviewResult, FailReason, Status, get_report, get_main_fail_reason}
use kubesim.Report.Counting.{Distinct, replicas_of}
use kubesim.Report.Distribution.{parse_pods_review-single, get_report-pods}
use kubesim.Simulator.{Kubesim, Callback, updates, opened}
use kubesim.Simulator.Pods.{update_pod_request, simulated_pod_of, unschedulable}
use kubesim.Simulator.Pods.Reason.{get_main_fail_reason-stop_reasons}
use kubesim.Simulator.Runs.Steps.{PlacingLaws, made, bindings, placed, drawn}
use kubesim.Simulator.Runs.Halting.{Refusal}
use kubesim.Simulator.Runs.Refusing.{Refused, scheduler_pod-Refused}
use kubesim.Simulator.Emulators.{emulate_app}
use kubesim.Simulator.Emulators.Outcomes.{Reads, Ended-Reads}
use kubesim.Simulator.Emulators.Placing.{
  Ready, report_run, report_run_lem, cleaned, length-placed, tally-placed,
}

-- The report of an app of which only some pods are placed: it says so, with the scheduler's message, and
-- its one result gives every node as many replicas as it stands in the list.
abbrev pub Cut : {Q : Type 0} → Pod Q → ℕ → List String → PodCondition → Review Q → Type 0
Cut t m nodes c r =
    (r.spec.desired_replicas ≡ pos m)
    × (r.status.replicas ≡ pos (length nodes))
    × (r.status.reason
        ≡ record { kind = codes "Unschedulable"; message = trim 32 (first_line c.message) })
    × ((x : ReviewResult) × (r.status.pods ≡ x ∷ [])
        × (x.us_name ≡ t.name)
        × Distinct x.replicas_on_nodes
        × ((node : String)
            → replicas_of node x.replicas_on_nodes ≡ tally (λ n. str_eq n node) nodes))

get_report-reason :
    (p : Platform) (ts : List (Pod p.Quantity)) (status : Status p.Quantity) (desired : ℤ)
    (reason : FailReason) (r : Review p.Quantity)
    → get_main_fail_reason status.stop_reason ≡ some reason
    → get_report p ts status desired ≡ some r
    → r.status.reason ≡ reason
unfolding get_report
get_report-reason p ts status desired reason r read made_it = ground arith

module _ (p : Platform) (laws : PlacingLaws p) (t : Pod p.Quantity) (m : ℕ) where
  Reads-short :
      (k : ℕ) (r : Review p.Quantity)
      → Reads p m k r
      → (r.spec.desired_replicas ≡ pos m) × (r.status.replicas ≡ pos k)
  Reads-short k r (d, n, counted, ended) = (d, n)

  report-Cut :
      (i u : ℕ) (name : String) (nodes : List String) (later : List (Pod p.Quantity))
      (c : PodCondition) (more : List (Callback p.Quantity)) (s : Kubesim p)
      → length nodes < m
      → m < 2147483648
      → c.reason ≡ "Unschedulable"
      → Refused p laws m t (placed p name t i nodes) c u later more s
      → (r : Review p.Quantity) × (s' : Kubesim p) × (report_run p laws t s ≡ done r s')
        × Cut t m nodes c r
        × Ready p u later more s'
  unfolding cleaned
  report-Cut i u name nodes later c more s l h e w =
      let few : length s.status.pods ≡ length nodes =
        ap length w.pods ∙ length-placed p name t i nodes in
      let stop : s.status.stop_reason ≡ unschedulable "Unschedulable" c.message =
        w.reason ∙ ap (λ reason. unschedulable reason c.message) e in
      let (r, made_it, reads) =
        Ended-Reads p m t c.message s.status h (inr (omega (arith, few), stop)) in
      let (desired, replicas) = Reads-short (length s.status.pods) r reads in
      let (x, parsed, named, distinct, spread) = parse_pods_review-single t s.status in
      (
        r,
        cleaned p laws t s,
        report_run_lem p laws t m s r w.template w.limit made_it,
        (
          desired,
          replicas ∙ ap pos few,
          get_report-reason p (t ∷ []) s.status (pos m) _ r
              (ap get_main_fail_reason stop
                ∙ (get_main_fail_reason-stop_reasons (pos 0) c.message).1)
              made_it,
          (
            x,
            get_report-pods p (t ∷ []) s.status (pos m) (x ∷ []) r parsed made_it,
            named,
            distinct,
            λ node.
                spread node
                ∙ ap (tally (λ pod. str_eq pod.node_name node)) w.pods
                ∙ tally-placed p name t node i nodes,
          ),
        ),
        record { no_pods = refl; calls = w.calls; next = w.next; unused = w.unused },
      )

  -- The pods that are made, the one that is refused included, before the pods of later apps.
  abbrev pub made_and_one : String → ℕ → List String → List (Pod p.Quantity) → List (Pod p.Quantity)
  made_and_one name i nodes later =
      simulated_pod_of p name i t ∷ made p name t (i + 2) nodes ++ later

  Cuts :
      List String
      → List (Pod p.Quantity)
      → Pod p.Quantity
      → PodCondition
      → List (Callback p.Quantity)
      → Kubesim p
      → String
      → ℕ
      → Type 0
  Cuts nodes later pod c more ks name i =
      Refusal name pod c
      → Ready p i (made_and_one name i nodes later)
          (bindings p name t i nodes ++ updates pod ∷ more) ks
      → (r : Review p.Quantity) × (s : Kubesim p) × (emulate_app p (some t) (pos m) ks ≡ done r s)
        × Cut t m nodes c r
        × Ready p (drawn p (i + 2) nodes) later more s

  emulate_app-Cuts :
      (nodes : List String) (later : List (Pod p.Quantity)) (pod : Pod p.Quantity)
      (c : PodCondition) (more : List (Callback p.Quantity)) (ks : Kubesim p)
      → length nodes < m
      → m < 2147483648
      → Cuts nodes later pod c more ks ks.default_scheduler_name ks.next_uuid
  unfolding Cuts emulate_app update_pod_request report_run
  emulate_app-Cuts nodes later pod c more ks l h refusal w =
      let name = ks.default_scheduler_name in
      let asked = record ks {
        simulated_pod = some t;
        max_simulated = pos m;
        simulated = pos 0;
        stop = opened;
        informer_stop_ch = opened;
        scheduler_ch = opened;
      } in
      let (s, ran, refused) =
        scheduler_pod-Refused p laws m t nodes later pod c more asked
          (record {
            template = refl;
            limit = refl;
            count = refl;
            bounded = h;
            waiting = refl;
            channels = inr (refl, refl);
          })
          l w.no_pods w.calls refusal w.unused in
      let reason : c.reason ≡ "Unschedulable" =
        (eq_iff c.reason "Unschedulable").0 refusal.stops.2 in
      let (r, s', reported, cut, rest) =
        report-Cut ks.next_uuid (drawn p (ks.next_uuid + 2) nodes) name nodes later c more s l h
          reason refused in
      (
        r,
        s',
        ap
              (λ o.
                then_do (rewrap "Unable to create next pod to schedule" o)
                  (λ _. report_run p laws t))
              ran
            ∙ reported,
        cut,
        rest,
      )

  -- The emulation of an app for `m` replicas, for which the scheduler first binds fewer pods, each as
  -- soon as it is created, and then refuses a pod of kubesim by an update with one condition, ends
  -- without an error; the report says "Unschedulable" with the first line of the scheduler's message,
  -- without the spaces at its ends, counts the bound pods, and gives every node as many as were bound
  -- to it; those calls are used up, and nothing is placed for the next app.
  pub emulate_app-Cut :
      (nodes : List String) (later : List (Pod p.Quantity)) (pod : Pod p.Quantity)
      (c : PodCondition) (more : List (Callback p.Quantity)) (ks : Kubesim p) (name : String)
      (i : ℕ)
      → length nodes < m
      → m < 2147483648
      → ks.default_scheduler_name ≡ name
      → Refusal name pod c
      → Ready p i
          (made_and_one name i nodes later)
          (bindings p name t i nodes ++ updates pod ∷ more)
          ks
      → (r : Review p.Quantity) × (s : Kubesim p) × (emulate_app p (some t) (pos m) ks ≡ done r s)
        × Cut t m nodes c r
        × Ready p (drawn p (i + 2) nodes) later more s
  unfolding Cuts
  emulate_app-Cut nodes later pod c more ks name i l h e refusal w =
      subst (λ n. Cuts nodes later pod c more ks n i) e
        (subst (Cuts nodes later pod c more ks ks.default_scheduler_name) w.next
          (emulate_app-Cuts nodes later pod c more ks l h))
        refusal w
