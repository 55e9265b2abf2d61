-- ===== src/Simulator/Emulators/Frames.antt =====
-- What the emulation of apps leaves alone: the results of jobs and the queue.
use kubesim.Prelude.{
  ◌≡◌, refl, subst, Bool, true, false, List, [], ◌∷◌, ◌++◌, String, arith, Option-cases, inl, inr,
  if◌then◌else◌,
}
use kubesim.Prelude.Int.{pos}
use kubesim.Prelude.Text.{Error}
use kubesim.Prelude.Exec.{Outcome, done, fails, panics, blocks, Exec, rewrap, pure, modify}
use kubesim.Platform.{Platform}
use kubesim.Report.{Review, get_report}
use kubesim.Utils.{PodRequest}
use kubesim.Simulator.{Kubesim, Callback, opened}
use kubesim.Simulator.Pods.{
  report, clean_status_pods, update_pod_request, close, close_stop, next_pod, wait_stop, callback,
  scheduler_pod, stop_on_error,
}
use kubesim.Simulator.Runs.Frame.{
  Framed, KeepsFrame, then_do-KeepsFrame, close-KeepsFrame, callback-KeepsFrame,
}
use kubesim.Simulator.Emulators.{emulate_app, emulate_apps}

module _ (p : Platform) (base : Kubesim p) where
  next_pod-KeepsFrame : (s : Kubesim p) → Framed p base s → KeepsFrame p base (next_pod p s)
  unfolding next_pod
  next_pod-KeepsFrame s k = ground arith

  close_stop-KeepsFrame : (s : Kubesim p) → Framed p base s → KeepsFrame p base (close_stop p s)
  unfolding close_stop
  close_stop-KeepsFrame s k = ground arith

  rewrap-KeepsFrame :
      {A : Type 0} (text : String) (o : Outcome (Kubesim p) A)
      → KeepsFrame p base o
      → KeepsFrame p base (rewrap text o)
  rewrap-KeepsFrame text (done a s) k = k
  rewrap-KeepsFrame text (fails e s) k = k
  rewrap-KeepsFrame text panics k = tt
  rewrap-KeepsFrame text blocks k = tt

  report-KeepsFrame : (s : Kubesim p) → Framed p base s → KeepsFrame p base (report p s)
  unfolding report
  report-KeepsFrame s k = elim (Option-cases s.simulated_pod) [
    | inl missing ↦ rw (missing, report) tt
    | inr (pod, e) ↦
        rw (e, report)
          (elim (Option-cases (get_report p (pod ∷ []) s.status s.max_simulated)) [
            | inl crashed ↦ rw crashed tt
            | inr (r, made) ↦ rw made k
          ])
  ]

  told-KeepsFrame :
      (cs : List (Callback p.Quantity)) (rest : Exec (Kubesim p) Unit)
      → ((s : Kubesim p) → Framed p base s → KeepsFrame p base (rest s))
      → (told : Bool) (s : Kubesim p) → Framed p base s
      → KeepsFrame p base ((if told then modify (λ s. record s { callbacks = cs }) else rest) s)
  told-KeepsFrame cs rest h true s k = k
  told-KeepsFrame cs rest h false s k = h s k

  wait_stop-KeepsFrame :
      (cs : List (Callback p.Quantity)) (s : Kubesim p)
      → Framed p base s
      → KeepsFrame p base (wait_stop p cs s)
  unfolding wait_stop
  wait_stop-KeepsFrame [] s k = tt
  wait_stop-KeepsFrame (c ∷ cs) s k =
      then_do-KeepsFrame p base (callback p c s) _ (callback-KeepsFrame p base c s k)
        (told-KeepsFrame cs (wait_stop p cs) (wait_stop-KeepsFrame cs))

  stop_on_error-KeepsFrame :
      (o : Outcome (Kubesim p) Unit) → KeepsFrame p base o → KeepsFrame p base (stop_on_error p o)
  stop_on_error-KeepsFrame (done u s) k = k
  stop_on_error-KeepsFrame (fails e s) k =
      then_do-KeepsFrame p base (close p s) _ (close-KeepsFrame p base s k) (λ u t kt.
        then_do-KeepsFrame p base (close_stop p t) _ (close_stop-KeepsFrame t kt) (λ v t' kt'. kt'))
  stop_on_error-KeepsFrame panics k = tt
  stop_on_error-KeepsFrame blocks k = tt

  scheduler_pod-KeepsFrame :
      (s : Kubesim p) → Framed p base s → KeepsFrame p base (scheduler_pod p s)
  unfolding scheduler_pod
  scheduler_pod-KeepsFrame s k =
      then_do-KeepsFrame p base (stop_on_error p (next_pod p s)) _
        (stop_on_error-KeepsFrame (next_pod p s) (next_pod-KeepsFrame s k))
        (λ u t kt.
          then_do-KeepsFrame p base (wait_stop p t.callbacks t) _
            (wait_stop-KeepsFrame t.callbacks t kt) (λ v. close_stop-KeepsFrame))

  abbrev asked : PodRequest p.Quantity → Kubesim p → Kubesim p
  asked app s = record s {
    simulated_pod = app.pod;
    max_simulated = app.replicas;
    simulated = pos 0;
    stop = opened;
    informer_stop_ch = opened;
    scheduler_ch = opened;
  }

  pub emulate_app-KeepsFrame :
      (app : PodRequest p.Quantity) (s : Kubesim p)
      → Framed p base s
      → KeepsFrame p base (emulate_app p app.pod app.replicas s)
  unfolding emulate_app update_pod_request clean_status_pods
  emulate_app-KeepsFrame app s k =
      then_do-KeepsFrame p base
        (rewrap "Unable to create next pod to schedule" (scheduler_pod p (asked app s))) _
        (rewrap-KeepsFrame "Unable to create next pod to schedule" (scheduler_pod p (asked app s))
          (scheduler_pod-KeepsFrame (asked app s) k))
        (λ u t kt.
          then_do-KeepsFrame p base (report p t) _ (report-KeepsFrame t kt) (λ r t' kt'. kt'))

  emulate_apps-KeepsFrame :
      (apps : List (PodRequest p.Quantity)) (reports : List (Review p.Quantity)) (s : Kubesim p)
      → Framed p base s
      → KeepsFrame p base (emulate_apps p pure apps reports s)
  unfolding emulate_apps
  emulate_apps-KeepsFrame [] reports s k = k
  emulate_apps-KeepsFrame (app ∷ apps) reports s k =
      then_do-KeepsFrame p base (emulate_app p app.pod app.replicas s) _
        (emulate_app-KeepsFrame app s k) (λ r. emulate_apps-KeepsFrame apps (reports ++ r ∷ []))

-- Emulating apps one after the other leaves the results and the queue alone, an error included.
pub emulate_apps-Frame :
    (p : Platform) (apps : List (PodRequest p.Quantity)) (ks s : Kubesim p) (why : Error)
    → emulate_apps p pure apps [] ks ≡ fails why s
    → (s.emulator_result ≡ ks.emulator_result) × (s.fifo_queue ≡ ks.fifo_queue)
emulate_apps-Frame p apps ks s why e =
    let kept =
      subst (KeepsFrame p ks) e (emulate_apps-KeepsFrame p ks apps [] ks (refl, refl, refl)) in
    (kept.1, kept.2)
