-- ===== src/Simulator/Emulators/Endings.antt =====
-- When the emulation of an app ends.
use kubesim.Prelude.{
  ℕ, ◌<◌, ◌≡◌, refl, some, [], ◌∷◌, String, arith, subst, sym, inr, Option-cases, inl,
}
use kubesim.Prelude.Int.{pos}
use kubesim.Prelude.Text.{Error}
use kubesim.Prelude.Exec.{Outcome, done, fails, panics, blocks, Exec, then_do, rewrap}
use kubesim.Platform.{Platform, Pod}
use kubesim.Report.{get_report}
use kubesim.Simulator.{Kubesim, opened}
use kubesim.Simulator.Pods.{
  report, clean_status_pods, update_pod_request, close, close_stop, next_pod, wait_stop,
  scheduler_pod, stop_on_error,
}
use kubesim.Simulator.Runs.{Running, Ready, Started, next_pod-Started}
use kubesim.Simulator.Runs.Frame.{Framed}
use kubesim.Simulator.Runs.Ending.{Ends, GivesUp, wait_stop-Ends}
use kubesim.Simulator.Emulators.{emulate_app}

module _ (p : Platform) where
  close_stop-Ends : (s : Kubesim p) → Ends (close_stop p s)
  unfolding close_stop
  close_stop-Ends s = ground arith

  then_do-Ends :
      {A B : Type 0} (o : Outcome (Kubesim p) A) (f : A → Exec (Kubesim p) B)
      → Ends o
      → ((a : A) (s : Kubesim p) → Ends (f a s))
      → Ends (then_do o f)
  then_do-Ends (done a s) f k h = h a s
  then_do-Ends (fails e s) f k h = tt
  then_do-Ends panics f k h = tt
  then_do-Ends blocks f k h = absurd k

  rewrap-Ends :
      {A : Type 0} (text : String) (o : Outcome (Kubesim p) A) → Ends o → Ends (rewrap text o)
  rewrap-Ends text (done a s) k = tt
  rewrap-Ends text (fails e s) k = tt
  rewrap-Ends text panics k = tt
  rewrap-Ends text blocks k = k

  report-Ends : (s : Kubesim p) → Ends (report p s)
  unfolding report
  report-Ends s = elim (Option-cases s.simulated_pod) [
    | inl missing ↦ rw (missing, report) tt
    | inr (pod, e) ↦
        rw (e, report)
          (elim (Option-cases (get_report p (pod ∷ []) s.status s.max_simulated)) [
            | inl crashed ↦ rw crashed tt
            | inr (r, made) ↦ rw made tt
          ])
  ]

  -- The state behind the first pod has the calls and the frame of the one before.
  abbrev Carries : Kubesim p → Outcome (Kubesim p) Unit → Type 0
  Carries ks (done u s) = (s.callbacks ≡ ks.callbacks) × Framed p ks s
  Carries ks _ = Unit

  next_pod-Carries : (ks : Kubesim p) → Carries ks (next_pod p ks)
  unfolding next_pod
  next_pod-Carries ks = ground arith

  module _ (m : ℕ) where
    refused-Ends :
        (e : Error) (s : Kubesim p) (rest : Exec (Kubesim p) Unit)
        → Running p m s
        → Ends (then_do (stop_on_error p (fails e s)) (λ _. rest))
    unfolding close close_stop
    refused-Ends e s rest v = ground arith

    start-Ends :
        (ks : Kubesim p) (o : Outcome (Kubesim p) Unit)
        → Started p m o
        → Carries ks o
        → GivesUp ks.default_scheduler_name ks.callbacks
        → Ends (
            then_do
              (stop_on_error p o)
              (λ _ s. then_do (wait_stop p s.callbacks s) (λ _. close_stop p)))
    start-Ends ks (done u s) w (calls, frame) g =
        then_do-Ends (wait_stop p s.callbacks s) (λ _. close_stop p)
          (wait_stop-Ends p m ks s.callbacks s w frame
            (subst (GivesUp ks.default_scheduler_name) (sym calls) g))
          λ u s. close_stop-Ends s
    start-Ends ks (fails e s) w k g =
        refused-Ends e s (λ s. then_do (wait_stop p s.callbacks s) (λ _. close_stop p)) w
    start-Ends ks panics w k g = absurd w
    start-Ends ks blocks w k g = absurd w

    scheduler_pod-Ends :
        (ks : Kubesim p)
        → Ready p m ks
        → GivesUp ks.default_scheduler_name ks.callbacks
        → Ends (scheduler_pod p ks)
    unfolding scheduler_pod
    scheduler_pod-Ends ks v g =
        start-Ends ks (next_pod p ks) (next_pod-Started p m ks v) (next_pod-Carries ks) g

    -- The emulation of an app for at least one replica, from a state that holds no placed pods, does
    -- not wait for good, if the scheduler will answer for some pod of kubesim that it is
    -- unschedulable.
    pub emulate_app-Ends :
        (pod : Pod p.Quantity) (ks : Kubesim p)
        → 0 < m
        → m < 2147483648
        → ks.status.pods ≡ []
        → GivesUp ks.default_scheduler_name ks.callbacks
        → Ends (emulate_app p (some pod) (pos m) ks)
    unfolding emulate_app update_pod_request clean_status_pods
    emulate_app-Ends pod ks h k e g =
        then_do-Ends (rewrap "Unable to create next pod to schedule" (scheduler_pod p asked)) _
          (rewrap-Ends "Unable to create next pod to schedule" (scheduler_pod p asked)
            (scheduler_pod-Ends asked ready g))
          λ u s. then_do-Ends (report p s) _ (report-Ends s) λ r s'. tt
      where
        asked : Kubesim p
        asked = record ks {
          simulated_pod = some pod;
          max_simulated = pos m;
          simulated = pos 0;
          stop = opened;
          informer_stop_ch = opened;
          scheduler_ch = opened;
        }

        ready : Ready p m asked
        ready = record {
          template = (pod, refl);
          limit = refl;
          count = refl;
          positive = h;
          bounded = k;
          no_pods = e;
          waiting = refl;
          channels = inr (refl, refl);
        }
