-- ===== src/Jobs/Answers.antt =====
-- What the scheduler answers to the apps of a job, and the reports that they get by that.
use mathlib.Core.List.{append_assoc, append-nil}
use kubesim.Prelude.{
  ℕ, ◌+◌, ◌<◌, ◌≡◌, refl, some, List, [], ◌∷◌, ◌++◌, String, ap, ◌∙◌, sym, subst, true, false,
  length,
}
use kubesim.Prelude.Int.{pos}
use kubesim.Prelude.Exec.{done, pure, then_do}
use kubesim.Platform.{Platform, Pod, PodCondition}
use kubesim.Report.{Review}
use kubesim.Utils.{PodRequest}
use kubesim.Simulator.{Kubesim, Callback, updates}
use kubesim.Simulator.Pods.{simulated_pod_of}
use kubesim.Simulator.Runs.Frame.{Framed, KeepsFrame}
use kubesim.Simulator.Runs.Steps.{PlacingLaws, made, bindings, drawn}
use kubesim.Simulator.Emulators.{emulate_app, emulate_apps, reports_status, is_unschedulable}
use kubesim.Simulator.Emulators.Frames.{emulate_app-KeepsFrame}
use kubesim.Simulator.Emulators.Placing.{Spread, Ready, emulate_app-Spread}
use kubesim.Simulator.Runs.Halting.{Refusal}
use kubesim.Simulator.Emulators.Refusing.{Cut, emulate_app-Cut}

-- What the scheduler does with the pods of an app: it binds each to a node as soon as it is created, or
-- it so binds some and refuses the next, by an update with one condition, where `replicas` were
-- asked for.
pub data Answer (Q : Type 0) : Type 0 where
  binds_all : Pod Q → List String → Answer Q
  cuts : Pod Q → ℕ → List String → Pod Q → PodCondition → Answer Q

module _ {Q : Type 0} where
  -- What the reports of the apps should say: that all replicas are placed and where, or which are, and
  -- the scheduler's message.
  abbrev pub Decided : Answer Q → Review Q → Type 0
  Decided (binds_all t nodes) r = Spread t nodes r
  Decided (cuts t replicas nodes pod c) r = Cut t replicas nodes c r

  abbrev pub AllDecided : List (Answer Q) → List (Review Q) → Type 0
  AllDecided [] [] = Unit
  AllDecided [] (r ∷ rs) = ⊥
  AllDecided (a ∷ answers) [] = ⊥
  AllDecided (a ∷ answers) (r ∷ rs) = Decided a r × AllDecided answers rs

  -- The status of the job: "failed" if a pod of some app is refused.
  abbrev pub verdict : String → List (Answer Q) → String
  verdict status [] = status
  verdict status (binds_all t nodes ∷ answers) = verdict "succeed" answers
  verdict status (cuts t replicas nodes pod c ∷ answers) = "failed"

  Spread-Schedulable :
      (t : Pod Q) (nodes : List String) (r : Review Q)
      → Spread t nodes r
      → is_unschedulable r ≡ false
  unfolding is_unschedulable
  Spread-Schedulable t nodes r w = rw w.2 refl

  Cut-Unschedulable :
      (t : Pod Q) (m : ℕ) (nodes : List String) (c : PodCondition) (r : Review Q)
      → Cut t m nodes c r
      → is_unschedulable r ≡ true
  unfolding is_unschedulable
  Cut-Unschedulable t m nodes c r w = rw w.2 refl

  pub reports_status-verdict :
      (status : String) (answers : List (Answer Q)) (rs : List (Review Q))
      → AllDecided answers rs
      → reports_status status rs ≡ verdict status answers
  unfolding reports_status
  reports_status-verdict status [] [] w = refl
  reports_status-verdict status [] (r ∷ rs) w = absurd w
  reports_status-verdict status (a ∷ answers) [] w = absurd w
  reports_status-verdict status (binds_all t nodes ∷ answers) (r ∷ rs) w =
      rw (Spread-Schedulable t nodes r w.0, reports_status)
        (reports_status-verdict "succeed" answers rs w.1)
  reports_status-verdict status (cuts t m nodes pod c ∷ answers) (r ∷ rs) w =
      rw (Cut-Unschedulable t m nodes c r w.0, reports_status) refl

module _ (p : Platform) (name : String) where
  -- The app is the one that the scheduler answers, for one replica or more.
  abbrev pub AsksFor : PodRequest p.Quantity → Answer p.Quantity → Type 0
  AsksFor app (binds_all t nodes) =
      (app.pod ≡ some t)
      × (app.replicas ≡ pos (length nodes))
      × (0 < length nodes)
      × (length nodes < 2147483648)
  AsksFor app (cuts t replicas nodes pod c) =
      (app.pod ≡ some t)
      × (app.replicas ≡ pos replicas)
      × (length nodes < replicas)
      × (replicas < 2147483648)
      × Refusal name pod c

  abbrev pub Asks : List (PodRequest p.Quantity) → List (Answer p.Quantity) → Type 0
  Asks [] [] = Unit
  Asks [] (a ∷ answers) = ⊥
  Asks (app ∷ apps) [] = ⊥
  Asks (app ∷ apps) (a ∷ answers) = AsksFor app a × Asks apps answers

  -- The UUIDs that are left after an app.
  abbrev pub drawn_by : ℕ → Answer p.Quantity → ℕ
  drawn_by i (binds_all t nodes) = drawn p i nodes
  drawn_by i (cuts t replicas nodes pod c) = drawn p (i + 2) nodes

  abbrev pub made_by : ℕ → Answer p.Quantity → List (Pod p.Quantity)
  made_by i (binds_all t nodes) = made p name t i nodes
  made_by i (cuts t replicas nodes pod c) =
      simulated_pod_of p name i t ∷ made p name t (i + 2) nodes

  -- The pods of all the apps, and the calls that answer them, before the other calls.
  abbrev pub all_made : ℕ → List (Answer p.Quantity) → List (Pod p.Quantity)
  all_made i [] = []
  all_made i (a ∷ answers) = made_by i a ++ all_made (drawn_by i a) answers

  abbrev pub all_calls :
      ℕ → List (Answer p.Quantity) → List (Callback p.Quantity) → List (Callback p.Quantity)
  all_calls i [] more = more
  all_calls i (binds_all t nodes ∷ answers) more =
      bindings p name t i nodes ++ all_calls (drawn p i nodes) answers more
  all_calls i (cuts t replicas nodes pod c ∷ answers) more =
      bindings p name t i nodes ++ updates pod ∷ all_calls (drawn p (i + 2) nodes) answers more

  module _ (laws : PlacingLaws p) where
    emulate_app-Decided :
        (app : PodRequest p.Quantity) (a : Answer p.Quantity) (answers : List (Answer p.Quantity))
        (more : List (Callback p.Quantity)) (ks : Kubesim p) (i : ℕ)
        → AsksFor app a
        → ks.default_scheduler_name ≡ name
        → Ready p i (all_made i (a ∷ answers)) (all_calls i (a ∷ answers) more) ks
        → (r : Review p.Quantity) × (s : Kubesim p) × (emulate_app p app.pod app.replicas ks
            ≡ done r s)
          × Decided a r
          × Ready p
              (drawn_by i a)
              (all_made (drawn_by i a) answers)
              (all_calls (drawn_by i a) answers more)
              s
    emulate_app-Decided app (binds_all t nodes) answers more ks i a n w =
        let j = drawn p i nodes in
        let (r, s, ran, spread, ready) =
          emulate_app-Spread p laws t nodes (all_made j answers) (all_calls j answers more) ks name
            i a.2 a.3 n w in
        (
          r,
          s,
          ap (λ x. emulate_app p x app.replicas ks) a.0
              ∙ ap (λ x. emulate_app p (some t) x ks) a.1
              ∙ ran,
          spread,
          ready,
        )
    emulate_app-Decided app (cuts t m nodes pod c) answers more ks i a n w =
        let j = drawn p (i + 2) nodes in
        let (r, s, ran, cut, ready) =
          emulate_app-Cut p laws t m nodes (all_made j answers) pod c (all_calls j answers more) ks
            name i a.2 a.3 n a.4 w in
        (
          r,
          s,
          ap (λ x. emulate_app p x app.replicas ks) a.0
              ∙ ap (λ x. emulate_app p (some t) x ks) a.1
              ∙ ran,
          cut,
          ready,
        )

    pub emulate_apps-Decided :
        (apps : List (PodRequest p.Quantity)) (answers : List (Answer p.Quantity))
        (more : List (Callback p.Quantity)) (acc : List (Review p.Quantity)) (base ks : Kubesim p)
        (i : ℕ)
        → Asks apps answers
        → base.default_scheduler_name ≡ name
        → Framed p base ks
        → Ready p i (all_made i answers) (all_calls i answers more) ks
        → (rs : List (Review p.Quantity)) × (s : Kubesim p) × (emulate_apps p pure apps acc ks
            ≡ done (acc ++ rs) s)
          × AllDecided answers rs
          × (s.callbacks ≡ more)
          × Framed p base s
    unfolding emulate_apps
    emulate_apps-Decided [] [] more acc base ks i a n f w =
        ([], ks, ap (λ rs. done rs ks) (sym (append-nil acc)), tt, w.calls, f)
    emulate_apps-Decided [] (x ∷ answers) more acc base ks i a n f w = absurd a
    emulate_apps-Decided (app ∷ apps) [] more acc base ks i a n f w = absurd a
    emulate_apps-Decided (app ∷ apps) (x ∷ answers) more acc base ks i a n f w =
        let (r, s, ran, decided, ready) =
          emulate_app-Decided app x answers more ks i a.0 (f.0 ∙ n) w in
        let kept = subst (KeepsFrame p base) ran (emulate_app-KeepsFrame p base app ks f) in
        let (rs, s', rest, all, calls, frame) =
          emulate_apps-Decided apps answers more (acc ++ r ∷ []) base s (drawn_by i x) a.1 n kept
            ready in
        (
          r ∷ rs,
          s',
          ap (λ o. then_do o (λ r. emulate_apps p pure apps (acc ++ r ∷ []))) ran
              ∙ rest
              ∙ ap (λ rs. done rs s') (append_assoc acc (r ∷ []) rs),
          (decided, all),
          calls,
          frame,
        )
