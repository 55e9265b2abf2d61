-- ===== src/Simulator/Emulators/Passes.antt =====
-- The reports of an emulation of several apps, and of the two passes of `VerticalEmulator`.
use kubesim.Prelude.{
  ℕ, suc, ◌≡◌, refl, true, false, Option, none, List, [], ◌∷◌, ◌++◌, String, arith, length, str_eq,
  ap, ◌∙◌, sym,
}
use mathlib.Core.List.{append_assoc, append-nil}
use kubesim.Prelude.Exec.{Outcome, done, Exec, Returns, then_do-Returns, forget}
use kubesim.Platform.{Platform, Pod}
use kubesim.Report.{Review}
use kubesim.Utils.{AppGroup, PodRequest}
use kubesim.Simulator.{Kubesim}
use kubesim.Simulator.Pods.{clean_status_pods}
use kubesim.Simulator.Emulators.{
  reports_status, emulate_app, emulate_apps, clean_pod, second_pass, unpinned,
}

module _ (p : Platform)
    (template : Option (Pod p.Quantity) → Exec (Kubesim p) (Option (Pod p.Quantity))) where
  -- The reports so far, and one more for each app, in the order of the apps.
  abbrev pub Extends :
      List (PodRequest p.Quantity)
      → List (Review p.Quantity)
      → List (Review p.Quantity)
      → Kubesim p
      → Type 0
  Extends apps acc rs s =
      (more : List (Review p.Quantity)) × (rs ≡ acc ++ more) × (length more ≡ length apps)

  pub emulate_apps-Extends :
      (apps : List (PodRequest p.Quantity)) (acc : List (Review p.Quantity)) (ks : Kubesim p)
      → Returns (Extends apps acc) (emulate_apps p template apps acc ks)
  unfolding emulate_apps
  emulate_apps-Extends [] acc ks = ([], sym (append-nil acc), refl)
  emulate_apps-Extends (app ∷ apps) acc ks =
      then_do-Returns (Extends (app ∷ apps) acc) (template app.pod ks) _ λ pod s.
        then_do-Returns (Extends (app ∷ apps) acc) (emulate_app p pod app.replicas s) _ λ r s'.
          weaken r (emulate_apps p template apps (acc ++ r ∷ []) s')
            (emulate_apps-Extends apps (acc ++ r ∷ []) s')
    where
      weaken :
          (r : Review p.Quantity) (o : Outcome (Kubesim p) (List (Review p.Quantity)))
          → Returns (Extends apps (acc ++ r ∷ [])) o
          → Returns (Extends (app ∷ apps) acc) o
      weaken r (done rs s) (more, e, l) = (r ∷ more, e ∙ append_assoc acc (r ∷ []) more, ap suc l)
      weaken r _ h = h

module _ {Q : Type 0} where
  reports_status-append :
      (status : String) (xs ys : List (Review Q))
      → str_eq (reports_status status xs) "failed" ≡ true
      → str_eq status "failed" ≡ false
      → reports_status status (xs ++ ys) ≡ "failed"
  unfolding reports_status
  reports_status-append status [] ys h k = cc
  reports_status-append status (x ∷ xs) ys h k =
      ground (arith, reports_status-append "succeed" xs ys)

module _ (p : Platform) (fuel : ℕ) (group : AppGroup p.Quantity)
    (first : List (Review p.Quantity)) where
  -- Reports of both passes, with the status that they give.
  abbrev pub Spoiled : List (Review p.Quantity) → Kubesim p → Type 0
  Spoiled reports s =
      ((more : List (Review p.Quantity)) × (reports ≡ first ++ more)
        × (length more ≡ length group.apps))
      × (reports_status "" reports ≡ "failed")

  spoil :
      str_eq (reports_status "" first) "failed" ≡ true
      → (o : Outcome (Kubesim p) (List (Review p.Quantity)))
      → Returns (Extends p (unpinned p fuel) group.apps first) o
      → Returns Spoiled o
  spoil h (done rs s) (more, e, l) =
      ((more, e, l), ap (reports_status "") e ∙ reports_status-append "" first more h refl)
  spoil h _ r = r

  -- Where the first pass of a vertical emulation fails, the second pass cannot mend the job: its
  -- reports, one for each app, follow those of the first pass, and the status of all of them is
  -- "failed" whatever the second pass reports.
  pub second_pass-Spoiled :
      (ks : Kubesim p)
      → reports_status "" first ≡ "failed"
      → Returns Spoiled (second_pass p fuel group first ks)
  unfolding second_pass clean_status_pods
  second_pass-Spoiled ks h =
      rw (failed, second_pass)
        (then_do-Returns Spoiled (forget (clean_pod p fuel ks)) _ λ _ s. spoil failed _ (
          emulate_apps-Extends p (unpinned p fuel) group.apps first
            (record s { status = record (s.status) { pods = [] }; report = none })))
    where
      failed : str_eq (reports_status "" first) "failed" ≡ true
      failed = rw h refl
