-- ===== src/Simulator/Emulators.antt =====
-- pkg/scheduler/simulator.go: the emulators that the job loop runs. `fuel` bounds the rounds of
-- `CleanPod`, which lists and deletes until nothing is listed; a loop out of fuel blocks.
pub mod Outcomes
pub mod Endings
pub mod Frames
pub mod Placing
pub mod Refusing
pub mod Cleaning
pub mod Passes
use kubesim.Prelude.{
  ℕ, zero, suc, ◌+◌, Bool, true, false, Option, none, some, List, [], ◌∷◌, ◌++◌, String, str_eq,
  if◌then◌else◌, map,
}
use kubesim.Prelude.Int.{ℤ, pos, inc32, sub32}
use kubesim.Prelude.Map.{Map, insert}
use kubesim.Prelude.Text.{Text, codes, Error, client, message, wrapped}
use kubesim.Prelude.Exec.{
  Outcome, done, fails, panics, blocks, Exec, ◌>>=◌, ◌>>◌, pure, raise, gets, crash, wrap, ignore,
  forget, modify,
}
use kubesim.Platform.{Platform, Pod, Resource}
use kubesim.Report.{Review, FailReason, len32}
use kubesim.Utils.{AppGroup, PodRequest, PodsConfig, PodsInfo, text_eq}
use kubesim.Simulator.{Kubesim, SchedulerPrediction}
use kubesim.Simulator.Pods.{change, report, clean_status_pods, update_pod_request, scheduler_pod}

-- `report.Status.Reason.Type == "Unschedulable"`
unfoldable pub is_unschedulable : {Q : Type 0} → Review Q → Bool
is_unschedulable r = text_eq r.status.reason.kind (codes "Unschedulable")

-- The loop that derives a job's status from its reports; without a report it stays empty.
unfoldable pub reports_status : {Q : Type 0} → String → List (Review Q) → String
reports_status status [] = status
reports_status status (r ∷ rs) =
    let rest = reports_status "succeed" rs in if is_unschedulable r then "failed" else rest

abbrev add_report : {Q : Type 0} → Review Q → Option (List (Review Q)) → List (Review Q)
add_report r none = r ∷ []
add_report r (some rs) = rs ++ r ∷ []

abbrev name_of : {Q : Type 0} → Option (Pod Q) → String
name_of none = ""
name_of (some pod) = pod.name

module _ (p : Platform) where
  open p use {Quantity, Cluster, pods}

  unfoldable pub delete_pods : List (Pod Quantity) → Exec (Kubesim p) Unit
  unfolding change
  delete_pods [] = pure tt
  delete_pods (pod ∷ rest) = do
    wrap "unable to delete pod" (change p (pods.delete pod.namespace pod.name))
    delete_pods rest

  -- One round of `CleanPod` on the pods that were listed; a failed list is a nil pointer.
  abbrev clean_round : Exec (Kubesim p) Unit → Option (List (Pod Quantity)) → Exec (Kubesim p) Unit
  clean_round again none = crash
  clean_round again (some []) = pure tt
  clean_round again (some (pod ∷ rest)) = do delete_pods (pod ∷ rest); again

  -- `CleanPod`
  unfoldable pub clean_pod : ℕ → Exec (Kubesim p) Unit
  unfolding delete_pods
  clean_pod zero ks = blocks
  clean_pod (suc fuel) ks =
      let again = clean_pod fuel in
      clean_round again (pods.list "" "provisioner=kubesim" ks.cluster) ks

  -- `DeleteAppsPod`
  unfoldable pub delete_apps_pod : String → String → Exec (Kubesim p) Unit
  unfolding change
  delete_apps_pod namespace name = wrap "unable delete pod " (change p (pods.delete namespace name))

  -- `CreateAppsPod`
  unfoldable pub create_apps_pod : Pod Quantity → Exec (Kubesim p) Unit
  unfolding change
  create_apps_pod pod = wrap "unable create pod " (change p (pods.create pod.namespace pod))

  -- `GetAppsPod`: the pods that are found; the old and the new ones are equal copies.
  unfoldable pub get_apps_pod : List PodsInfo → Cluster → List (Pod Quantity)
  get_apps_pod [] c = []
  get_apps_pod (info ∷ rest) c = elim (pods.get info.namespace info.name c) [
    | none ↦ get_apps_pod rest c
    | some pod ↦ pod ∷ get_apps_pod rest c
  ]

  -- `GetAppPod`
  unfoldable pub get_app_pod : String → String → Exec (Kubesim p) (List (Pod Quantity))
  get_app_pod namespace label ks = elim (pods.list namespace label ks.cluster) [
    | none ↦ fails (wrapped "unable create app" client) ks
    | some found ↦ done found ks
  ]

  -- One app: request, emulation, report.
  unfoldable pub emulate_app : Option (Pod Quantity) → ℤ → Exec (Kubesim p) (Review Quantity)
  unfolding update_pod_request scheduler_pod report clean_status_pods
  emulate_app pod replicas = do
    update_pod_request p pod replicas
    wrap "Unable to create next pod to schedule" (scheduler_pod p)
    r ← report p
    clean_status_pods p
    pure r

  -- The loop over the apps; `template` is what becomes of an app's pod.
  unfoldable pub emulate_apps :
      (Option (Pod Quantity) → Exec (Kubesim p) (Option (Pod Quantity)))
      → List (PodRequest Quantity)
      → List (Review Quantity)
      → Exec (Kubesim p) (List (Review Quantity))
  unfolding emulate_app
  emulate_apps template [] reports = pure reports
  emulate_apps template (app ∷ apps) reports = do
    pod ← template app.pod
    r ← emulate_app pod app.replicas
    emulate_apps template apps (reports ++ r ∷ [])

  -- `ks.emulatorResult[key] = &reportList`
  unfoldable pub save_result : String → Option (List (Review Quantity)) → Exec (Kubesim p) Unit
  save_result key reports ks =
      done tt (record ks { emulator_result = insert key reports ks.emulator_result })

  abbrev each : {A : Type 0} → (A → Exec (Kubesim p) Unit) → List A → Exec (Kubesim p) Unit
  each f [] = pure tt
  each f (a ∷ as') = do f a; each f as'

  module _ (fuel : ℕ) where
    -- `appsEmulator`
    unfoldable pub apps_emulator :
        AppGroup Quantity → String → Exec (Kubesim p) (List (Review Quantity))
    unfolding clean_pod emulate_apps save_result clean_status_pods
    apps_emulator group key = do
      reports ← emulate_apps pure group.apps []
      ignore (clean_pod fuel)
      clean_status_pods p
      save_result key (some reports)
      pure reports

    -- `HorizontalEmulator`
    unfoldable pub horizontal_emulator :
        AppGroup Quantity → String → Exec (Kubesim p) (List (Review Quantity))
    unfolding clean_pod emulate_apps save_result clean_status_pods
    horizontal_emulator group key = do
      reports ← emulate_apps pure group.apps []
      ignore (clean_pod fuel)
      clean_status_pods p
      save_result key (some reports)
      pure reports

    -- The template that `appsPodEmulator` makes of a found pod, as a request for one replica.
    abbrev moved_pod : Pod Quantity → PodRequest Quantity
    moved_pod pod = record {
      pod = some (record pod { uid = ""; phase = ""; nominated_node_name = ""; conditions = [] });
      replicas = pos 1;
      kind = "";
    }

    abbrev config_pods : Option PodsConfig → Exec (Kubesim p) (List PodsInfo)
    config_pods none = crash
    config_pods (some config) = pure config.pods

    -- `appsPodEmulator`
    unfoldable pub apps_pod_emulator :
        AppGroup Quantity → String → Exec (Kubesim p) (List (Review Quantity))
    unfolding clean_pod emulate_apps save_result clean_status_pods get_apps_pod delete_apps_pod
        create_apps_pod
    apps_pod_emulator group key = do
      infos ← config_pods group.pods_config
      old_pods ← gets (λ ks. get_apps_pod infos ks.cluster)
      wrap "unable create pod " (each (λ pod. delete_apps_pod pod.namespace pod.name) old_pods)
      reports ← emulate_apps pure (map moved_pod old_pods) []
      ignore (clean_pod fuel)
      clean_status_pods p
      wrap "unable create pod " (each create_apps_pod old_pods)
      save_result key (some reports)
      pure reports

    -- The error of `VerticalEmulator` for a pod that could not be deleted or created.
    abbrev replaced : {A : Type 0} → String → Outcome (Kubesim p) A → Outcome (Kubesim p) A
    replaced m (fails e s) = fails (message m) s
    replaced m (done a s) = done a s
    replaced m panics = panics
    replaced m blocks = blocks

    abbrev replace : {A : Type 0} → String → Exec (Kubesim p) A → Exec (Kubesim p) A
    replace m x s = replaced m (x s)

    -- The template of the second pass: no node and no node selector.
    abbrev unpinned : Option (Pod Quantity) → Exec (Kubesim p) (Option (Pod Quantity))
    unpinned none = crash
    unpinned (some pod) = pure (some (record pod { node_name = ""; node_selector = some [] }))

    -- The part of `VerticalEmulator` from "recreate apps": a failed first pass is repeated without
    -- node selectors. `reportlist` is not emptied, so the reports of both passes are kept.
    unfoldable pub second_pass :
        AppGroup Quantity → List (Review Quantity) → Exec (Kubesim p) (List (Review Quantity))
    unfolding clean_pod emulate_apps clean_status_pods reports_status
    second_pass group reports =
        if str_eq (reports_status "" reports) "failed"
        then (do
          ignore (clean_pod fuel)
          clean_status_pods p
          emulate_apps unpinned group.apps reports)
        else pure reports

    -- `VerticalEmulator`
    unfoldable pub vertical_emulator :
        AppGroup Quantity → String → Exec (Kubesim p) (List (Review Quantity))
    unfolding clean_pod emulate_apps save_result clean_status_pods second_pass delete_apps_pod
        create_apps_pod
    vertical_emulator group key = do
      replace "unable delete old pod"
          (each (λ pod. delete_apps_pod pod.namespace pod.name) group.old_pods)
      first ← emulate_apps pure group.apps []
      reports ← second_pass group first
      ignore (clean_pod fuel)
      clean_status_pods p
      replace "unable create old pod" (each create_apps_pod group.old_pods)
      save_result key (some reports)
      pure reports

    -- The loop of `CreateApps`: it stops at the first app that does not fit.
    unfoldable pub create_apps_loop :
        List (PodRequest Quantity)
        → SchedulerPrediction Quantity
        → Exec (Kubesim p) (SchedulerPrediction Quantity)
    unfolding emulate_app is_unschedulable
    create_apps_loop [] acc ks = done acc ks
    create_apps_loop (app ∷ apps) acc ks =
        let rest = create_apps_loop apps in
        (do
          r ← emulate_app app.pod app.replicas
          let reports = add_report r acc.report_list
          if is_unschedulable r
              then pure (record acc {
                first_app_failed_reason = r.status.reason.message;
                prediction_go = false;
                report_list = some reports;
              })
              else rest (record acc {
                success_apps_name = acc.success_apps_name ++ name_of app.pod ∷ [];
                success_apps_count = inc32 acc.success_apps_count;
                report_list = some reports;
              }))
          ks

    -- `CreateApps`
    unfoldable pub create_apps : AppGroup Quantity → Exec (Kubesim p) (SchedulerPrediction Quantity)
    unfolding create_apps_loop clean_pod
    create_apps group = do
      found ← create_apps_loop group.apps (record {
        success_apps_name = [];
        success_apps_count = pos 0;
        failed_apps_count = pos 0;
        first_app_failed_reason = [];
        prediction_go = true;
        report_list = some [];
      })
      ignore (clean_pod fuel)
      pure (record found { failed_apps_count = sub32 (len32 group.apps) found.success_apps_count })
