-- ===== src/Simulator/Pods.antt =====
-- pkg/scheduler/simulator.go and pkg/strategy/strategy.go: one emulation of one app. The emulator
-- creates a pod and waits; the scheduler's callbacks place it and create the next, or stop the run.
pub mod Reason
use Prim.Native.String.{slice, ◌++◌ as str_append}
use mathlib.Core.Option
use kubesim.Prelude.{
  ℕ, ◌+◌, Bool, true, false, ◌&&◌, Option, none, some, List, [], ◌∷◌, ◌++◌, String, str_eq,
  if◌then◌else◌,
}
use kubesim.Prelude.Int.{ℤ, pos, ltb_ℤ, leb_ℤ, inc32}
use kubesim.Prelude.Map.{Map, lookup, insert, present}
use kubesim.Prelude.Text.{Text, codes, sprint, Error, client, message, wrapped}
use kubesim.Prelude.Exec.{
  Outcome, done, fails, panics, blocks, Exec, then_do, ◌>>=◌, ◌>>◌, pure, raise, gets, crash, wrap,
  ignore, modify,
}
use kubesim.Platform.{Platform, Pod, PodCondition, Resource}
use kubesim.Report.{Status, Review, get_report}
use kubesim.Simulator.{Kubesim, Channel, unmade, opened, closed, Callback, binds, updates}

-- A nil map is made before the write.
abbrev set_key : String → String → Option (Map String) → Option (Map String)
set_key k v none = some (insert k v [])
set_key k v (some m) = some (insert k v m)

-- The stop reasons that `Bind` and `Update` print.
unfoldable pub schedulable : ℤ → Text
schedulable replicas =
    codes "Schedulable: Schedule the number of simulated pods: " ++ sprint replicas

unfoldable pub unschedulable : String → Text → Text
unschedulable reason msg = codes reason ++ codes ": " ++ msg

-- `metav1.HasAnnotation`
unfoldable pub has_annotation : {Q : Type 0} → Pod Q → String → Bool
has_annotation pod k = elim pod.annotations [ none ↦ false | some m ↦ present (lookup k m) ]

module _ (p : Platform) where
  open p use {Quantity, Cluster, pods, uuid}

  -- A call of the clientset that changes the cluster; `none` is its error.
  unfoldable pub change : (Cluster → Option Cluster) → Exec (Kubesim p) Unit
  change call ks = elim (call ks.cluster) [
    | none ↦ fails client ks
    | some c ↦ done tt (record ks { cluster = c })
  ]

  -- The panic of a nil pointer or of a slice bound.
  abbrev or_crash : {A : Type 0} → Option A → Exec (Kubesim p) A
  or_crash none = crash
  or_crash (some a) = pure a

  abbrev templates : Option (Pod Quantity) → Exec (Kubesim p) (List (Pod Quantity))
  templates none = crash
  templates (some pod) = pure (pod ∷ [])

  -- `Report`
  unfoldable pub report : Exec (Kubesim p) (Review Quantity)
  report ks =
      (do
        pods ← templates ks.simulated_pod
        r ← or_crash (get_report p pods ks.status ks.max_simulated)
        modify (λ s. record s { report = some r })
        pure r)
        ks

  -- `CleanStatusPods`; the stop reason stays. `none` stands for the zero report, which no code reads.
  unfoldable pub clean_status_pods : Exec (Kubesim p) Unit
  clean_status_pods ks =
      done tt (record ks { status = record (ks.status) { pods = [] }; report = none })

  -- `UpdatePodRequest`
  unfoldable pub update_pod_request : Option (Pod Quantity) → ℤ → Exec (Kubesim p) Unit
  update_pod_request pod replicas ks = done tt (record ks {
    simulated_pod = pod;
    max_simulated = replicas;
    simulated = pos 0;
    stop = opened;
    informer_stop_ch = opened;
    scheduler_ch = opened;
  })

  -- The built-in `close`: closing a nil or a closed channel panics.
  abbrev close_channel : Channel → Exec (Kubesim p) Unit
  close_channel unmade = crash
  close_channel opened = pure tt
  close_channel closed = crash

  -- `Close`
  unfoldable pub close : Exec (Kubesim p) Unit
  close ks =
      if ks.closed
      then done tt ks
      else (do
        close_channel ks.scheduler_ch
        modify (λ s. record s { scheduler_ch = closed })
        close_channel ks.informer_stop_ch
        modify (λ s. record s { informer_stop_ch = closed; closed = true }))
          ks

  unfoldable pub close_stop : Exec (Kubesim p) Unit
  close_stop ks = (do close_channel ks.stop; modify (λ s. record s { stop = closed })) ks

  -- `ks.stop <- struct{}{}`, which the waiting emulator receives.
  abbrev send : Channel → Exec (Kubesim p) Bool
  send unmade ks = blocks
  send opened ks = done true ks
  send closed ks = panics

  unfoldable pub send_stop : Exec (Kubesim p) Bool
  send_stop ks = send ks.stop ks

  -- The pod that `nextPod` makes of the template with the i-th and the next UUID.
  unfoldable pub simulated_pod_of : String → ℕ → Pod Quantity → Pod Quantity
  simulated_pod_of scheduler_name i template = record template {
    node_name = "";
    name = str_append (str_append template.name "-") (slice (uuid i) 0 7);
    uid = uuid (i + 1);
    scheduler_name = scheduler_name;
    annotations = set_key "kubesim.kubernetes.io/provisioned" scheduler_name template.annotations;
    labels = set_key "provisioner" "kubesim" template.labels;
  }

  -- `nextPod`: the count goes up also where the clientset then refuses the pod.
  unfoldable pub next_pod : Exec (Kubesim p) Unit
  unfolding change simulated_pod_of
  next_pod ks = elim ks.simulated_pod [
    | none ↦ panics
    | some template ↦
        let pod = simulated_pod_of ks.default_scheduler_name ks.next_uuid template in
        change (pods.create pod.namespace pod) (record ks {
          simulated = inc32 ks.simulated;
          last_simulated_pod = some pod;
          next_uuid = ks.next_uuid + 2;
        })
  ]

  -- `predictiveStrategy.addPod`
  unfoldable pub add_pod : Pod Quantity → Exec (Kubesim p) (Pod Quantity)
  unfolding change
  add_pod pod = do
    let running = record pod { phase = "Running" }
    wrap "Unable to add new pod" (change (pods.update running.namespace running))
    pure running

  abbrev or_client : {A : Type 0} → Option A → Exec (Kubesim p) A
  or_client none = raise client
  or_client (some a) = pure a

  -- The end of `Bind`: the run is complete, or the next pod follows. The result is whether the
  -- emulator was told to stop.
  unfoldable pub after_bind : Exec (Kubesim p) Bool
  unfolding close send_stop next_pod
  after_bind ks =
      if ltb_ℤ (pos 0) ks.max_simulated && leb_ℤ ks.max_simulated ks.simulated
      then (do
        modify (λ s. record s {
          status = record (s.status) { stop_reason = schedulable s.max_simulated };
        })
        close
        send_stop)
          ks
      else (do wrap "Unable to create next pod to schedule" next_pod; pure false) ks

  -- `Bind`; an error is the status that the scheduler gets.
  unfoldable pub bind : Pod Quantity → String → Exec (Kubesim p) Bool
  unfolding add_pod after_bind
  bind pod node_name ks =
      (do
        found ← wrap "Unable to bind" (or_client (pods.get pod.namespace pod.name ks.cluster))
        placed ←
            wrap "Unable to recompute new cluster state"
              (add_pod (record found { node_name = node_name; phase = "Running" }))
        modify
            (λ s. record s { status = record (s.status) { pods = s.status.pods ++ placed ∷ [] } })
        after_bind)
        ks

  -- `CleanPendingPod`
  unfoldable pub clean_pending_pod : Pod Quantity → Exec (Kubesim p) Unit
  unfolding change
  clean_pending_pod pod = wrap "unable to delete pod" (change (pods.delete pod.namespace pod.name))

  -- `Update`
  unfoldable pub update : Pod Quantity → PodCondition → Exec (Kubesim p) Bool
  unfolding close send_stop clean_pending_pod has_annotation
  update pod condition ks =
      if (str_eq condition.kind "PodScheduled"
          && str_eq condition.status "False"
          && str_eq condition.reason "Unschedulable")
        && has_annotation pod "kubesim.kubernetes.io/provisioned"
      then (do
        modify (λ s. record s {
          status = record (s.status) {
            stop_reason = unschedulable condition.reason condition.message;
          };
        })
        close
        modify (λ s. record s { stopped = true })
        ignore (clean_pending_pod pod)
        send_stop)
          ks
      else done false ks

  -- The loop of the informer's `UpdateFunc`, up to the condition that stops the run.
  unfoldable pub update_conditions : Pod Quantity → List PodCondition → Exec (Kubesim p) Bool
  unfolding update
  update_conditions pod [] ks = done false ks
  update_conditions pod (c ∷ cs) ks =
      let rest = update_conditions pod cs in
      let here : Exec (Kubesim p) Bool =
        if str_eq c.kind "PodScheduled" then update pod c else pure false in
      (do told ← here; if told then pure true else rest) ks

  -- One call of the scheduler. An error status goes back to the scheduler, and the run goes on.
  abbrev pub status_back : Outcome (Kubesim p) Bool → Outcome (Kubesim p) Bool
  status_back (done told s) = done told s
  status_back (fails e s) = done false s
  status_back panics = panics
  status_back blocks = blocks

  unfoldable pub callback : Callback Quantity → Exec (Kubesim p) Bool
  unfolding bind update_conditions
  callback (binds pod node_name) ks = status_back (bind pod node_name ks)
  callback (updates pod) ks =
      if str_eq pod.scheduler_name ks.default_scheduler_name
      then update_conditions pod pod.conditions ks
      else done false ks

  -- `<-ks.stop`: the callbacks run until one of them tells the emulator to stop. Without one the
  -- emulator waits for good. These are the calls that come while it waits, one at a time; a call that
  -- comes when the run has ended is `callback` on the state that is left then (Simulator/Runs/Late).
  unfoldable pub wait_stop : List (Callback Quantity) → Exec (Kubesim p) Unit
  unfolding callback
  wait_stop [] ks = blocks
  wait_stop (c ∷ cs) ks =
      let rest = wait_stop cs in
      (do told ← callback c; if told then modify (λ s. record s { callbacks = cs }) else rest) ks

  abbrev pub stop_on_error : Outcome (Kubesim p) Unit → Outcome (Kubesim p) Unit
  stop_on_error (fails e s) =
      (do close; close_stop; raise (wrapped "nable to create next pod to schedule" e)) s
  stop_on_error r = r

  -- `SchedulerPod`
  unfoldable pub scheduler_pod : Exec (Kubesim p) Unit
  unfolding next_pod close close_stop wait_stop
  scheduler_pod ks =
      then_do (stop_on_error (next_pod ks))
        (λ _ s. then_do (wait_stop s.callbacks s) (λ _. close_stop))
