-- ===== src/Simulator/Runs/Halting.antt =====
-- A run that the scheduler's refusal of a pod ends.
use kubesim.Prelude.{
  ℕ, ◌≡◌, refl, true, List, [], ◌∷◌, String, arith, ap, ◌∙◌, str_eq, eq_iff, if◌then◌else◌,
  Option-cases, inl, inr,
}
use kubesim.Prelude.Exec.{done, then_do, modify}
use kubesim.Platform.{Platform, Pod, PodCondition}
use kubesim.Simulator.{Kubesim, opened, closed, Callback, updates}
use kubesim.Simulator.Pods.{
  unschedulable, has_annotation, update, update_conditions, callback, wait_stop, close_stop,
}
use kubesim.Simulator.Runs.{CanClose, after_close}
use kubesim.Simulator.Runs.Ending.{Stops}
use kubesim.Simulator.Runs.Steps.{PlacingLaws, Emptier, held}

-- The update by which the scheduler refuses a pod of kubesim, with its one condition.
pub record Refusal (name : String) {Q : Type 0} (pod : Pod Q) (c : PodCondition) : Type 0 where
  pub scheduler : pod.scheduler_name ≡ name
  pub annotated : has_annotation pod "kubesim.kubernetes.io/provisioned" ≡ true
  pub condition : pod.conditions ≡ c ∷ []
  pub stops : Stops c

module _ (p : Platform) (laws : PlacingLaws p) (m : ℕ) where
  -- The run after the refusal: the stop reason is the scheduler's.
  unfoldable pub halted : PodCondition → p.Cluster → Kubesim p → Kubesim p
  halted c cluster s =
      record (after_close p m (record s {
        status = record (s.status) { stop_reason = unschedulable c.reason c.message };
      })) { stopped = true; cluster = cluster }

  update-halted :
      (pod : Pod p.Quantity) (c : PodCondition) (s : Kubesim p)
      → CanClose p m s
      → s.stop ≡ opened
      → Stops c
      → has_annotation pod "kubesim.kubernetes.io/provisioned" ≡ true
      → (cluster : p.Cluster) × (update p pod c s ≡ done true (halted c cluster s))
        × Emptier (held p s) (λ ns n. p.pods.get ns n cluster)
  unfolding update halted
  update-halted pod c s can waiting stops ours =
      elim (Option-cases (p.pods.delete pod.namespace pod.name s.cluster)) [
        | inl kept ↦ (s.cluster, ground arith, λ ns n e. e)
        | inr (cluster, gone) ↦
            (cluster, ground arith, laws.deleted pod.namespace pod.name s.cluster cluster gone)
      ]

  update_conditions-halted :
      (pod : Pod p.Quantity) (c : PodCondition) (s : Kubesim p) (cluster : p.Cluster)
      → pod.conditions ≡ c ∷ []
      → Stops c
      → update p pod c s ≡ done true (halted c cluster s)
      → update_conditions p pod pod.conditions s ≡ done true (halted c cluster s)
  unfolding update_conditions
  update_conditions-halted pod c s cluster one stops ran =
      ap (λ cs. update_conditions p pod cs s) one ∙ rw (stops.0, update_conditions, ran) refl

  callback-ours :
      (pod : Pod p.Quantity) (s : Kubesim p)
      → pod.scheduler_name ≡ s.default_scheduler_name
      → callback p (updates pod) s ≡ update_conditions p pod pod.conditions s
  unfolding callback
  callback-ours pod s e =
      let ours : str_eq pod.scheduler_name s.default_scheduler_name ≡ true =
        (eq_iff pod.scheduler_name s.default_scheduler_name).1 e in
      rw (ours, callback) refl

  pub wait_stop-halted :
      (pod : Pod p.Quantity) (c : PodCondition) (more : List (Callback p.Quantity)) (s : Kubesim p)
      → CanClose p m s
      → s.stop ≡ opened
      → Refusal s.default_scheduler_name pod c
      → (cluster : p.Cluster) × (wait_stop p (updates pod ∷ more) s
          ≡ done tt (record (halted c cluster s) { callbacks = more }))
        × Emptier (held p s) (λ ns n. p.pods.get ns n cluster)
  unfolding wait_stop
  wait_stop-halted pod c more s can waiting w =
      let (cluster, ran, emptier) = update-halted pod c s can waiting w.stops w.annotated in
      let told = update_conditions-halted pod c s cluster w.condition w.stops ran in
      let called : callback p (updates pod) s ≡ done true (halted c cluster s) =
        callback-ours pod s w.scheduler ∙ told in
      (
        cluster,
        ap
            (λ o. then_do o (λ told.
              if told then modify (λ s. record s { callbacks = more }) else wait_stop p more))
            called,
        emptier,
      )

  -- The run when its emulator has gone on.
  unfoldable pub stopped_ks :
      PodCondition → p.Cluster → List (Callback p.Quantity) → Kubesim p → Kubesim p
  stopped_ks c cluster more s = record (halted c cluster s) { callbacks = more; stop = closed }

  pub close_stop-halted :
      (c : PodCondition) (cluster : p.Cluster) (more : List (Callback p.Quantity)) (s : Kubesim p)
      → s.stop ≡ opened
      → close_stop p (record (halted c cluster s) { callbacks = more })
        ≡ done tt (stopped_ks c cluster more s)
  unfolding halted stopped_ks close_stop
  close_stop-halted c cluster more s e = ground arith
