-- ===== src/Simulator/Runs/Refusing.antt =====
-- A run for which the scheduler binds some pods, each as soon as it is created, and then says of one
-- that it fits nowhere.
use mathlib.Core.List.{append_assoc, append-nil}
use kubesim.Prelude.{
  ℕ, ◌+◌, ◌<◌, ◌≤◌, ◌≡◌, refl, some, List, [], ◌∷◌, ◌++◌, String, arith, ap, ◌∙◌, sym, subst,
  length, Bool-cases, inl, inr,
}
use kubesim.Prelude.Int.{pos}
use kubesim.Prelude.Exec.{done, then_do}
use kubesim.Platform.{Platform, Pod, PodCondition}
use kubesim.Simulator.{Kubesim, Callback, binds, updates}
use kubesim.Simulator.Pods.{unschedulable, simulated_pod_of, wait_stop, scheduler_pod, close_stop}
use kubesim.Simulator.Runs.Waiting.{Waiting, gone_on, binds-Waiting, scheduler_pod-Waiting}
use kubesim.Simulator.Runs.Steps.{
  PlacingLaws, Unused, Unused-Emptier, Emptier, held, made, bindings, placed, drawn, moved, Goes,
  with_pods, next_of, next_ks,
}
use kubesim.Simulator.Runs.Halting.{
  Refusal, halted, stopped_ks, wait_stop-halted, close_stop-halted,
}

module _ (p : Platform) (laws : PlacingLaws p) (m : ℕ) (t : Pod p.Quantity) where
  -- The calls that bind a pod and those that follow it.
  calls_from : String → Pod p.Quantity → ℕ → List String → List (Callback p.Quantity)
  calls_from name pod i [] = []
  calls_from name pod i (node ∷ nodes) =
      binds pod node ∷ calls_from name (simulated_pod_of p name i t) (i + 2) nodes

  placed_from : String → Pod p.Quantity → ℕ → List String → List (Pod p.Quantity)
  placed_from name pod i [] = []
  placed_from name pod i (node ∷ nodes) =
      moved node pod ∷ placed_from name (simulated_pod_of p name i t) (i + 2) nodes

  -- A run of which some pods are placed and one is not.
  record Short (k : ℕ) (ps : List (Pod p.Quantity)) (u : ℕ) (later : List (Pod p.Quantity))
      (base s : Kubesim p) : Type 0 where
    goes : Goes p laws m t k s
    pods : s.status.pods ≡ ps
    next : s.next_uuid ≡ u
    unused : Unused later (held p s)
    name : s.default_scheduler_name ≡ base.default_scheduler_name

  wait_stop-Short :
      (nodes : List String) (pod : Pod p.Quantity) (k : ℕ) (later : List (Pod p.Quantity))
      (rest : List (Callback p.Quantity)) (ks : Kubesim p)
      → k + length nodes ≤ m
      → Waiting p laws m t k pod (made p ks.default_scheduler_name t ks.next_uuid nodes ++ later) ks
      → (s : Kubesim p) × (wait_stop p
            (calls_from ks.default_scheduler_name pod ks.next_uuid nodes ++ rest)
            ks
          ≡ wait_stop p rest s)
        × Short
            (k + length nodes)
            (ks.status.pods ++ placed_from ks.default_scheduler_name pod ks.next_uuid nodes)
            (drawn p ks.next_uuid nodes)
            later
            ks
            s
  unfolding calls_from placed_from gone_on with_pods next_ks
  wait_stop-Short [] pod k later rest ks l w = (
    ks,
    refl,
    record {
      goes = subst (λ j. Goes p laws m t j ks) (omega arith) w.goes;
      pods = sym (append-nil ks.status.pods);
      next = refl;
      unused = w.unused;
      name = refl;
    },
  )
  wait_stop-Short (node ∷ nodes) pod k later rest ks l w =
      let name = ks.default_scheduler_name in
      let pod' = next_of p laws m t ks in
      let (c, ran, w') =
        binds-Waiting p laws m t pod node k (made p name t (ks.next_uuid + 2) nodes ++ later) ks
          (omega (arith, l)) w in
      let (s, ended, short) =
        wait_stop-Short nodes pod' (k + 1) later rest (gone_on p laws m t c pod node k ks)
          (omega (arith, l)) w' in
      (
        s,
        ran (calls_from name pod' (ks.next_uuid + 2) nodes ++ rest) ∙ ended,
        record {
          goes = subst (λ j. Goes p laws m t j s) (omega arith) short.goes;
          pods = short.pods ∙ append_assoc ks.status.pods (moved node pod ∷ []) _;
          next = short.next;
          unused = short.unused;
          name = short.name;
        },
      )

  calls_from-bindings :
      (name : String) (i : ℕ) (nodes : List String)
      → calls_from name (simulated_pod_of p name i t) (i + 2) nodes ≡ bindings p name t i nodes
  unfolding calls_from
  calls_from-bindings name i [] = refl
  calls_from-bindings name i (node ∷ nodes) =
      ap (λ cs. binds (simulated_pod_of p name i t) node ∷ cs)
        (calls_from-bindings name (i + 2) nodes)

  placed_from-placed :
      (name : String) (i : ℕ) (nodes : List String)
      → placed_from name (simulated_pod_of p name i t) (i + 2) nodes ≡ placed p name t i nodes
  unfolding placed_from
  placed_from-placed name i [] = refl
  placed_from-placed name i (node ∷ nodes) =
      ap (λ ps. moved node (simulated_pod_of p name i t) ∷ ps)
        (placed_from-placed name (i + 2) nodes)

  -- The run is over: some pods are placed, the scheduler's reason is kept, and the calls and pods of
  -- later apps are left.
  pub record Refused (ps : List (Pod p.Quantity)) (c : PodCondition) (u : ℕ)
      (later : List (Pod p.Quantity)) (more : List (Callback p.Quantity)) (s : Kubesim p)
      : Type 0 where
    pub template : s.simulated_pod ≡ some t
    pub limit : s.max_simulated ≡ pos m
    pub pods : s.status.pods ≡ ps
    pub reason : s.status.stop_reason ≡ unschedulable c.reason c.message
    pub calls : s.callbacks ≡ more
    pub next : s.next_uuid ≡ u
    pub unused : Unused later (held p s)

  stopped_ks-Refused :
      (k : ℕ) (ps : List (Pod p.Quantity)) (c : PodCondition) (u : ℕ)
      (later : List (Pod p.Quantity)) (more : List (Callback p.Quantity)) (base s : Kubesim p)
      (cluster : p.Cluster)
      → Short k ps u later base s
      → Emptier (held p s) (λ ns n. p.pods.get ns n cluster)
      → Refused ps c u later more (stopped_ks p laws m c cluster more s)
  unfolding stopped_ks halted
  stopped_ks-Refused k ps c u later more base s cluster w emptier =
      let unused =
        Unused-Emptier later (held p s) (λ ns n. p.pods.get ns n cluster) emptier w.unused in
      elim (Bool-cases s.closed) [
        | inl shut ↦
            rw (shut, stopped_ks)
              (record {
                template = w.goes.template;
                limit = w.goes.limit;
                pods = w.pods;
                reason = refl;
                calls = refl;
                next = w.next;
                unused = unused;
              })
        | inr not_shut ↦
            rw (not_shut, stopped_ks)
              (record {
                template = w.goes.template;
                limit = w.goes.limit;
                pods = w.pods;
                reason = refl;
                calls = refl;
                next = w.next;
                unused = unused;
              })
      ]

  pub scheduler_pod-Refused :
      (nodes : List String) (later : List (Pod p.Quantity)) (pod : Pod p.Quantity)
      (c : PodCondition) (more : List (Callback p.Quantity)) (ks : Kubesim p)
      → Goes p laws m t 0 ks
      → length nodes < m
      → ks.status.pods ≡ []
      → ks.callbacks
        ≡ bindings p ks.default_scheduler_name t ks.next_uuid nodes ++ updates pod ∷ more
      → Refusal ks.default_scheduler_name pod c
      → Unused
          (simulated_pod_of p ks.default_scheduler_name ks.next_uuid t
              ∷ made p ks.default_scheduler_name t (ks.next_uuid + 2) nodes
            ++ later)
          (held p ks)
      → (s : Kubesim p) × (scheduler_pod p ks ≡ done tt s)
        × Refused
            (placed p ks.default_scheduler_name t ks.next_uuid nodes)
            c
            (drawn p (ks.next_uuid + 2) nodes)
            later
            more
            s
  unfolding next_ks
  scheduler_pod-Refused nodes later pod c more ks g l no_pods calls w u =
      let name = ks.default_scheduler_name in
      let first = next_of p laws m t ks in
      let (cl, begun, waits) =
        scheduler_pod-Waiting p laws m t (made p name t (ks.next_uuid + 2) nodes ++ later) ks g u in
      let ks' = next_ks p laws m t cl 0 ks in
      let (s, ran, short) =
        wait_stop-Short nodes first 1 later (updates pod ∷ more) ks' (omega (arith, l)) waits in
      let w' = subst (λ n. Refusal n pod c) (sym short.name) w in
      let (cluster, over, emptier) =
        wait_stop-halted p laws m pod c more s short.goes.channels short.goes.waiting w' in
      let placed_is : ks.status.pods ++ placed_from name first (ks.next_uuid + 2) nodes
          ≡ placed p name t ks.next_uuid nodes =
        ap (λ ps. ps ++ placed_from name first (ks.next_uuid + 2) nodes) no_pods
        ∙ placed_from-placed name ks.next_uuid nodes in
      (
        stopped_ks p laws m c cluster more s,
        begun
            ∙ ap (λ cs. then_do (wait_stop p cs ks') (λ _. close_stop p)) calls
            ∙ ap (λ cs. then_do (wait_stop p (cs ++ updates pod ∷ more) ks') (λ _. close_stop p))
                (sym (calls_from-bindings name ks.next_uuid nodes))
            ∙ ap (λ o. then_do o (λ _. close_stop p)) (ran ∙ over)
            ∙ close_stop-halted p laws m c cluster more s short.goes.waiting,
        stopped_ks-Refused (1 + length nodes) (placed p name t ks.next_uuid nodes) c
            (drawn p (ks.next_uuid + 2) nodes) later more ks' s cluster
            (record {
              goes = short.goes;
              pods = short.pods ∙ placed_is;
              next = short.next;
              unused = short.unused;
              name = short.name;
            })
            emptier,
      )
