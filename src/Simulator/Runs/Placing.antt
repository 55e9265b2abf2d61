-- ===== src/Simulator/Runs/Placing.antt =====
-- A run for which the scheduler binds one pod after the other, each as soon as it is created.
use kubesim.Prelude.{
  ℕ, ◌+◌, ◌<◌, ◌≡◌, refl, true, some, List, [], ◌∷◌, ◌++◌, String, arith, ap, ◌∙◌, subst, length,
  Bool-cases, inl, inr,
}
use mathlib.Core.List.{append_assoc}
use kubesim.Prelude.Int.{pos}
use kubesim.Prelude.Exec.{done, then_do}
use kubesim.Platform.{Platform, Pod}
use kubesim.Simulator.{Kubesim, opened, closed, Callback, binds}
use kubesim.Simulator.Pods.{schedulable, close, after_bind, wait_stop, scheduler_pod, close_stop}
use kubesim.Simulator.Runs.{after_close}
use kubesim.Simulator.Runs.Waiting.{Waiting, gone_on, binds-Waiting, scheduler_pod-Waiting}
use kubesim.Simulator.Runs.Waiting.{Waiting, gone_on, binds-Waiting, scheduler_pod-Waiting}
use kubesim.Simulator.Runs.Steps.{
  PlacingLaws, Unused, Unused-Emptier, moved, held, made, bindings, placed, drawn, Goes, with_pods,
  with_pods-Goes, bind-places, next_of, next_ks, Emptier-placed, close_stop_lem, started,
}

module _ (p : Platform) (laws : PlacingLaws p) (m : ℕ) (t : Pod p.Quantity) where
  after_bind-last :
      (ks : Kubesim p)
      → 0 < m
      → Goes p laws m t m ks
      → after_bind p ks
        ≡ done true (
            after_close p m
              (record ks { status = record (ks.status) { stop_reason = schedulable (pos m) } }))
  unfolding after_bind close
  after_bind-last ks h g = ground arith

  -- The run is over: all pods are placed p, the calls that bound them are used up, and the pods that
  -- come later can still be made p.
  pub record Complete (ps : List (Pod p.Quantity)) (u : ℕ) (later : List (Pod p.Quantity))
      (more : List (Callback p.Quantity)) (s : Kubesim p) : Type 0 where
    pub template : s.simulated_pod ≡ some t
    pub limit : s.max_simulated ≡ pos m
    pub pods : s.status.pods ≡ ps
    pub reason : s.status.stop_reason ≡ schedulable (pos m)
    pub calls : s.callbacks ≡ more
    pub next : s.next_uuid ≡ u
    pub unused : Unused later (held p s)

  ended : Kubesim p → List (Callback p.Quantity) → Kubesim p
  ended ks more =
      record (after_close p m
        (record ks { status = record (ks.status) { stop_reason = schedulable (pos m) } })) {
          callbacks = more;
        }

  ended-Complete :
      (later : List (Pod p.Quantity)) (more : List (Callback p.Quantity)) (ks : Kubesim p)
      → Goes p laws m t m ks
      → Unused later (held p ks)
      → Complete ks.status.pods ks.next_uuid later more (ended ks more)
  unfolding ended
  ended-Complete later more ks g u = elim (Bool-cases ks.closed) [
    | inl shut ↦
        rw (shut, ended)
          (record {
            template = g.template;
            limit = g.limit;
            pods = refl;
            reason = refl;
            calls = refl;
            next = refl;
            unused = u;
          })
    | inr not_shut ↦
        rw (not_shut, ended)
          (record {
            template = g.template;
            limit = g.limit;
            pods = refl;
            reason = refl;
            calls = refl;
            next = refl;
            unused = u;
          })
  ]

  ended-waiting :
      (more : List (Callback p.Quantity)) (ks : Kubesim p)
      → ks.stop ≡ opened
      → (ended ks more).stop ≡ opened
  unfolding ended
  ended-waiting more ks e = ground arith

  -- The calls that bind the pods end the wait with all pods placed.
  wait_stop-Complete :
      (pod : Pod p.Quantity) (node : String) (nodes : List String) (k : ℕ)
      (later : List (Pod p.Quantity)) (more : List (Callback p.Quantity)) (ks : Kubesim p)
      → 0 < k
      → k + length nodes ≡ m
      → Waiting p laws m t k pod (made p ks.default_scheduler_name t ks.next_uuid nodes ++ later) ks
      → (s : Kubesim p) × (wait_stop p
            (binds pod node ∷ (bindings p ks.default_scheduler_name t ks.next_uuid nodes ++ more))
            ks
          ≡ done tt s)
        × Complete
            (ks.status.pods
              ++ moved node pod ∷ placed p ks.default_scheduler_name t ks.next_uuid nodes)
            (drawn p ks.next_uuid nodes)
            later
            more
            s
        × (s.stop ≡ opened)
  unfolding wait_stop with_pods ended gone_on next_ks
  wait_stop-Complete pod node [] k later more ks h l w =
      let (c, ran, view) = bind-places p laws m t pod node ks w.there in
      let full : k ≡ m = omega (arith, l) in
      let ks' = with_pods p laws m t c (ks.status.pods ++ moved node pod ∷ []) ks in
      let g =
        subst (λ j. Goes p laws m t j ks') full
          (with_pods-Goes p laws m t k c (ks.status.pods ++ moved node pod ∷ []) ks w.goes) in
      let emptier = Emptier-placed p laws m t pod node ks c w.there view in
      (
        ended ks' more,
        rw (ran, wait_stop, after_bind-last ks' (omega arith) g) refl,
        ended-Complete later more ks' g
            (Unused-Emptier later (held p ks) (held p ks') emptier w.unused),
        ended-waiting more ks' g.waiting,
      )
  wait_stop-Complete pod node (node' ∷ nodes) k later more ks h l w =
      let name = ks.default_scheduler_name in
      let (c, ran, w') =
        binds-Waiting p laws m t pod node k (made p name t (ks.next_uuid + 2) nodes ++ later) ks
          (omega (arith, l)) w in
      let (s, rest, complete, waits) =
        wait_stop-Complete (next_of p laws m t ks) node' nodes (k + 1) later more
          (gone_on p laws m t c pod node k ks) (omega arith) (omega (arith, l)) w' in
      (
        s,
        ran (bindings p name t ks.next_uuid (node' ∷ nodes) ++ more) ∙ rest,
        subst (λ ps. Complete ps (drawn p (ks.next_uuid + 2) nodes) later more s)
            (append_assoc ks.status.pods (moved node pod ∷ []) _) complete,
        waits,
      )

  -- So does a run from a fresh request, which creates the first pod.
  pub scheduler_pod-Complete :
      (node : String) (nodes : List String) (later : List (Pod p.Quantity))
      (more : List (Callback p.Quantity)) (ks : Kubesim p)
      → Goes p laws m t 0 ks
      → length (node ∷ nodes) ≡ m
      → ks.status.pods ≡ []
      → ks.callbacks ≡ bindings p ks.default_scheduler_name t ks.next_uuid (node ∷ nodes) ++ more
      → Unused (made p ks.default_scheduler_name t ks.next_uuid (node ∷ nodes) ++ later) (held p ks)
      → (s : Kubesim p) × (scheduler_pod p ks ≡ done tt s)
        × Complete
            (placed p ks.default_scheduler_name t ks.next_uuid (node ∷ nodes))
            (drawn p ks.next_uuid (node ∷ nodes))
            later
            more
            s
  unfolding next_ks
  scheduler_pod-Complete node nodes later more ks g l no_pods calls u =
      let name = ks.default_scheduler_name in
      let pod = next_of p laws m t ks in
      let (c, started, w) =
        scheduler_pod-Waiting p laws m t (made p name t (ks.next_uuid + 2) nodes ++ later) ks g u in
      let ks' = next_ks p laws m t c 0 ks in
      let (s, ran, complete, waits) =
        wait_stop-Complete pod node nodes 1 later more ks' (omega arith) (omega (arith, l)) w in
      (
        record s { stop = closed },
        started
            ∙ ap (λ cs. then_do (wait_stop p cs ks') (λ _. close_stop p)) calls
            ∙ ap (λ o. then_do o (λ _. close_stop p)) ran
            ∙ close_stop_lem p laws m t s waits,
        subst
            (λ ps.
              Complete (ps ++ placed p name t ks.next_uuid (node ∷ nodes))
                (drawn p ks.next_uuid (node ∷ nodes)) later more (record s { stop = closed }))
            no_pods
            (record {
              template = complete.template;
              limit = complete.limit;
              pods = complete.pods;
              reason = complete.reason;
              calls = complete.calls;
              next = complete.next;
              unused = complete.unused;
            }),
      )
