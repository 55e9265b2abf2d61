-- ===== src/Simulator/Runs/Waiting.antt =====
-- A run that waits for its scheduler, from one binding to the next.
use kubesim.Prelude.{ℕ, ◌+◌, ◌<◌, ◌≡◌, refl, some, List, [], ◌∷◌, ◌++◌, String, ◌∙◌}
use kubesim.Prelude.Exec.{then_do}
use kubesim.Platform.{Platform, Pod}
use kubesim.Simulator.{Kubesim, Callback, binds}
use kubesim.Simulator.Pods.{wait_stop, scheduler_pod, close_stop}
use kubesim.Simulator.Runs.Steps.{
  PlacingLaws, Unused, Unused-Emptier, put_pod, put_pod_self, moved, held, Goes, with_pods,
  with_pods-Goes, next_ks-Goes, bind-places, after_bind-next, next_of, next_ks, Emptier-placed,
  Emptier-created, started,
}

module _ (p : Platform) (laws : PlacingLaws p) (m : ℕ) (t : Pod p.Quantity) where
  -- Of this run `k` pods were created, the last of them waits to be placed, and the pods that come
  -- later can still be made.
  pub record Waiting (k : ℕ) (pod : Pod p.Quantity) (later : List (Pod p.Quantity)) (ks : Kubesim p)
      : Type 0 where
    pub goes : Goes p laws m t k ks
    pub there : held p ks pod.namespace pod.name ≡ some pod
    pub unused : Unused later (held p ks)

  -- The run after a binding that is not the last.
  unfoldable pub gone_on : p.Cluster → Pod p.Quantity → String → ℕ → Kubesim p → Kubesim p
  unfolding next_ks with_pods
  gone_on c pod node k ks =
      next_ks p laws m t c k (with_pods p laws m t c (ks.status.pods ++ moved node pod ∷ []) ks)

  pub binds-Waiting :
      (pod : Pod p.Quantity) (node : String) (k : ℕ) (later : List (Pod p.Quantity))
      (ks : Kubesim p)
      → k < m
      → Waiting k pod (next_of p laws m t ks ∷ later) ks
      → (c : p.Cluster) × ((rest : List (Callback p.Quantity))
          → wait_stop p (binds pod node ∷ rest) ks ≡ wait_stop p rest (gone_on c pod node k ks))
        × Waiting (k + 1) (next_of p laws m t ks) later (gone_on c pod node k ks)
  unfolding gone_on with_pods next_ks wait_stop
  binds-Waiting pod node k later ks room w =
      let (c, ran, view) = bind-places p laws m t pod node ks w.there in
      let ks' = with_pods p laws m t c (ks.status.pods ++ moved node pod ∷ []) ks in
      let emptier = Emptier-placed p laws m t pod node ks c w.there view in
      let pod' = next_of p laws m t ks in
      let (c', ok, view') = laws.created pod' c (emptier pod'.namespace pod'.name w.unused.0) in
      let g = with_pods-Goes p laws m t k c (ks.status.pods ++ moved node pod ∷ []) ks w.goes in
      (
        c',
        λ rest. rw (ran, wait_stop, after_bind-next p laws m t k c' ks' room g ok) refl,
        record {
          goes =
              next_ks-Goes p laws m t k c'
                (with_pods p laws m t c' (ks.status.pods ++ moved node pod ∷ []) ks)
                (with_pods-Goes p laws m t k c' (ks.status.pods ++ moved node pod ∷ []) ks w.goes);
          there = view' pod'.namespace pod'.name ∙ put_pod_self pod' (held p ks');
          unused =
              Unused-Emptier later (put_pod pod' (held p ks)) (held p (gone_on c' pod node k ks))
                (Emptier-created p laws m t pod' ks c c' emptier view') w.unused.1;
        },
      )

  -- A fresh run creates its first pod and waits.
  pub scheduler_pod-Waiting :
      (later : List (Pod p.Quantity)) (ks : Kubesim p)
      → Goes p laws m t 0 ks
      → Unused (next_of p laws m t ks ∷ later) (held p ks)
      → (c : p.Cluster) × (scheduler_pod p ks
          ≡ then_do (wait_stop p ks.callbacks (next_ks p laws m t c 0 ks)) (λ _. close_stop p))
        × Waiting 1 (next_of p laws m t ks) later (next_ks p laws m t c 0 ks)
  unfolding next_ks
  scheduler_pod-Waiting later ks g u =
      let pod = next_of p laws m t ks in
      let (c, ok, view) = laws.created pod ks.cluster u.0 in
      (
        c,
        started p laws m t c ks g ok,
        record {
          goes = next_ks-Goes p laws m t 0 c ks g;
          there = view pod.namespace pod.name ∙ put_pod_self pod (held p ks);
          unused =
              Unused-Emptier later (put_pod pod (held p ks)) (held p (next_ks p laws m t c 0 ks))
                (λ ns n k. view ns n ∙ k) u.1;
        },
      )
