-- ===== src/Simulator/Runs/Steps.antt =====
-- The steps of a run for which the scheduler binds pods, each as soon as it is created, on a clientset
-- with the laws of creations and updates.
use kubesim.Prelude.{
  ℕ, ◌+◌, ◌<◌, ◌≡◌, refl, false, some, none, List, [], ◌∷◌, ◌++◌, String, arith, ◌∙◌, eq_iff,
}
use text.Mathlib.TextPositions.{eq_refl}
use kubesim.Prelude.Int.{pos, inc32-pos}
use kubesim.Prelude.Exec.{done, then_do}
use kubesim.Platform.{Platform, Pod}
use kubesim.Simulator.{Kubesim, opened, closed, Callback, binds}
use kubesim.Simulator.Pods.{
  simulated_pod_of, change, next_pod, after_bind, bind, wait_stop, scheduler_pod, close_stop,
}
use kubesim.Simulator.Runs.{CanClose}
use kubesim.Mirror.Watch.Views.{View}
use kubesim.Mirror.Sync.Views.{put, Fresh}

module _ {Q : Type 0} where
  abbrev pub namespace_of : Pod Q → String
  namespace_of pod = pod.namespace

  abbrev pub name_of : Pod Q → String
  name_of pod = pod.name

  -- The pods that a cluster holds under their keys, as a view; `Unused` pods have keys of their own.
  abbrev pub Unused : List (Pod Q) → View (Pod Q) → Type 0
  Unused = Fresh namespace_of name_of

  abbrev pub put_pod : Pod Q → View (Pod Q) → View (Pod Q)
  put_pod = put namespace_of name_of

  -- The pod as `Bind` leaves it.
  abbrev pub moved : String → Pod Q → Pod Q
  moved node pod = record pod { node_name = node; phase = "Running" }

  -- Where `v` holds nothing, `w` holds nothing.
  abbrev pub Emptier : View (Pod Q) → View (Pod Q) → Type 0
  Emptier v w = (ns n : String) → v ns n ≡ none → w ns n ≡ none

  put_pod-Emptier :
      (a b : Pod Q) (v w : View (Pod Q))
      → a.namespace ≡ b.namespace
      → a.name ≡ b.name
      → Emptier v w
      → Emptier (put_pod a v) (put_pod b w)
  put_pod-Emptier a b v w e f h ns n k = ground (arith, h ns n)

  pub Unused-Emptier :
      (pods : List (Pod Q)) (v w : View (Pod Q)) → Emptier v w → Unused pods v → Unused pods w
  Unused-Emptier [] v w h u = tt
  Unused-Emptier (a ∷ rest) v w h u = (
    h a.namespace a.name u.0,
    Unused-Emptier rest (put_pod a v) (put_pod a w) (put_pod-Emptier a a v w refl refl h) u.1,
  )

  pub put_pod_self : (a : Pod Q) (v : View (Pod Q)) → put_pod a v a.namespace a.name ≡ some a
  put_pod_self a v = rw (eq_refl a.namespace, eq_refl a.name) refl

-- What the fake clientset promises of the pods of a run: a pod is created where none has its key, and
-- updated where one has, and the others stay as they are; a deletion makes no pod.
pub record PlacingLaws (p : Platform) : Type 0 where
  pub created :
      (a : Pod p.Quantity) (c : p.Cluster)
      → p.pods.get a.namespace a.name c ≡ none
      → (c' : p.Cluster) × (p.pods.create a.namespace a c ≡ some c')
        × ((ns n : String) → p.pods.get ns n c' ≡ put_pod a (λ ns n. p.pods.get ns n c) ns n)
  pub updated :
      (a b : Pod p.Quantity) (c : p.Cluster)
      → p.pods.get a.namespace a.name c ≡ some b
      → (c' : p.Cluster) × (p.pods.update a.namespace a c ≡ some c')
        × ((ns n : String) → p.pods.get ns n c' ≡ put_pod a (λ ns n. p.pods.get ns n c) ns n)
  pub deleted :
      (namespace name : String) (c c' : p.Cluster)
      → p.pods.delete namespace name c ≡ some c'
      → (ns n : String) → p.pods.get ns n c ≡ none
      → p.pods.get ns n c' ≡ none

module _ (p : Platform) where
  abbrev pub held : Kubesim p → View (Pod p.Quantity)
  held ks ns n = p.pods.get ns n ks.cluster

  module _ (name : String) (t : Pod p.Quantity) where
    -- For each node a pod of the template that is created from the UUIDs on, bound to that node; the
    -- calls that bind them; the pods when they are placed; and the UUIDs that are left.
    abbrev pub made : ℕ → List String → List (Pod p.Quantity)
    made i [] = []
    made i (node ∷ nodes) = simulated_pod_of p name i t ∷ made (i + 2) nodes

    abbrev pub bindings : ℕ → List String → List (Callback p.Quantity)
    bindings i [] = []
    bindings i (node ∷ nodes) = binds (simulated_pod_of p name i t) node ∷ bindings (i + 2) nodes

    abbrev pub placed : ℕ → List String → List (Pod p.Quantity)
    placed i [] = []
    placed i (node ∷ nodes) = moved node (simulated_pod_of p name i t) ∷ placed (i + 2) nodes

  abbrev pub drawn : ℕ → List String → ℕ
  drawn i [] = i
  drawn i (node ∷ nodes) = drawn (i + 2) nodes

  module _ (laws : PlacingLaws p) (m : ℕ) (t : Pod p.Quantity) where
    -- A run of which `k` pods were created, the last of them not placed yet.
    pub record Goes (k : ℕ) (ks : Kubesim p) : Type 0 where
      pub template : ks.simulated_pod ≡ some t
      pub limit : ks.max_simulated ≡ pos m
      pub count : ks.simulated ≡ pos k
      pub bounded : m < 2147483648
      pub waiting : ks.stop ≡ opened
      pub channels : CanClose p m ks

    unfoldable pub with_pods : p.Cluster → List (Pod p.Quantity) → Kubesim p → Kubesim p
    with_pods c pods ks = record ks { cluster = c; status = record (ks.status) { pods = pods } }

    pub bind-places :
        (pod : Pod p.Quantity) (node : String) (ks : Kubesim p)
        → held ks pod.namespace pod.name ≡ some pod
        → (c : p.Cluster) × (bind p pod node ks
            ≡ after_bind p (with_pods c (ks.status.pods ++ moved node pod ∷ []) ks))
          × ((ns n : String) → p.pods.get ns n c ≡ put_pod (moved node pod) (held ks) ns n)
    unfolding bind with_pods
    bind-places pod node ks e =
        let (c, ok, view) = laws.updated (moved node pod) pod ks.cluster e in
        (c, rw (e, bind, ok, change) refl, view)

    abbrev pub next_of : Kubesim p → Pod p.Quantity
    next_of ks = simulated_pod_of p ks.default_scheduler_name ks.next_uuid t

    unfoldable pub next_ks : p.Cluster → ℕ → Kubesim p → Kubesim p
    next_ks c k ks = record ks {
      cluster = c;
      simulated = pos (k + 1);
      last_simulated_pod = some (next_of ks);
      next_uuid = ks.next_uuid + 2;
    }

    pub with_pods-Goes :
        (k : ℕ) (c : p.Cluster) (pods : List (Pod p.Quantity)) (ks : Kubesim p)
        → Goes k ks
        → Goes k (with_pods c pods ks)
    unfolding with_pods
    with_pods-Goes k c pods ks g = record {
      template = g.template;
      limit = g.limit;
      count = g.count;
      bounded = g.bounded;
      waiting = g.waiting;
      channels = g.channels;
    }

    pub next_ks-Goes :
        (k : ℕ) (c : p.Cluster) (ks : Kubesim p) → Goes k ks → Goes (k + 1) (next_ks c k ks)
    unfolding next_ks
    next_ks-Goes k c ks g = record {
      template = g.template;
      limit = g.limit;
      count = refl;
      bounded = g.bounded;
      waiting = g.waiting;
      channels = g.channels;
    }

    pub after_bind-next :
        (k : ℕ) (c : p.Cluster) (ks : Kubesim p)
        → k < m
        → Goes k ks
        → p.pods.create (next_of ks).namespace (next_of ks) ks.cluster ≡ some c
        → after_bind p ks ≡ done false (next_ks c k ks)
    unfolding after_bind next_pod simulated_pod_of change next_ks
    after_bind-next k c ks h g ok = ground (arith, inc32-pos k)

    next_pod-first :
        (c : p.Cluster) (ks : Kubesim p)
        → Goes 0 ks
        → p.pods.create (next_of ks).namespace (next_of ks) ks.cluster ≡ some c
        → next_pod p ks ≡ done tt (next_ks c 0 ks)
    unfolding next_pod simulated_pod_of change next_ks
    next_pod-first c ks g ok = ground (arith, inc32-pos 0)

    pub Emptier-placed :
        (pod : Pod p.Quantity) (node : String) (ks : Kubesim p) (c : p.Cluster)
        → held ks pod.namespace pod.name ≡ some pod
        → ((ns n : String) → p.pods.get ns n c ≡ put_pod (moved node pod) (held ks) ns n)
        → Emptier (held ks) (λ ns n. p.pods.get ns n c)
    Emptier-placed pod node ks c e view ns n k =
        ground (arith, view ns n, eq_iff pod.namespace ns, eq_iff pod.name n)

    pub Emptier-created :
        (a : Pod p.Quantity) (ks : Kubesim p) (c c' : p.Cluster)
        → Emptier (held ks) (λ ns n. p.pods.get ns n c)
        → ((ns n : String) → p.pods.get ns n c' ≡ put_pod a (λ ns n. p.pods.get ns n c) ns n)
        → Emptier (put_pod a (held ks)) (λ ns n. p.pods.get ns n c')
    Emptier-created a ks c c' h view ns n k =
        view ns n ∙ put_pod-Emptier a a (held ks) (λ ns n. p.pods.get ns n c) refl refl h ns n k

    pub close_stop_lem :
        (s : Kubesim p) → s.stop ≡ opened → close_stop p s ≡ done tt (record s { stop = closed })
    unfolding close_stop
    close_stop_lem s e = rw (e, close_stop) refl

    pub started :
        (c : p.Cluster) (ks : Kubesim p)
        → Goes 0 ks
        → p.pods.create (next_of ks).namespace (next_of ks) ks.cluster ≡ some c
        → scheduler_pod p ks
          ≡ then_do (wait_stop p ks.callbacks (next_ks c 0 ks)) (λ _. close_stop p)
    unfolding scheduler_pod next_ks
    started c ks g ok = rw (next_pod-first c ks g ok, scheduler_pod) refl
