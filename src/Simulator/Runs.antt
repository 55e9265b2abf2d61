-- ===== src/Simulator/Runs.antt =====
-- One emulation, from the request to the report, whatever the scheduler does.
pub mod Frame
pub mod Ending
pub mod Steps
pub mod Waiting
pub mod Late
pub mod Placing
pub mod Halting
pub mod Refusing
use kubesim.Prelude.{
  ℕ, ◌+◌, ◌≤◌, ◌<◌, ◌≡◌, Bool, true, false, some, List, [], ◌∷◌, ◌++◌, String, arith, str_eq,
  eq_iff, if◌then◌else◌, length, length-append, ◌⊎◌, inl, inr, Option-cases, Bool-cases,
}
use kubesim.Prelude.Int.{pos, inc32-pos}
use kubesim.Prelude.Text.{Text}
use kubesim.Prelude.Exec.{Outcome, done, fails, panics, blocks, Exec, then_do, pure}
use kubesim.Platform.{Platform, Pod, PodCondition}
use kubesim.Report.{Status}
use kubesim.Simulator.{Kubesim, opened, closed, Callback, binds, updates}
use kubesim.Simulator.Pods.{
  schedulable, unschedulable, change, close, next_pod, after_bind, status_back, bind, update,
  update_conditions, callback,
}

module _ (p : Platform) (m : ℕ) where
  -- A run for `m` replicas that waits for the scheduler: one pod more was created than placed.
  pub record Running (ks : Kubesim p) : Type 0 where
    pub template : (pod : Pod p.Quantity) × (ks.simulated_pod ≡ some pod)
    pub limit : ks.max_simulated ≡ pos m
    pub count : ks.simulated ≡ pos (length ks.status.pods + 1)
    pub room : length ks.status.pods < m
    pub bounded : m < 2147483648
    pub waiting : ks.stop ≡ opened
    pub channels :
        (ks.closed ≡ true) ⊎ ((ks.scheduler_ch ≡ opened) × (ks.informer_stop_ch ≡ opened))

  -- The run after a pod was placed and before the next step of `Bind`.
  record Placed (ks : Kubesim p) : Type 0 where
    template : (pod : Pod p.Quantity) × (ks.simulated_pod ≡ some pod)
    limit : ks.max_simulated ≡ pos m
    count : ks.simulated ≡ pos (length ks.status.pods)
    room : length ks.status.pods ≤ m
    some_pods : 0 < length ks.status.pods
    bounded : m < 2147483648
    waiting : ks.stop ≡ opened
    channels : (ks.closed ≡ true) ⊎ ((ks.scheduler_ch ≡ opened) × (ks.informer_stop_ch ≡ opened))

  -- How a run ends: all replicas placed, or fewer and a message of the scheduler.
  abbrev pub Ended : Text → Status p.Quantity → Type 0
  Ended msg s =
      ((length s.pods ≡ m) × (s.stop_reason ≡ schedulable (pos m)))
      ⊎ ((length s.pods < m) × (s.stop_reason ≡ unschedulable "Unschedulable" msg))

  pub record Finished (msg : Text) (ks : Kubesim p) : Type 0 where
    pub template : (pod : Pod p.Quantity) × (ks.simulated_pod ≡ some pod)
    pub limit : ks.max_simulated ≡ pos m
    pub bounded : m < 2147483648
    pub waiting : ks.stop ≡ opened
    pub ended : Ended msg ks.status

  abbrev Told : Text → Bool → Kubesim p → Type 0
  Told msg true s = Finished msg s
  Told msg false s = Running s

  -- A bind attempt may fail, and then the run still waits; it never panics or blocks.
  abbrev Tries : Text → Outcome (Kubesim p) Bool → Type 0
  Tries msg (done told s) = Told msg told s
  Tries msg (fails e s) = Running s
  Tries msg panics = ⊥
  Tries msg blocks = ⊥

  -- A callback never fails, panics or blocks.
  abbrev Keeps : Text → Outcome (Kubesim p) Bool → Type 0
  Keeps msg (done told s) = Told msg told s
  Keeps msg (fails e s) = ⊥
  Keeps msg panics = ⊥
  Keeps msg blocks = ⊥

  abbrev pub after_close : Kubesim p → Kubesim p
  after_close ks =
      if ks.closed
      then ks
      else record ks { scheduler_ch = closed; informer_stop_ch = closed; closed = true }

  abbrev pub CanClose : Kubesim p → Type 0
  CanClose ks = (ks.closed ≡ true) ⊎ ((ks.scheduler_ch ≡ opened) × (ks.informer_stop_ch ≡ opened))

  after_bind-Keeps : (ks : Kubesim p) → Placed ks → Tries [] (after_bind p ks)
  unfolding after_bind
  after_bind-Keeps ks v = ground (arith, inc32-pos (length ks.status.pods))

  append-Placed :
      (ks : Kubesim p) (c : p.Cluster) (pod : Pod p.Quantity)
      → Running ks
      → Placed (record ks {
        cluster = c;
        status = record (ks.status) { pods = ks.status.pods ++ pod ∷ [] };
      })
  append-Placed ks c pod v = grind (arith, length-append ks.status.pods (pod ∷ []))

  bind-Keeps :
      (pod : Pod p.Quantity) (node : String) (ks : Kubesim p)
      → Running ks
      → Tries [] (bind p pod node ks)
  unfolding bind
  bind-Keeps pod node ks v = elim (Option-cases (p.pods.get pod.namespace pod.name ks.cluster)) [
    | inl missing ↦ rw (missing, bind) v
    | inr (found, e) ↦
        rw (e, bind)
          (elim (Option-cases (p.pods.update found.namespace (moved found) ks.cluster)) [
            | inl refused ↦ rw (refused, change) v
            | inr (c, ok) ↦
                rw (ok, change) (after_bind-Keeps _ (append-Placed ks c (moved found) v))
          ])
  ]
    where
      moved : Pod p.Quantity → Pod p.Quantity
      moved found = record found { node_name = node; phase = "Running" }

  update-Keeps :
      (pod : Pod p.Quantity) (c : PodCondition) (ks : Kubesim p)
      → Running ks
      → Keeps c.message (update p pod c ks)
  unfolding update
  update-Keeps pod c ks v = ground (arith, eq_iff c.reason "Unschedulable")

  abbrev SomeKeeps : Outcome (Kubesim p) Bool → Type 0
  SomeKeeps o = (msg : Text) × Keeps msg o

  go_on-Keeps :
      (o : Outcome (Kubesim p) Bool) (rest : Exec (Kubesim p) Bool)
      → SomeKeeps o
      → ((s : Kubesim p) → Running s → SomeKeeps (rest s))
      → SomeKeeps (then_do o (λ told. if told then pure true else rest))
  go_on-Keeps (done true s) rest k h = k
  go_on-Keeps (done false s) rest k h = h s k.1
  go_on-Keeps (fails e s) rest k h = absurd k.1
  go_on-Keeps panics rest k h = absurd k.1
  go_on-Keeps blocks rest k h = absurd k.1

  update_conditions-Keeps :
      (pod : Pod p.Quantity) (cs : List PodCondition) (ks : Kubesim p)
      → Running ks
      → SomeKeeps (update_conditions p pod cs ks)
  unfolding update_conditions
  update_conditions-Keeps pod [] ks v = ([], v)
  update_conditions-Keeps pod (c ∷ cs) ks v =
      go_on-Keeps ((if str_eq c.kind "PodScheduled" then update p pod c else pure false) ks)
        (update_conditions p pod cs) (here (str_eq c.kind "PodScheduled"))
        (update_conditions-Keeps pod cs)
    where
      here : (b : Bool) → SomeKeeps ((if b then update p pod c else pure false) ks)
      here true = (c.message, update-Keeps pod c ks v)
      here false = ([], v)

  status_back-Keeps : (o : Outcome (Kubesim p) Bool) → Tries [] o → Keeps [] (status_back p o)
  status_back-Keeps (done told s) k = k
  status_back-Keeps (fails e s) k = k
  status_back-Keeps panics k = k
  status_back-Keeps blocks k = k

  -- A callback of the scheduler, whatever pod, node or condition it brings, leaves the run waiting
  -- or ends it; it neither panics nor blocks.
  callback-Keeps :
      (c : Callback p.Quantity) (ks : Kubesim p) → Running ks → SomeKeeps (callback p c ks)
  unfolding callback
  callback-Keeps (binds pod node) ks v =
      ([], status_back-Keeps (bind p pod node ks) (bind-Keeps pod node ks v))
  callback-Keeps (updates pod) ks v =
      elim (Bool-cases (str_eq pod.scheduler_name ks.default_scheduler_name)) [
        | inl ours ↦ rw (ours, callback) (update_conditions-Keeps pod pod.conditions ks v)
        | inr other ↦ rw (other, callback) ([], v)
      ]

  -- A wait ends a run; it may block, and neither fails nor panics.
  abbrev pub Waits : Outcome (Kubesim p) Unit → Type 0
  Waits (done u s) = (msg : Text) × Finished msg s
  Waits (fails e s) = ⊥
  Waits panics = ⊥
  Waits blocks = Unit

  -- The pod of a request, a limit of at least one replica, and no pods of an earlier run.
  pub record Ready (ks : Kubesim p) : Type 0 where
    pub template : (pod : Pod p.Quantity) × (ks.simulated_pod ≡ some pod)
    pub limit : ks.max_simulated ≡ pos m
    pub count : ks.simulated ≡ pos 0
    pub positive : 0 < m
    pub bounded : m < 2147483648
    pub no_pods : ks.status.pods ≡ []
    pub waiting : ks.stop ≡ opened
    pub channels :
        (ks.closed ≡ true) ⊎ ((ks.scheduler_ch ≡ opened) × (ks.informer_stop_ch ≡ opened))

  -- The first pod is refused by the clientset, or the run waits.
  abbrev pub Started : Outcome (Kubesim p) Unit → Type 0
  Started (done u s) = Running s
  Started (fails e s) = Running s
  Started panics = ⊥
  Started blocks = ⊥

  pub next_pod-Started : (ks : Kubesim p) → Ready ks → Started (next_pod p ks)
  unfolding next_pod
  next_pod-Started ks v = ground (arith, inc32-pos 0)
