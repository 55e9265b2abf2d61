-- ===== src/Simulator/Runs/Frame.antt =====
-- What a run leaves alone: the name of the scheduler, the results of jobs, and the queue.
use kubesim.Prelude.{
  ◌≡◌, Bool, true, false, List, [], ◌∷◌, ◌++◌, String, arith, inl, inr, str_eq, if◌then◌else◌,
  Bool-cases, Option-cases,
}
use kubesim.Prelude.Exec.{Outcome, done, fails, panics, blocks, Exec, then_do, pure}
use kubesim.Platform.{Platform, Pod, PodCondition}
use kubesim.Simulator.{Kubesim, Callback, binds, updates}
use kubesim.Simulator.Pods.{
  change, close, after_bind, bind, update, update_conditions, callback, status_back,
}

module _ (p : Platform) (base : Kubesim p) where
  -- The name of the scheduler, the results and the queue are as before.
  abbrev pub Framed : Kubesim p → Type 0
  Framed s =
      (s.default_scheduler_name ≡ base.default_scheduler_name)
      × (s.emulator_result ≡ base.emulator_result)
      × (s.fifo_queue ≡ base.fifo_queue)

  abbrev pub KeepsFrame : {A : Type 0} → Outcome (Kubesim p) A → Type 0
  KeepsFrame (done a s) = Framed s
  KeepsFrame (fails e s) = Framed s
  KeepsFrame panics = Unit
  KeepsFrame blocks = Unit

  pub then_do-KeepsFrame :
      {A B : Type 0} (o : Outcome (Kubesim p) A) (f : A → Exec (Kubesim p) B)
      → KeepsFrame o
      → ((a : A) (s : Kubesim p) → Framed s → KeepsFrame (f a s))
      → KeepsFrame (then_do o f)
  then_do-KeepsFrame (done a s) f k h = h a s k
  then_do-KeepsFrame (fails e s) f k h = k
  then_do-KeepsFrame panics f k h = tt
  then_do-KeepsFrame blocks f k h = tt

  pub close-KeepsFrame : (s : Kubesim p) → Framed s → KeepsFrame (close p s)
  unfolding close
  close-KeepsFrame s k = ground arith

  after_bind-KeepsFrame : (s : Kubesim p) → Framed s → KeepsFrame (after_bind p s)
  unfolding after_bind
  after_bind-KeepsFrame s k = ground arith

  bind-KeepsFrame :
      (pod : Pod p.Quantity) (node : String) (s : Kubesim p)
      → Framed s
      → KeepsFrame (bind p pod node s)
  unfolding bind
  bind-KeepsFrame pod node s k = elim (Option-cases (p.pods.get pod.namespace pod.name s.cluster)) [
    | inl missing ↦ rw (missing, bind) k
    | inr (found, e) ↦
        let moved = record found { node_name = node; phase = "Running" } in
        rw (e, bind)
          (elim (Option-cases (p.pods.update found.namespace moved s.cluster)) [
            | inl refused ↦ rw (refused, change) k
            | inr (c, ok) ↦
                rw (ok, change)
                  (after_bind-KeepsFrame
                    (record s {
                      cluster = c;
                      status = record (s.status) { pods = s.status.pods ++ moved ∷ [] };
                    })
                    k)
          ])
  ]

  update-KeepsFrame :
      (pod : Pod p.Quantity) (c : PodCondition) (s : Kubesim p)
      → Framed s
      → KeepsFrame (update p pod c s)
  unfolding update
  update-KeepsFrame pod c s k = ground arith

  update_conditions-KeepsFrame :
      (pod : Pod p.Quantity) (cs : List PodCondition) (s : Kubesim p)
      → Framed s
      → KeepsFrame (update_conditions p pod cs s)
  unfolding update_conditions
  update_conditions-KeepsFrame pod [] s k = k
  update_conditions-KeepsFrame pod (c ∷ cs) s k =
      then_do-KeepsFrame ((if str_eq c.kind "PodScheduled" then update p pod c else pure false) s) _
        (here (str_eq c.kind "PodScheduled"))
        (next (update_conditions p pod cs) (update_conditions-KeepsFrame pod cs))
    where
      here : (b : Bool) → KeepsFrame ((if b then update p pod c else pure false) s)
      here true = update-KeepsFrame pod c s k
      here false = k

      next :
          (rest : Exec (Kubesim p) Bool)
          → ((s' : Kubesim p) → Framed s' → KeepsFrame (rest s'))
          → (told : Bool) (s' : Kubesim p) → Framed s'
          → KeepsFrame ((if told then pure true else rest) s')
      next rest h true s' k' = k'
      next rest h false s' k' = h s' k'

  status_back-KeepsFrame :
      (o : Outcome (Kubesim p) Bool) → KeepsFrame o → KeepsFrame (status_back p o)
  status_back-KeepsFrame (done told s) k = k
  status_back-KeepsFrame (fails e s) k = k
  status_back-KeepsFrame panics k = k
  status_back-KeepsFrame blocks k = k

  pub callback-KeepsFrame :
      (c : Callback p.Quantity) (s : Kubesim p) → Framed s → KeepsFrame (callback p c s)
  unfolding callback
  callback-KeepsFrame (binds pod node) s k =
      status_back-KeepsFrame (bind p pod node s) (bind-KeepsFrame pod node s k)
  callback-KeepsFrame (updates pod) s k =
      elim (Bool-cases (str_eq pod.scheduler_name s.default_scheduler_name)) [
        | inl ours ↦ rw (ours, callback) (update_conditions-KeepsFrame pod pod.conditions s k)
        | inr other ↦ rw (other, callback) k
      ]
