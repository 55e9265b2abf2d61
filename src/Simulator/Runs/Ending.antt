-- ===== src/Simulator/Runs/Ending.antt =====
-- When the wait for the scheduler ends.
use kubesim.Prelude.{
  ℕ, ◌≡◌, Bool, true, false, List, [], ◌∷◌, String, arith, ◌⊎◌, inl, inr, str_eq, eq_iff,
  if◌then◌else◌, ◌∙◌, sym,
}
use kubesim.Prelude.Exec.{Outcome, done, fails, panics, blocks, Exec, then_do, pure, modify}
use kubesim.Platform.{Platform, Pod, PodCondition}
use kubesim.Simulator.{Kubesim, Callback, binds, updates}
use kubesim.Simulator.Pods.{update, update_conditions, callback, wait_stop, has_annotation}
use kubesim.Simulator.Runs.Frame.{Framed, KeepsFrame, callback-KeepsFrame}
use kubesim.Simulator.Runs.{Running, SomeKeeps, callback-Keeps, update-Keeps}

-- The outcome is an end: not a wait for good.
abbrev pub Ends : {S A : Type 0} → Outcome S A → Type 0
Ends blocks = ⊥
Ends _ = Unit

-- A condition by which the scheduler says that a pod fits nowhere.
abbrev pub Stops : PodCondition → Type 0
Stops c =
    (str_eq c.kind "PodScheduled" ≡ true)
    × (str_eq c.status "False" ≡ true)
    × (str_eq c.reason "Unschedulable" ≡ true)

abbrev pub AnyStops : List PodCondition → Type 0
AnyStops [] = ⊥
AnyStops (c ∷ cs) = Stops c ⊎ AnyStops cs

module _ {Q : Type 0} (name : String) where
  -- The scheduler gives up on one of the pods that kubesim made.
  abbrev pub GivesUp : List (Callback Q) → Type 0
  GivesUp [] = ⊥
  GivesUp (binds pod node ∷ cs) = GivesUp cs
  GivesUp (updates pod ∷ cs) =
      ((pod.scheduler_name ≡ name)
        × (has_annotation pod "kubesim.kubernetes.io/provisioned" ≡ true)
        × AnyStops pod.conditions)
      ⊎ GivesUp cs

module _ (p : Platform) (m : ℕ) where
  -- The emulator is told to stop.
  abbrev Tells : Outcome (Kubesim p) Bool → Type 0
  Tells (done true s) = Unit
  Tells _ = ⊥

  update-Tells :
      (pod : Pod p.Quantity) (c : PodCondition) (ks : Kubesim p)
      → Running p m ks
      → Stops c
      → has_annotation pod "kubesim.kubernetes.io/provisioned" ≡ true
      → Tells (update p pod c ks)
  unfolding update
  update-Tells pod c ks v stops ours = ground arith

  go_on-Tells :
      (o : Outcome (Kubesim p) Bool) (rest : Exec (Kubesim p) Bool)
      → SomeKeeps p m o
      → ((s : Kubesim p) → Running p m s → Tells (rest s))
      → Tells (then_do o (λ told. if told then pure true else rest))
  go_on-Tells (done true s) rest k h = tt
  go_on-Tells (done false s) rest k h = h s k.1
  go_on-Tells (fails e s) rest k h = absurd k.1
  go_on-Tells panics rest k h = absurd k.1
  go_on-Tells blocks rest k h = absurd k.1

  told-Tells :
      (o : Outcome (Kubesim p) Bool) (rest : Exec (Kubesim p) Bool)
      → Tells o
      → Tells (then_do o (λ told. if told then pure true else rest))
  told-Tells (done true s) rest k = tt
  told-Tells (done false s) rest k = absurd k
  told-Tells (fails e s) rest k = absurd k
  told-Tells panics rest k = absurd k
  told-Tells blocks rest k = absurd k

  update_conditions-Tells :
      (pod : Pod p.Quantity) (cs : List PodCondition) (ks : Kubesim p)
      → Running p m ks
      → AnyStops cs
      → has_annotation pod "kubesim.kubernetes.io/provisioned" ≡ true
      → Tells (update_conditions p pod cs ks)
  unfolding update_conditions
  update_conditions-Tells pod [] ks v any ours = absurd any
  update_conditions-Tells pod (c ∷ cs) ks v (inl stops) ours =
      rw (stops.0, update_conditions)
        (told-Tells (update p pod c ks) (update_conditions p pod cs)
          (update-Tells pod c ks v stops ours))
  update_conditions-Tells pod (c ∷ cs) ks v (inr any) ours =
      go_on-Tells ((if str_eq c.kind "PodScheduled" then update p pod c else pure false) ks)
        (update_conditions p pod cs) (here (str_eq c.kind "PodScheduled"))
        (λ s w. update_conditions-Tells pod cs s w any ours)
    where
      here : (b : Bool) → SomeKeeps p m ((if b then update p pod c else pure false) ks)
      here true = (c.message, update-Keeps p m pod c ks v)
      here false = ([], v)

  module _ (base : Kubesim p) where
    wait_on-Ends :
        (o : Outcome (Kubesim p) Bool) (cs : List (Callback p.Quantity))
        (rest : Exec (Kubesim p) Unit)
        → SomeKeeps p m o
        → KeepsFrame p base o
        → ((s : Kubesim p) → Running p m s → Framed p base s → Ends (rest s))
        → Ends
            (then_do o (λ told. if told then modify (λ s. record s { callbacks = cs }) else rest))
    wait_on-Ends (done true s) cs rest k n h = tt
    wait_on-Ends (done false s) cs rest k n h = h s k.1 n
    wait_on-Ends (fails e s) cs rest k n h = tt
    wait_on-Ends panics cs rest k n h = tt
    wait_on-Ends blocks cs rest k n h = absurd k.1

    told-Ends :
        (o : Outcome (Kubesim p) Bool) (cs : List (Callback p.Quantity))
        (rest : Exec (Kubesim p) Unit)
        → Tells o
        → Ends
            (then_do o (λ told. if told then modify (λ s. record s { callbacks = cs }) else rest))
    told-Ends (done true s) cs rest k = tt
    told-Ends (done false s) cs rest k = absurd k
    told-Ends (fails e s) cs rest k = tt
    told-Ends panics cs rest k = tt
    told-Ends blocks cs rest k = absurd k

    callback-Tells :
        (pod : Pod p.Quantity) (ks : Kubesim p)
        → Running p m ks
        → Framed p base ks
        → pod.scheduler_name ≡ base.default_scheduler_name
        → has_annotation pod "kubesim.kubernetes.io/provisioned" ≡ true
        → AnyStops pod.conditions
        → Tells (callback p (updates pod) ks)
    unfolding callback
    callback-Tells pod ks v n e ours any =
        rw (eq_iff_true, callback) (update_conditions-Tells pod pod.conditions ks v any ours)
      where
        eq_iff_true : str_eq pod.scheduler_name ks.default_scheduler_name ≡ true
        eq_iff_true = (eq_iff _ _).1 (e ∙ sym n.0)

    -- A run for the scheduler of this state does not wait for good, if among the calls that the
    -- scheduler will make is an answer that some pod of kubesim is unschedulable.
    pub wait_stop-Ends :
        (cs : List (Callback p.Quantity)) (ks : Kubesim p)
        → Running p m ks
        → Framed p base ks
        → GivesUp base.default_scheduler_name cs
        → Ends (wait_stop p cs ks)
    unfolding wait_stop
    wait_stop-Ends [] ks v n any = any
    wait_stop-Ends (binds pod node ∷ cs) ks v n any =
        wait_on-Ends (callback p (binds pod node) ks) cs (wait_stop p cs)
          (callback-Keeps p m (binds pod node) ks v)
          (callback-KeepsFrame p base (binds pod node) ks n) λ s w k. wait_stop-Ends cs s w k any
    wait_stop-Ends (updates pod ∷ cs) ks v n (inl (e, ours, any)) =
        told-Ends (callback p (updates pod) ks) cs (wait_stop p cs)
          (callback-Tells pod ks v n e ours any)
    wait_stop-Ends (updates pod ∷ cs) ks v n (inr any) =
        wait_on-Ends (callback p (updates pod) ks) cs (wait_stop p cs)
          (callback-Keeps p m (updates pod) ks v) (callback-KeepsFrame p base (updates pod) ks n)
          λ s w k. wait_stop-Ends cs s w k any
