-- ===== src/Queue/Order.antt =====
-- First in, first out, and the map against the slice.
use kubesim.Prelude.{
  ◌≡◌, refl, false, none, some, List, [], ◌∷◌, ◌++◌, String, inl, inr, arith, if◌then◌else◌, str_eq,
  eq_iff, Option-cases, sym, subst, ap, ◌∙◌,
}
use kubesim.Prelude.Map.{Map, lookup, insert, erase, lookup-erase, lookup-insert}
use kubesim.Queue.{FifoQueue, found, new_fifo_queue, push, pop, pop_loop, front, front_loop, get}
use kubesim.Queue.Pending.{pending_of, pending, Fresh, Heads, pop-pending}

Fresh-append :
    (j k : String) (ks : List String) → Fresh j (ks ++ k ∷ []) → Fresh j ks × (str_eq k j ≡ false)
Fresh-append j k [] f = (tt, f.0)
Fresh-append j k (i ∷ ks) f = let r = Fresh-append j k ks f.1 in ((f.0, r.0), r.1)

module _ {ℓ} {A : Type ℓ} where
  pending_of-push :
      (ks : List String) (k : String) (g : A) (m m' : Map A)
      → ((j : String) → lookup j m' ≡ (if str_eq k j then some g else lookup j m))
      → Fresh k ks
      → pending_of (ks ++ k ∷ []) m' ≡ pending_of ks m ++ (k, g) ∷ []
  unfolding pending_of
  pending_of-push [] k g m m' h f = ground (arith, h k, eq_iff k k)
  pending_of-push (i ∷ ks) k g m m' h (ne, f) = ground (
    arith,
    h i,
    eq_iff k i,
    eq_iff i k,
    pending_of-push ks k g m m' h f,
    pending_of-push ks k g (erase i m) (erase i m') after_erase f,
  )
    where
      after_erase :
          (j : String)
          → lookup j (erase i m') ≡ (if str_eq k j then some g else lookup j (erase i m))
      after_erase j =
          rw (lookup-erase i j m', lookup-erase i j m)
            (ground (arith, h j, eq_iff i j, eq_iff k j, eq_iff i k))

  -- A job under a fresh key goes to the end of the abstract queue, so jobs come out in the order in
  -- which they were pushed.
  pub pending-push :
      (k : String) (g : A) (q : FifoQueue A)
      → Fresh k q.queue
      → pending (push k g q) ≡ pending q ++ (k, g) ∷ []
  unfolding pending push
  pending-push k g q f =
      pending_of-push q.queue k g q.app_group (insert k g q.app_group)
        (λ j. lookup-insert k j g q.app_group) f

  -- A job that is pushed to an empty queue is the next to come out.
  pub pop-push :
      (k : String) (g : A) (q : FifoQueue A)
      → pending q ≡ []
      → Fresh k q.queue
      → (pop (push k g q)).0 ≡ found g k
  pop-push k g q idle fresh =
      subst (λ es. Heads es (pop (push k g q)).0)
        (pending-push k g q fresh ∙ ap (λ es. es ++ (k, g) ∷ []) idle) (pop-pending (push k g q)).0

  -- Every key of the map stands in the slice.
  pub record IsCovered (q : FifoQueue A) : Type ℓ where
    pub covered : (k : String) → Fresh k q.queue → lookup k q.app_group ≡ none

  pub new_fifo_queue-IsCovered : IsCovered new_fifo_queue
  unfolding new_fifo_queue lookup
  new_fifo_queue-IsCovered = record { covered = λ k f. refl }

  pub push-IsCovered : (k : String) (g : A) (q : FifoQueue A) → IsCovered q → IsCovered (push k g q)
  unfolding push
  push-IsCovered k g q v = record {
    covered = λ j f.
        rw (lookup-insert k j g q.app_group, (Fresh-append j k q.queue f).1)
          (v.covered j (Fresh-append j k q.queue f).0);
  }

  pop_loop-IsCovered :
      (key : String) (ks : List String) (m : Map A)
      → ((k : String) → Fresh k ks → lookup k m ≡ none)
      → (k : String) → Fresh k (pop_loop key ks m).1.queue
      → lookup k (pop_loop key ks m).1.app_group ≡ none
  unfolding pop_loop
  pop_loop-IsCovered key [] m h = h
  pop_loop-IsCovered key (j ∷ js) m h = elim (Option-cases (lookup j m)) [
    | inl dead ↦
        rw (dead, pop_loop) (pop_loop-IsCovered j js m λ k f. ground (arith, eq_iff j k, h k))
    | inr (g, live) ↦ rw (live, pop_loop) λ k f. rw (lookup-erase j k m) (ground (arith, h k))
  ]

  pub pop-IsCovered : (q : FifoQueue A) → IsCovered q → IsCovered (pop q).1
  unfolding pop
  pop-IsCovered q v = record { covered = pop_loop-IsCovered "" q.queue q.app_group v.covered }

  front_loop-IsCovered :
      (key : String) (ks : List String) (m : Map A)
      → ((k : String) → Fresh k ks → lookup k m ≡ none)
      → (k : String) → Fresh k (front_loop key ks m).1.queue
      → lookup k (front_loop key ks m).1.app_group ≡ none
  unfolding front_loop
  front_loop-IsCovered key [] m h = h
  front_loop-IsCovered key (j ∷ js) m h = elim (Option-cases (lookup j m)) [
    | inl dead ↦
        rw (dead, front_loop) (front_loop-IsCovered j js m λ k f. ground (arith, eq_iff j k, h k))
    | inr (g, live) ↦ rw (live, front_loop) h
  ]

  pub front-IsCovered : (q : FifoQueue A) → IsCovered q → IsCovered (front q).1
  unfolding front
  front-IsCovered q v = record { covered = front_loop-IsCovered "" q.queue q.app_group v.covered }

  lookup-pending_of :
      (k : String) (ks : List String) (m : Map A)
      → (Fresh k ks → lookup k m ≡ none)
      → lookup k (pending_of ks m) ≡ lookup k m
  unfolding pending_of lookup
  lookup-pending_of k [] m h = sym (h tt)
  lookup-pending_of k (j ∷ js) m h = ground (
    arith,
    eq_iff j k,
    lookup-erase j k m,
    lookup-pending_of k js m,
    lookup-pending_of k js (erase j m),
    h,
  )

  -- In a covered queue the map that `Get` returns holds just the jobs that wait, each with the job
  -- that `pop` will return for its key.
  pub lookup-get :
      (k : String) (q : FifoQueue A) → IsCovered q → lookup k (get q) ≡ lookup k (pending q)
  unfolding get pending
  lookup-get k q v = sym (lookup-pending_of k q.queue q.app_group (v.covered k))

-- The operations of the queue, as a relation between its values.
pub data Step {ℓ} {A : Type ℓ} : FifoQueue A → FifoQueue A → Type ℓ where
  pushes : (k : String) (g : A) (q : FifoQueue A) → Step q (push k g q)
  pops : (q : FifoQueue A) → Step q (pop q).1
  fronts : (q : FifoQueue A) → Step q (front q).1

pub data Reach {ℓ} {A : Type ℓ} : FifoQueue A → Type ℓ where
  start : Reach new_fifo_queue
  next : {q r : FifoQueue A} → Reach q → Step q r → Reach r

Step-IsCovered {ℓ} : {A : Type ℓ} {q r : FifoQueue A} → Step q r → IsCovered q → IsCovered r
Step-IsCovered (pushes k g q) v = push-IsCovered k g q v
Step-IsCovered (pops q) v = pop-IsCovered q v
Step-IsCovered (fronts q) v = front-IsCovered q v

-- Whatever sequence of pushes, pops and fronts a queue has been through, every key of its map stands
-- in its slice.
pub Reach-IsCovered {ℓ} : {A : Type ℓ} {q : FifoQueue A} → Reach q → IsCovered q
Reach-IsCovered start = new_fifo_queue-IsCovered
Reach-IsCovered (next r s) = Step-IsCovered s (Reach-IsCovered r)

-- After any pushes, pops and fronts the map that `Get` returns holds just the jobs that wait, each
-- with the job that `pop` will return for its key.
pub Reach-lookup_get {ℓ} :
    {A : Type ℓ} (q : FifoQueue A) (k : String) → Reach q → lookup k (get q) ≡ lookup k (pending q)
Reach-lookup_get q k r = lookup-get k q (Reach-IsCovered r)
