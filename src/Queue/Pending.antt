-- ===== src/Queue/Pending.antt =====
-- The abstract queue: the jobs that wait, in the order in which `pop` returns them.
use kubesim.Prelude.{
  ◌≡◌, refl, false, none, some, List, [], ◌∷◌, String, inl, inr, str_eq, Option-cases,
}
use kubesim.Prelude.Map.{Map, lookup, erase}
use kubesim.Queue.{FifoQueue, Popped, found, err_empty_queue, pop_loop, pop, front_loop, front, get}

module _ {ℓ} {A : Type ℓ} where
  -- The live keys with their jobs, each at its first place in the slice.
  unfoldable pub pending_of : List String → Map A → List (String × A)
  pending_of [] m = []
  pending_of (k ∷ ks) m = elim (lookup k m) [
    | some group ↦ (k, group) ∷ pending_of ks (erase k m)
    | none ↦ pending_of ks m
  ]

  unfoldable pub pending : FifoQueue A → List (String × A)
  unfolding pending_of
  pending q = pending_of q.queue q.app_group

  -- What the abstract queue says of a `pop` or a `front`.
  abbrev pub Heads : List (String × A) → Popped A → Type ℓ
  Heads [] r = (k : String) × (r ≡ err_empty_queue k)
  Heads (e ∷ es) r = r ≡ found e.1 e.0

  abbrev pub rest : List (String × A) → List (String × A)
  rest [] = []
  rest (e ∷ es) = es

  pop_loop-pending :
      (key : String) (ks : List String) (m : Map A)
      → Heads (pending_of ks m) (pop_loop key ks m).0
        × (pending (pop_loop key ks m).1 ≡ rest (pending_of ks m))
  unfolding pop_loop pending
  pop_loop-pending key [] m = ((key, refl), refl)
  pop_loop-pending key (k ∷ ks) m = elim (Option-cases (lookup k m)) [
    | inl dead ↦ rw (dead, pop_loop, pending_of) (pop_loop-pending k ks m)
    | inr (g, live) ↦ rw (live, pop_loop, pending_of) (refl, refl)
  ]

  -- `pop` returns the head of the abstract queue and leaves its tail; on an empty one it returns the
  -- error, and the abstract queue stays empty.
  pub pop-pending :
      (q : FifoQueue A) → Heads (pending q) (pop q).0 × (pending (pop q).1 ≡ rest (pending q))
  unfolding pop pending
  pop-pending q = pop_loop-pending "" q.queue q.app_group

  front_loop-pending :
      (key : String) (ks : List String) (m : Map A)
      → Heads (pending_of ks m) (front_loop key ks m).0
        × (pending (front_loop key ks m).1 ≡ pending_of ks m)
        × ((front_loop key ks m).1.app_group ≡ m)
  unfolding front_loop pending
  front_loop-pending key [] m = ((key, refl), refl, refl)
  front_loop-pending key (k ∷ ks) m = elim (Option-cases (lookup k m)) [
    | inl dead ↦ rw (dead, front_loop, pending_of) (front_loop-pending k ks m)
    | inr (g, live) ↦ rw (live, front_loop, pending_of) (refl, rw (live, pending_of) refl, refl)
  ]

  -- `front` shows the job that `pop` would return, and changes neither the abstract queue nor the map.
  pub front-pending :
      (q : FifoQueue A)
      → Heads (pending q) (front q).0
        × (pending (front q).1 ≡ pending q)
        × (get (front q).1 ≡ get q)
  unfolding front pending get
  front-pending q = front_loop-pending "" q.queue q.app_group

-- The key stands nowhere in the slice, as a fresh job id does.
abbrev pub Fresh : String → List String → Type 0
Fresh k [] = Unit
Fresh k (j ∷ js) = (str_eq j k ≡ false) × Fresh k js
