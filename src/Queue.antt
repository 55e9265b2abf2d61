-- ===== src/Queue.antt =====
-- pkg/queue/fifo.go: the queue of emulation jobs, a slice of keys beside a map from keys to jobs.
-- `A` is the job (`utils.AppGroup`). A key that the map has lost is skipped by `pop` and `front`.
-- The mutex makes each operation one step, so an operation is a function of the queue's value.
pub mod Pending
pub mod Order
pub mod Interface
use kubesim.Prelude.{Option, none, some, List, [], ◌∷◌, ◌++◌, String}
use kubesim.Prelude.Map.{Map, lookup, insert, erase}

pub record FifoQueue {ℓ} (A : Type ℓ) : Type ℓ where
  pub app_group : Map A
  pub queue : List String

-- The error is `ErrEmptyQueue`.
pub data Popped {ℓ} (A : Type ℓ) : Type ℓ where
  found : A → String → Popped A
  err_empty_queue : String → Popped A

module _ {ℓ} {A : Type ℓ} where
  unfoldable pub new_fifo_queue : FifoQueue A
  new_fifo_queue = record { app_group = []; queue = [] }

  unfoldable pub push : String → A → FifoQueue A → FifoQueue A
  push key group q = record {
    app_group = insert key group q.app_group;
    queue = q.queue ++ key ∷ [];
  }

  -- The loop of `Pop`, over the keys that are left; `key` is the last one taken.
  unfoldable pub pop_loop : String → List String → Map A → Popped A × FifoQueue A
  pop_loop key [] m = (err_empty_queue key, record { app_group = m; queue = [] })
  pop_loop key (k ∷ ks) m = elim (lookup k m) [
    | some group ↦ (found group k, record { app_group = erase k m; queue = ks })
    | none ↦ pop_loop k ks m
  ]

  unfoldable pub pop : FifoQueue A → Popped A × FifoQueue A
  unfolding pop_loop
  pop q = pop_loop "" q.queue q.app_group

  -- The loop of `Front`: a dead key is dropped, a live one stays.
  unfoldable pub front_loop : String → List String → Map A → Popped A × FifoQueue A
  front_loop key [] m = (err_empty_queue key, record { app_group = m; queue = [] })
  front_loop key (k ∷ ks) m = elim (lookup k m) [
    | some group ↦ (found group k, record { app_group = m; queue = k ∷ ks })
    | none ↦ front_loop k ks m
  ]

  unfoldable pub front : FifoQueue A → Popped A × FifoQueue A
  unfolding front_loop
  front q = front_loop "" q.queue q.app_group

  -- `Get` hands out the map itself; its one caller reads it.
  unfoldable pub get : FifoQueue A → Map A
  get q = q.app_group
