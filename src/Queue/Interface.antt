-- ===== src/Queue/Interface.antt =====
-- pkg/queue/queue.go: the interface `PodQueue`, `FIFOQueue` as one that fills it, and the plain list that
-- it stands for.
use kubesim.Prelude.{◌≡◌, refl, Option, List, [], ◌∷◌, ◌++◌, String, ap, ◌∙◌, subst}
use kubesim.Prelude.Map.{Map, lookup}
use kubesim.Queue.{FifoQueue, Popped, found, err_empty_queue, new_fifo_queue, push, pop, front, get}
use kubesim.Queue.Pending.{pending_of, pending, Fresh, Heads, rest, pop-pending, front-pending}
use kubesim.Queue.Order.{
  IsCovered, new_fifo_queue-IsCovered, push-IsCovered, pop-IsCovered, front-IsCovered, pending-push,
  lookup-get,
}

-- `PodQueue`. A method changes the queue that it is called on, so each gives that back.
pub record PodQueue {ℓ} (A : Type ℓ) (Q : Type ℓ) : Type ℓ where
  pub push_to : String → A → Q → Q
  pub pop_from : Q → Popped A × Q
  pub front_of : Q → Popped A × Q
  pub get_from : Q → Map A

-- A call of one of the methods, and what its caller sees. The key beside an error is no one's, and
-- of the map that `Get` returns one key is looked up.
pub data Call {ℓ} (A : Type ℓ) : Type ℓ where
  pushing : String → A → Call A
  popping fronting : Call A
  getting : String → Call A

pub data Reply {ℓ} (A : Type ℓ) : Type ℓ where
  pushed empty : Reply A
  gave : String → A → Reply A
  maps_to : Option A → Reply A

module _ {ℓ} {A : Type ℓ} where
  -- `var _ = PodQueue(&FIFOQueue{})`
  unfoldable pub fifo_pod_queue : PodQueue A (FifoQueue A)
  fifo_pod_queue = record { push_to = push; pop_from = pop; front_of = front; get_from = get }

  abbrev head_of : List (String × A) → Popped A
  head_of [] = err_empty_queue ""
  head_of (e ∷ es) = found e.1 e.0

  -- What the interface asks for: the jobs in the order in which they were pushed.
  unfoldable pub plain_queue : PodQueue A (List (String × A))
  plain_queue = record {
    push_to = λ key group es. es ++ (key, group) ∷ [];
    pop_from = λ es. (head_of es, rest es);
    front_of = λ es. (head_of es, es);
    get_from = λ es. es;
  }

  abbrev pub shown : Popped A → Reply A
  shown (found group key) = gave key group
  shown (err_empty_queue key) = empty

  -- What a sequence of calls is answered.
  unfoldable pub serve : {Q : Type ℓ} → PodQueue A Q → List (Call A) → Q → List (Reply A)
  serve r [] q = []
  serve r (pushing key group ∷ calls) q = pushed ∷ serve r calls (r.push_to key group q)
  serve r (popping ∷ calls) q = shown (r.pop_from q).0 ∷ serve r calls (r.pop_from q).1
  serve r (fronting ∷ calls) q = shown (r.front_of q).0 ∷ serve r calls (r.front_of q).1
  serve r (getting key ∷ calls) q = maps_to (lookup key (r.get_from q)) ∷ serve r calls q

  -- No key is pushed while it stands in the slice.
  abbrev pub FreshKeys : List (Call A) → FifoQueue A → Type 0
  FreshKeys [] q = Unit
  FreshKeys (pushing key group ∷ calls) q = Fresh key q.queue × FreshKeys calls (push key group q)
  FreshKeys (popping ∷ calls) q = FreshKeys calls (pop q).1
  FreshKeys (fronting ∷ calls) q = FreshKeys calls (front q).1
  FreshKeys (getting key ∷ calls) q = FreshKeys calls q

  shown-Heads : (es : List (String × A)) (r : Popped A) → Heads es r → shown r ≡ shown (head_of es)
  shown-Heads [] r (key, e) = ap shown e
  shown-Heads (x ∷ es) r e = ap shown e

  serve-plain_queue :
      (calls : List (Call A)) (q : FifoQueue A) (es : List (String × A))
      → IsCovered q
      → FreshKeys calls q
      → pending q ≡ es
      → serve fifo_pod_queue calls q ≡ serve plain_queue calls es
  unfolding serve fifo_pod_queue plain_queue
  serve-plain_queue [] q es v f e = refl
  serve-plain_queue (pushing key group ∷ calls) q es v f e =
      ap (λ rs. pushed ∷ rs)
        (serve-plain_queue calls (push key group q) (es ++ (key, group) ∷ [])
          (push-IsCovered key group q v) f.1
          (pending-push key group q f.0 ∙ ap (λ es. es ++ (key, group) ∷ []) e))
  serve-plain_queue (popping ∷ calls) q es v f e =
      let (heads, tail) = pop-pending q in
      let same =
        serve-plain_queue calls (pop q).1 (rest es) (pop-IsCovered q v) f (tail ∙ ap rest e) in
      let here = shown-Heads es (pop q).0 (subst (λ es. Heads es (pop q).0) e heads) in
      ap (λ r. r ∷ serve fifo_pod_queue calls (pop q).1) here
      ∙ ap (λ rs. shown (head_of es) ∷ rs) same
  serve-plain_queue (fronting ∷ calls) q es v f e =
      let (heads, kept, map) = front-pending q in
      let same = serve-plain_queue calls (front q).1 es (front-IsCovered q v) f (kept ∙ e) in
      let here = shown-Heads es (front q).0 (subst (λ es. Heads es (front q).0) e heads) in
      ap (λ r. r ∷ serve fifo_pod_queue calls (front q).1) here
      ∙ ap (λ rs. shown (head_of es) ∷ rs) same
  serve-plain_queue (getting key ∷ calls) q es v f e =
      ap (λ o. maps_to o ∷ serve fifo_pod_queue calls q) (lookup-get key q v ∙ ap (lookup key) e)
      ∙ ap (λ rs. maps_to (lookup key es) ∷ rs) (serve-plain_queue calls q es v f e)

  -- Whatever methods of a new FIFOQueue are called, where no key is pushed while it stands in the slice,
  -- every call is answered as by a plain list of the jobs in the order in which they were pushed:
  -- Pop takes its head, Front shows it, both say on an empty list that it is empty, and the map of
  -- Get holds its jobs.
  pub serve-fifo_pod_queue :
      (calls : List (Call A))
      → FreshKeys calls new_fifo_queue
      → serve fifo_pod_queue calls new_fifo_queue ≡ serve plain_queue calls []
  unfolding pending pending_of new_fifo_queue
  serve-fifo_pod_queue calls f =
      serve-plain_queue calls new_fifo_queue [] new_fifo_queue-IsCovered f refl
