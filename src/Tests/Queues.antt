-- ===== src/Tests/Queues.antt =====
-- The queue with two jobs.
use kubesim.Prelude.{◌≡◌, refl, some, none, List, [], ◌∷◌, ◌++◌, String}
use kubesim.Prelude.Map.{lookup, insert, erase}
use kubesim.Queue.{FifoQueue, found, new_fifo_queue, push, pop, front, get}
use kubesim.Queue.Pending.{pending, Heads, rest, pop-pending}
use kubesim.Queue.Interface.{
  Call, pushing, popping, fronting, getting, pushed, empty, gave, maps_to, fifo_pod_queue,
  plain_queue, serve, FreshKeys, serve-fifo_pod_queue,
}
use kubesim.Queue.Order.{pending-push, start, next, pushes, pops, Reach-lookup_get}

abbrev two_jobs : FifoQueue String
two_jobs = record {
  app_group = ("b", "second") ∷ ("a", "first") ∷ [];
  queue = "gone" ∷ "a" ∷ "b" ∷ [];
}

popped : (pop two_jobs).0 ≡ found "first" "a"
unfolding pop lookup
popped = refl

pop-pending_example :
    Heads (pending two_jobs) (pop two_jobs).0 × (pending (pop two_jobs).1 ≡ rest (pending two_jobs))
pop-pending_example = pop-pending two_jobs

pending-push_example : pending (push "c" "third" two_jobs) ≡ pending two_jobs ++ ("c", "third") ∷ []
pending-push_example = pending-push "c" "third" two_jobs (refl, (refl, (refl, tt)))

Reach-lookup_get_example :
    lookup "b" (get (pop (push "b" "second" (push "a" "first" (new_fifo_queue {A = String})))).1)
    ≡ lookup "b"
        (pending (pop (push "b" "second" (push "a" "first" (new_fifo_queue {A = String})))).1)
Reach-lookup_get_example =
    Reach-lookup_get (pop (push "b" "second" (push "a" "first" new_fifo_queue))).1 "b" (
      next
        (next (next start (pushes "a" "first" new_fifo_queue))
          (pushes "b" "second" (push "a" "first" new_fifo_queue)))
        (pops (push "b" "second" (push "a" "first" new_fifo_queue))))

abbrev some_calls : List (Call String)
some_calls =
    popping
    ∷ pushing "a" "first"
    ∷ pushing "b" "second"
    ∷ fronting
    ∷ getting "b"
    ∷ popping
    ∷ getting "a"
    ∷ pushing "a" "third"
    ∷ popping
    ∷ popping
    ∷ []

some_replies :
    serve fifo_pod_queue some_calls new_fifo_queue
    ≡ empty
      ∷ pushed
      ∷ pushed
      ∷ gave "a" "first"
      ∷ maps_to (some "second")
      ∷ gave "a" "first"
      ∷ maps_to none
      ∷ pushed
      ∷ gave "b" "second"
      ∷ gave "a" "third"
      ∷ []
unfolding serve fifo_pod_queue push pop front get lookup new_fifo_queue insert erase
some_replies = refl

some_keys : FreshKeys some_calls new_fifo_queue
unfolding push pop front get lookup new_fifo_queue insert erase
some_keys = (tt, ((refl, tt), ((refl, tt), tt)))

serve-fifo_pod_queue_example :
    serve fifo_pod_queue some_calls new_fifo_queue ≡ serve plain_queue some_calls []
serve-fifo_pod_queue_example = serve-fifo_pod_queue some_calls some_keys
