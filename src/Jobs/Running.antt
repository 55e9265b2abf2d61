-- ===== src/Jobs/Running.antt =====
-- Rounds of the job loop.
use kubesim.Prelude.{ℕ, ◌≡◌, refl, List, [], ◌∷◌, String}
use kubesim.Prelude.Exec.{panics, then_do}
use kubesim.Platform.{Platform}
use kubesim.Queue.{found, push, pop}
use kubesim.Queue.Pending.{pending, Fresh}
use kubesim.Queue.Order.{pop-push}
use kubesim.Utils.{AppGroup, PodRequest}
use kubesim.Simulator.{Kubesim}
use kubesim.Simulator.Pods.{next_pod, scheduler_pod}
use kubesim.Simulator.Emulators.{emulate_apps, horizontal_emulator}
use kubesim.Jobs.{RealApps, no_group, submit, submit_horizontal, run_group, run_round, zero_request}
use kubesim.Jobs.Reports.{OfKind, no_pods, submit_horizontal-stateful}

module _ (p : Platform) (fuel : ℕ) (real : RealApps) where
  -- A job whose first request has no pod panics in `nextPod`.
  run_group-no_pods :
      (rest : List (PodRequest p.Quantity)) (key : String) (ks : Kubesim p)
      → run_group p fuel
          (record (no_group p "HorizontalEmulator") { apps = zero_request p real ∷ rest })
          key
          ks
        ≡ panics
  unfolding run_group horizontal_emulator emulate_apps scheduler_pod next_pod
  run_group-no_pods rest key ks = refl

  -- Submitting a horizontal emulation of one or more stateful sets to an idle kubesim makes the next
  -- round of the job loop panic, whatever the real cluster, the fake one and the scheduler answer.
  pub run_round-stateful :
      (app : PodRequest p.Quantity) (apps : List (PodRequest p.Quantity)) (ks : Kubesim p)
      → OfKind p real "statefulset" (app ∷ apps)
      → pending ks.fifo_queue ≡ []
      → Fresh (p.uuid ks.next_uuid) ks.fifo_queue.queue
      → then_do (submit_horizontal p real (app ∷ apps) ks) (λ id. run_round p fuel) ≡ panics
  unfolding submit run_round
  run_round-stateful app apps ks k idle fresh =
      rw (submit_horizontal-stateful p real (app ∷ apps) ks k, submit, popped, run_round)
        (run_group-no_pods (no_pods p real apps) (p.uuid ks.next_uuid) _)
    where
      group : AppGroup p.Quantity
      group = record (no_group p "HorizontalEmulator") { apps = no_pods p real (app ∷ apps) }

      popped :
          (pop (push (p.uuid ks.next_uuid) group ks.fifo_queue)).0
          ≡ found group (p.uuid ks.next_uuid)
      popped = pop-push (p.uuid ks.next_uuid) group ks.fifo_queue idle fresh
