-- ===== src/Jobs/Failing.antt =====
-- Jobs whose emulation fails.
use text.Mathlib.TextPositions.{eq_refl}
use kubesim.Prelude.{
  Option-cases, ◌≡◌, refl, subst, ℕ, ◌⊎◌, inl, inr, none, List, [], ◌∷◌, String, ap, ◌∙◌, str_eq,
  if◌then◌else◌,
}
use kubesim.Prelude.Map.{Map, lookup, lookup-erase}
use kubesim.Prelude.Text.{Error}
use kubesim.Prelude.Exec.{done, fails, pure}
use kubesim.Platform.{Platform}
use kubesim.Queue.{FifoQueue, Popped, found, err_empty_queue, pop, pop_loop, get}
use kubesim.Utils.{AppGroup}
use kubesim.Simulator.{Kubesim, JobReport}
use kubesim.Simulator.Emulators.{emulate_apps, apps_emulator, horizontal_emulator}
use kubesim.Simulator.Emulators.Frames.{emulate_apps-Frame}
use kubesim.Jobs.{run_group, run_popped, run_round, emulator_report, job_status}

module _ {V : Type 0} where
  -- A job that was taken out of the queue is no longer in its map.
  abbrev Gone : Popped V × FifoQueue V → Type 0
  Gone (found group key, q) = lookup key q.app_group ≡ none
  Gone (err_empty_queue key, q) = Unit

  pop_loop-Gone : (last : String) (keys : List String) (m : Map V) → Gone (pop_loop last keys m)
  unfolding pop_loop
  pop_loop-Gone last [] m = tt
  pop_loop-Gone last (key ∷ keys) m = elim (Option-cases (lookup key m)) [
    | inl dead ↦ rw (dead, pop_loop) (pop_loop-Gone key keys m)
    | inr (group, e) ↦ rw (e, pop_loop) (lookup-erase key key m ∙ same)
  ]
    where
      same : (if str_eq key key then none else lookup key m) ≡ none
      same = ap (λ b. if b then none else lookup key m) (eq_refl key)

  key_of : String → Popped V → String
  key_of key (found group k) = k
  key_of key (err_empty_queue k) = key

  found-Gone :
      (x : Popped V × FifoQueue V) (group : V) (key : String)
      → Gone x
      → x.0 ≡ found group key
      → lookup key x.1.app_group ≡ none
  unfolding key_of
  found-Gone (found g k, q) group key h e =
      subst (λ j. lookup j q.app_group ≡ none) (ap (key_of key) e) h
  found-Gone (err_empty_queue k, q) group key h e = cc

-- The emulators that only emulate apps and save the reports.
abbrev pub OnlyEmulates : String → Type 0
OnlyEmulates kind = (kind ≡ "AppsEmulator") ⊎ (kind ≡ "HorizontalEmulator")

module _ (p : Platform) (fuel : ℕ) where
  run_group-fails :
      (group : AppGroup p.Quantity) (key : String) (ks s : Kubesim p) (why : Error)
      → OnlyEmulates group.emulator_type
      → emulate_apps p pure group.apps [] ks ≡ fails why s
      → run_group p fuel group key ks ≡ done tt s
  unfolding run_group apps_emulator horizontal_emulator
  run_group-fails group key ks s why (inl kind) e = rw (kind, run_group, e) refl
  run_group-fails group key ks s why (inr kind) e = rw (kind, run_group, e) refl

  -- The round of the job loop that takes a job of the apps or the horizontal emulator, whose emulation
  -- returns an error, from the queue: it ends like any other and saves no result, and the job, which
  -- has no result from before, is reported as "processing" with no reports.
  pub run_round-fails :
      (group : AppGroup p.Quantity) (key : String) (ks s : Kubesim p) (why : Error)
      → (pop ks.fifo_queue).0 ≡ found group key
      → OnlyEmulates group.emulator_type
      → emulate_apps p pure group.apps [] (record ks { fifo_queue = (pop ks.fifo_queue).1 })
        ≡ fails why s
      → lookup key ks.emulator_result ≡ none
      → (r : JobReport p.Quantity) × (run_round p fuel ks ≡ done tt s)
        × (emulator_report p key s ≡ done r s)
        × (r.status ≡ "processing")
        × (r.report ≡ [])
  unfolding run_round emulator_report get pop
  run_round-fails group key ks s why popped kind failed no_result =
      let popped_ks = record ks { fifo_queue = (pop ks.fifo_queue).1 } in
      let (results, queue) = emulate_apps-Frame p group.apps popped_ks s why failed in
      let gone : lookup key (pop ks.fifo_queue).1.app_group ≡ none =
        found-Gone (pop ks.fifo_queue) group key
          (pop_loop-Gone "" ks.fifo_queue.queue ks.fifo_queue.app_group) popped in
      let none_saved : lookup key s.emulator_result ≡ none = ap (lookup key) results ∙ no_result in
      let not_queued : lookup key s.fifo_queue.app_group ≡ none =
        ap (λ q. lookup key q.app_group) queue ∙ gone in
      (
        record {
          job_id = key;
          status = "processing";
          report = [];
          prediction_node = lookup key s.prediction_node;
        },
        ap (λ x. run_popped p fuel x popped_ks) popped
            ∙ run_group-fails group key popped_ks s why kind failed,
        rw (none_saved, not_queued, job_status) refl,
        refl,
        refl,
      )
