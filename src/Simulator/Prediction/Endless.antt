-- ===== src/Simulator/Prediction/Endless.antt =====
-- The requests on which the search never ends.
use kubesim.Prelude.{ℕ, zero, suc, ◌+◌, ◌/◌, ◌≤◌, ◌<◌, ◌≡◌, Bool, String, arith}
use kubesim.Prelude.Int.{pos}
use kubesim.Prelude.Exec.{Outcome, done, fails, panics, blocks, Exec, then_do}
use kubesim.Platform.{Platform}
use kubesim.Utils.{AppGroup, NodeConfig}
use kubesim.Simulator.{Kubesim}
use kubesim.Simulator.Prediction.{
  Bounds, Verdict, last_run, zero_run, again, narrow, decide, Trial, Backup, Reports, keep_best,
  last, last_zero, proceed, search_loop, trial, first_bounds, generate_max_node, config_of,
  prediction_emulator, search_from,
}

-- The upper bound is not above the lower one.
record Crossed (b : Bounds) : Type 0 where
  crossed : b.max_node ≤ b.min_node
  middle : b.count ≡ (b.min_node + b.max_node) / 2

abbrev Again : Verdict → Type 0
Again last_run = ⊥
Again zero_run = ⊥
Again (again b) = Crossed b

decide-Again : (g : Bool) (b : Bounds) → Crossed b → Again (decide (narrow g b))
unfolding decide narrow
decide-Again g b v = ground arith

first_bounds-Crossed : (n : ℕ) → 3000 < n → n ≤ 4000 → Crossed (first_bounds n)
unfolding first_bounds generate_max_node
first_bounds-Crossed n h k = ground arith

module _ (p : Platform) (fuel : ℕ) (group : AppGroup p.Quantity) (key : String) where
  -- No reports are returned.
  abbrev pub NeverDone : Outcome (Kubesim p) (Reports p) → Type 0
  NeverDone (done r s) = ⊥
  NeverDone (fails e s) = Unit
  NeverDone panics = Unit
  NeverDone blocks = Unit

  module _ (try : NodeConfig → ℕ → Exec (Kubesim p) (Trial p)) where
    abbrev Loops : ℕ → Type 0
    Loops rounds =
        (config : NodeConfig) (backup : Backup p) (b : Bounds) (s : Kubesim p)
        → Crossed b
        → NeverDone (search_loop p fuel group key try rounds config backup b s)

    proceed-NeverDone :
        (rounds : ℕ) (v : Verdict) (at_last at_zero : Exec (Kubesim p) (Reports p))
        (config : NodeConfig) (backup : Backup p) (s : Kubesim p)
        → Loops rounds
        → Again v
        → NeverDone
            (proceed p v at_last at_zero (search_loop p fuel group key try rounds config backup) s)
    proceed-NeverDone rounds last_run at_last at_zero config backup s more a = absurd a
    proceed-NeverDone rounds zero_run at_last at_zero config backup s more a = absurd a
    proceed-NeverDone rounds (again b) at_last at_zero config backup s more a =
        more config backup b s a

    trial-NeverDone :
        (rounds : ℕ) (backup : Backup p) (b : Bounds) (o : Outcome (Kubesim p) (Trial p))
        → Loops rounds
        → Crossed b
        → NeverDone (
            then_do o (λ t.
              proceed p
                (decide (narrow t.prediction.prediction_go b))
                (last p fuel key t (keep_best p t backup) (narrow t.prediction.prediction_go b))
                (last_zero p fuel group key (keep_best p t backup))
                (search_loop p fuel group key try rounds t.config (keep_best p t backup))))
    trial-NeverDone rounds backup b (done t s) more v =
        proceed-NeverDone rounds (decide (narrow t.prediction.prediction_go b)) _ _ t.config
          (keep_best p t backup) s more (decide-Again t.prediction.prediction_go b v)
    trial-NeverDone rounds backup b (fails e s) more v = tt
    trial-NeverDone rounds backup b panics more v = tt
    trial-NeverDone rounds backup b blocks more v = tt

    search_loop-NeverDone : (rounds : ℕ) → Loops rounds
    unfolding search_loop
    search_loop-NeverDone zero config backup b s v = tt
    search_loop-NeverDone (suc rounds) config backup b s v =
        trial-NeverDone rounds backup b (try config b.count s) (search_loop-NeverDone rounds) v

  -- No case of `generateMaxNode` takes 3001 to 4000 nodes: its result 0 lies below the lower bound, and
  -- the search runs on for ever. However many rounds it is given, and whatever the cluster and the
  -- scheduler do, no reports are returned.
  pub prediction_emulator_endless :
      (n : ℕ) (ks : Kubesim p)
      → (config_of group.nodes).node_number ≡ pos n
      → 3000 < n
      → n ≤ 4000
      → NeverDone (prediction_emulator p fuel group key ks)
  unfolding prediction_emulator search_from
  prediction_emulator_endless n ks start h k =
      rw (start, prediction_emulator)
        (search_loop-NeverDone (λ config count. trial p fuel group config (pos count)) fuel _ _ _ ks
          (first_bounds-Crossed n h k))
