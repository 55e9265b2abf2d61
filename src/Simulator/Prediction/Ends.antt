-- ===== src/Simulator/Prediction/Ends.antt =====
-- The prediction as the job loop runs it: when it ends, and with what.
use kubesim.Prelude.{ℕ, ◌≤◌, ◌<◌, ◌≡◌, refl, Bool, true, none, String, [], inl}
use kubesim.Prelude.Int.{pos}
use kubesim.Prelude.Exec.{Exec}
use kubesim.Platform.{Platform}
use kubesim.Utils.{AppGroup, NodeConfig}
use kubesim.Simulator.{Kubesim}
use kubesim.Simulator.Prediction.{
  Trial, first_bounds, trial, search_from, prediction_emulator, config_of,
}
use kubesim.Simulator.Prediction.Decision.{measure}
use kubesim.Simulator.Prediction.Scaling.{first_bounds-Sound}
use kubesim.Simulator.Prediction.Search.{Found, Trials, search_loop-Found}

module _ (p : Platform) (fuel : ℕ) (group : AppGroup p.Quantity) (key : String) where
  abbrev pub own_trial : NodeConfig → ℕ → Exec (Kubesim p) (Trial p)
  own_trial config count = trial p fuel group config (pos count)

  -- A prediction that starts from up to 3000 nodes, where each trial that it makes in turn ends, and
  -- whether the apps fit depends on the number of nodes alone and is so from `m` nodes on: with
  -- enough rounds it comes to a number of nodes on which a trial succeeded while one node fewer was
  -- tried and failed, and saves and returns the reports and switches of that trial; or it comes down
  -- to one node, on which the apps fit, and ends by a run on no fake node.
  pub prediction_emulator-Found :
      (go : ℕ → Bool) (n m : ℕ) (ks : Kubesim p)
      → (config_of group.nodes).node_number ≡ pos n
      → n ≤ 3000
      → ((k : ℕ) → m ≤ k → go k ≡ true)
      → Trials p fuel group key own_trial go fuel (first_bounds n) (config_of group.nodes) ks
      → measure m (first_bounds n) < fuel
      → Found p fuel group key own_trial go (prediction_emulator p fuel group key ks)
  unfolding prediction_emulator search_from first_bounds
  prediction_emulator-Found go n m ks start small enough trials rounds =
      rw (start, prediction_emulator)
        (search_loop-Found p fuel group key own_trial go m enough fuel (config_of group.nodes)
          (record { reports = none; access = [] }) (first_bounds n) ks trials
          (first_bounds-Sound go n small) (inl refl) rounds)
