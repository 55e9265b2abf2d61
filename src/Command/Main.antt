-- ===== src/Command/Main.antt =====
-- cmd/kubesim/main.go: what `main` makes of the command. Setting up the processors, the random
-- numbers and the flags of klog is left out.
use kubesim.Prelude.{ℕ, Bool, true, false, ◌≡◌, refl, Option, List, [], ◌∷◌, String}
use kubesim.Prelude.Text.{Error}
use kubesim.Prelude.Exec.{done, fails}
use kubesim.Platform.{Platform}
use kubesim.Simulator.{Callback}
use kubesim.Jobs.{RealApps}
use kubesim.Mirror.{Objects}
use kubesim.Routes.{Web}
use kubesim.Command.{KubesimOptions, Host, validate}
use kubesim.Command.Servers.{Servers}
use kubesim.Command.Start.{
  Program, Ran, refused, failed, listening, crashed, waiting, run, kubesim_command,
}

-- How the command's library reads the arguments.
pub data Arguments : Type 0 where
  unreadable : Error → Arguments
  asks_help : Arguments
  reads : KubesimOptions → Arguments

-- The program has ended: the errors that `main` or the command printed, whether the logs were flushed,
-- and the status of the process.
pub record Exit : Type 0 where
  pub printed : List Error
  pub flushed : Bool
  pub status : ℕ

pub data Ending (p : Platform) (w : Web p) (o : Objects p) : Type 0 where
  exits : Exit → Ending p w o
  serves : Program p w o → Ending p w o
  crashes hangs : Ending p w o

module _ (h : Host) (v : Servers h) (p : Platform) (w : Web p) (o : Objects p) (real : RealApps)
    (fuel : ℕ) (empty : p.Cluster) (calls : List (Callback p.Quantity)) where
  -- What the command comes to, for the process: its function returns nothing, so that `Execute` returns
  -- nil even where `Run` failed, and `main` ends with the deferred flush.
  unfoldable pub after_command : Ran h v p w o real fuel empty calls → Ending p w o
  after_command (refused e) = exits (record { printed = e ∷ []; flushed = true; status = 0 })
  after_command (failed e) = exits (record { printed = e ∷ []; flushed = true; status = 0 })
  after_command (listening program) = serves program
  after_command crashed = crashes
  after_command waiting = hangs

  -- `main` for the arguments as they were read: `os.Exit` does not run the deferred `klog.Flush`.
  unfoldable pub main : Option String → Arguments → Ending p w o
  unfolding after_command kubesim_command
  main env (unreadable e) = exits (record { printed = e ∷ []; flushed = false; status = 1 })
  main env asks_help = exits (record { printed = []; flushed = true; status = 0 })
  main env (reads opt) = after_command (kubesim_command h v p w o real fuel empty calls env opt [])

  -- A start that fails after its options were accepted is printed, and the process ends with the status
  -- 0, like one that succeeded.
  main-run_fails :
      (env : Option String) (opt : KubesimOptions) (e : Error)
      → validate env opt tt ≡ done tt tt
      → run h v p w o real fuel empty calls opt [] tt ≡ fails e tt
      → main env (reads opt) ≡ exits (record { printed = e ∷ []; flushed = true; status = 0 })
  unfolding main kubesim_command after_command
  main-run_fails env opt e accepted failing = rw (accepted, main, failing) refl
