-- ===== src/Simulator/Runs/Late.antt =====
-- A call of the scheduler that comes when the run has ended: `wait_stop` models the calls that come
-- while the emulator waits.
use kubesim.Prelude.{◌≡◌}
use kubesim.Prelude.Exec.{Outcome, done, fails, panics, blocks}
use kubesim.Platform.{Platform}
use kubesim.Simulator.{Kubesim, closed}

module _ (p : Platform) where
  abbrev Shut : Outcome (Kubesim p) Unit → Type 0
  Shut (done u s) = s.stop ≡ closed
  Shut (fails e s) = Unit
  Shut panics = Unit
  Shut blocks = Unit
