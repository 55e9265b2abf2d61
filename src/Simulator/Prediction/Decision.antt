-- ===== src/Simulator/Prediction/Decision.antt =====
-- The bounds of the search from trial to trial. `go n` says whether the apps fit on `n` fake nodes.
use kubesim.Prelude.{ℕ, ◌+◌, ◌-◌, ◌*◌, ◌/◌, ◌≤◌, ◌≡◌, Bool, true, false, arith, ◌⊎◌, ◌≢◌}
use kubesim.Simulator.Prediction.{Bounds, narrow, decide, Verdict, last_run, zero_run, again}

-- Every trial makes this smaller, where enough nodes, `n` or more, always suffice.
abbrev pub measure : ℕ → Bounds → ℕ
measure n b = (b.max_node - b.min_node) + 3 * b.f_min + 2 * ((n + 101) - b.f_max)

module _ (go : ℕ → Bool) where
  -- Before a trial the bounds are at least 2 apart; a bound that was moved was tried.
  pub record Sound (b : Bounds) : Type 0 where
    pub low : b.f_min ≤ b.min_node
    pub gap : b.min_node + 2 ≤ b.max_node
    pub high : b.max_node ≤ b.f_max
    pub middle : b.count ≡ (b.min_node + b.max_node) / 2
    pub min_tried : (b.min_node ≡ b.f_min) ⊎ (go b.min_node ≡ false)
    pub max_tried : (b.max_node ≡ b.f_max) ⊎ (go b.max_node ≡ true)

  -- After a trial they may be 1 apart.
  pub record Tried (b : Bounds) : Type 0 where
    pub low : b.f_min ≤ b.min_node
    pub gap : b.min_node + 1 ≤ b.max_node
    pub high : b.max_node ≤ b.f_max
    pub middle : b.count ≡ (b.min_node + b.max_node) / 2
    pub min_tried : (b.min_node ≡ b.f_min) ⊎ (go b.min_node ≡ false)
    pub max_tried : (b.max_node ≡ b.f_max) ⊎ (go b.max_node ≡ true)
    pub moved : (b.max_node ≡ b.f_max) → (b.min_node + 1 ≡ b.max_node) → (go b.min_node ≡ false)

  pub narrow-Tried : (b : Bounds) → Sound b → Tried (narrow (go b.count) b)
  unfolding narrow
  narrow-Tried b v = ground arith

  pub measure-narrow :
      (n : ℕ) (b : Bounds) → Sound b → measure n (narrow (go b.count) b) + 1 ≤ measure n b
  unfolding narrow
  measure-narrow n b v = ground arith

  -- What a decision means.
  abbrev pub Decides : ℕ → Bounds → Verdict → Type 0
  Decides n b last_run =
      (b.max_node ≡ b.min_node + 1)
      × (go b.max_node ≡ true)
      × (go b.min_node ≡ false)
      × (b.max_node ≢ b.f_max)
  Decides n b zero_run =
      (b.min_node ≡ 0) × (b.max_node ≡ 1) × (go 1 ≡ true) × (b.max_node ≢ b.f_max)
  Decides n b (again b') =
      Sound b'
      × (measure n b' ≤ measure n b)
      × ((b'.max_node ≡ b'.f_max) ⊎ ((b'.max_node ≡ b.max_node) × (b'.f_max ≡ b.f_max)))

  pub decide-Decides :
      (n : ℕ) (b : Bounds)
      → Tried b
      → (n ≤ b.min_node → go b.min_node ≡ true)
      → Decides n b (decide b)
  unfolding decide
  decide-Decides n b v enough = ground arith
