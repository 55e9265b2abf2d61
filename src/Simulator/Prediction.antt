-- ===== src/Simulator/Prediction.antt =====
-- pkg/scheduler/simulator.go, `PredictionEmulator`: the search for the number of fake nodes at which
-- all apps fit. The loop is a function over a trial (`CreateFakeNode` and `CreateApps`), its
-- decision after a trial a function of the bounds. `fuel` bounds the rounds; out of fuel it blocks.
pub mod Scaling
pub mod Decision
pub mod Search
pub mod Ends
pub mod Endless
use kubesim.Prelude.{
  ℕ, zero, suc, ◌+◌, ◌-◌, ◌*◌, ◌/◌, ◌%◌, ◌^◌, Bool, true, false, not, ◌&&◌, Option, none, some,
  List, [], ◌∷◌, ◌++◌, String, ◌==◌, ltb, leb, if◌then◌else◌, length,
}
use kubesim.Prelude.Int.{ℤ, pos, negsuc, pos_part, plus_ℤ, half_ℤ, eq_ℤ, wrap32}
use kubesim.Prelude.Map.{Map, insert}
use kubesim.Prelude.Text.{Error, message}
use kubesim.Prelude.Exec.{
  Outcome, done, fails, panics, blocks, Exec, ◌>>=◌, ◌>>◌, pure, raise, crash, ignore, forget,
  then_do,
}
use kubesim.Platform.{Platform}
use kubesim.Report.{Review, len32}
use kubesim.Utils.{AppGroup, NodeConfig, NodeCapacity}
use kubesim.Simulator.{
  Kubesim, SchedulerPrediction, PredictionNodeReview, AccessSwitch, AccessSwitchSpec,
  AccessSwitchStatus,
}
use kubesim.Simulator.Emulators.{create_apps, save_result}
use kubesim.Simulator.Nodes.{create_fake_node, delete_nodes}

-- Round an exact product, in units of 2^-52, to 53 bits with ties to even: drop `e` bits, where `e`
-- is the first number that leaves a value below 2^53.
round_at : ℕ → ℕ → ℕ
round_at product e =
    let unit = 2 ^ e in
    let q = product / unit in
    let r = product % unit in
    let up = ltb unit (2 * r) in
    let tie = (2 * r == unit) && (q % 2 == 1) in
    (if up then q + 1 else if tie then q + 1 else q) * unit

round_from : ℕ → ℕ → ℕ → ℕ
unfolding round_at
round_from zero product e = round_at product e
round_from (suc fuel) product e =
    let more = round_from fuel product (e + 1) in
    if ltb (product / 2 ^ e) (2 ^ 53) then round_at product e else more

-- `int(c * float64(n))` for n < 2^53 and the double `c` = `mantissa` / 2^52, 1 ≤ c < 2: the product
-- of two doubles is the exact product rounded, and `int` drops the fraction. 64 rounds are enough
-- for a product below 2^117.
unfoldable pub scale : ℕ → ℕ → ℕ
unfolding round_from
scale mantissa n = round_from 64 (mantissa * n) 0 / 2 ^ 52

-- `generateMaxNode`. The doubles next to 1.2, 1.3 and 1.4 are written as their mantissas. No case of
-- the switch takes 3001 to 4000, where `maxNode` keeps its zero value.
unfoldable pub generate_max_node : ℕ → ℕ
generate_max_node n =
    if leb n 1
    then 10
    else if ltb 1 n && leb n 100
    then 2 * n
    else if ltb 100 n && leb n 1000
    then scale 5404319552844595 n
    else if ltb 1000 n && leb n 3000
    then scale 5854679515581645 n
    else if ltb 4000 n
    then scale 6305039478318694 n
    else 0

pub record Bounds : Type 0 where
  pub f_min : ℕ
  pub min_node : ℕ
  pub max_node : ℕ
  pub f_max : ℕ
  pub count : ℕ

-- `minNode`, `maxNode` and `predictionNodeCount` after a trial.
unfoldable pub narrow : Bool → Bounds → Bounds
narrow go b =
    if go
    then record b { max_node = b.count; count = (b.min_node + b.count) / 2 }
    else record b { min_node = b.count; count = (b.count + b.max_node) / 2 }

-- The four ways on after a trial: the last run, the run with no fake node, or another round.
pub data Verdict : Type 0 where
  last_run : Verdict
  zero_run : Verdict
  again : Bounds → Verdict

-- `maxNode-minNode == 1` on Go's signed integers is `max = min + 1`.
unfoldable pub decide : Bounds → Verdict
decide b =
    if b.max_node == b.min_node + 1 && not (b.f_max == b.max_node) && not (b.f_min == b.min_node)
    then last_run
    else if b.max_node == b.min_node + 1 && b.f_max == b.max_node
    then again (record b {
      f_max = b.f_max + 100;
      max_node = b.f_max + 100;
      count = (b.min_node + (b.f_max + 100)) / 2;
    })
    else if b.max_node == b.min_node + 1
        && b.f_min == b.min_node
        && not ((b.max_node + b.min_node) / 2 == 0)
    then again (record b {
      f_min = b.f_min / 2;
      min_node = b.f_min / 2;
      count = (b.f_min / 2 + b.max_node) / 2;
    })
    else if b.max_node == b.min_node + 1
        && b.f_min == b.min_node
        && (b.max_node + b.min_node) / 2 == 0
    then zero_run
    else again b

-- The same bounds, where a negative number of nodes was asked for, and what is done with them.
pub record SignedBounds : Type 0 where
  pub f_min : ℤ
  pub min_node : ℤ
  pub max_node : ℤ
  pub f_max : ℤ
  pub count : ℤ

unfoldable pub narrow_signed : Bool → SignedBounds → SignedBounds
narrow_signed go b =
    if go
    then record b { max_node = b.count; count = half_ℤ (plus_ℤ b.min_node b.count) }
    else record b { min_node = b.count; count = half_ℤ (plus_ℤ b.count b.max_node) }

pub data SignedVerdict : Type 0 where
  signed_last signed_zero : SignedVerdict
  signed_again : SignedBounds → SignedVerdict

unfoldable pub decide_signed : SignedBounds → SignedVerdict
decide_signed b =
    let middle = half_ℤ (plus_ℤ b.max_node b.min_node) in
    let close = eq_ℤ b.max_node (plus_ℤ b.min_node (pos 1)) in
    if close && not (eq_ℤ b.f_max b.max_node) && not (eq_ℤ b.f_min b.min_node)
    then signed_last
    else if close && eq_ℤ b.f_max b.max_node
    then signed_again (record b {
      f_max = plus_ℤ b.f_max (pos 100);
      max_node = plus_ℤ b.f_max (pos 100);
      count = half_ℤ (plus_ℤ b.min_node (plus_ℤ b.f_max (pos 100)));
    })
    else if close && eq_ℤ b.f_min b.min_node && not (eq_ℤ middle (pos 0))
    then signed_again (record b {
      f_min = half_ℤ b.f_min;
      min_node = half_ℤ b.f_min;
      count = half_ℤ (plus_ℤ (half_ℤ b.f_min) b.max_node);
    })
    else if close && eq_ℤ b.f_min b.min_node && eq_ℤ middle (pos 0)
    then signed_zero
    else signed_again b

-- `generateMaxNode` gives 10 for any number up to 1.
unfoldable pub signed_bounds : ℤ → SignedBounds
signed_bounds n = record {
  f_min = n;
  min_node = n;
  max_node = pos 10;
  f_max = pos 10;
  count = half_ℤ (plus_ℤ n (pos 10));
}

-- At the last run both bounds were tried, and a trial on a negative number of nodes panics.
abbrev tried_bounds : SignedBounds → Bounds
tried_bounds b = record {
  f_min = pos_part b.f_min;
  min_node = pos_part b.min_node;
  max_node = pos_part b.max_node;
  f_max = pos_part b.f_max;
  count = pos_part b.count;
}

-- The bounds before the first trial.
unfoldable pub first_bounds : ℕ → Bounds
first_bounds n =
    let top = generate_max_node n in
    record { f_min = n; min_node = n; max_node = top; f_max = top; count = (n + top) / 2 }

-- The loop over `appgroup.Nodes` keeps the last configuration.
abbrev last_config : NodeConfig → List NodeConfig → NodeConfig
last_config config [] = config
last_config config (node ∷ nodes) = last_config node nodes

unfoldable pub config_of : List NodeConfig → NodeConfig
config_of nodes =
    last_config (record { node_number = pos 0; node_capacity = none; node_labels = none }) nodes

abbrev pub Access : Type 0
Access = Map (List String)

-- The loop over `access` of `SavePrediction`.
unfoldable pub access_switches : Access → List AccessSwitch
access_switches [] = []
access_switches ((key, names) ∷ rest) =
    record { name = key; node_number = len32 names; node_name_list = names } ∷ access_switches rest

module _ (p : Platform) where
  open p use {Quantity}

  abbrev pub Reports : Type 0
  Reports = Option (List (Review Quantity))

  -- What a trial leaves: the configuration behind the pointer, the switches, and the prediction.
  pub record Trial : Type 0 where
    pub config : NodeConfig
    pub access : Access
    pub prediction : SchedulerPrediction Quantity

  -- `SavePrediction`
  unfoldable pub save_prediction : Access → String → ℕ → ℕ → ℕ → Reports → Exec (Kubesim p) Unit
  unfolding access_switches
  save_prediction access key min max count reports ks = done tt (record ks {
    prediction_node =
        insert key
          (record {
            spec = record {
              min_node = wrap32 (pos min);
              max_node = wrap32 (pos max);
              prediction_node = wrap32 (pos count);
            };
            status = record {
              prediction_node = wrap32 (pos count);
              access = access_switches access;
            };
          })
          ks.prediction_node;
    emulator_result = insert key reports ks.emulator_result;
  })

  -- The error of `CreateApps` is dropped, and its nil result is then read.
  abbrev read_result : {A : Type 0} → Outcome (Kubesim p) A → Outcome (Kubesim p) A
  read_result (fails e s) = panics
  read_result (done a s) = done a s
  read_result panics = panics
  read_result blocks = blocks

  -- `CreateFakeNode` and `CreateApps` with `count` fake nodes.
  unfoldable pub trial : ℕ → AppGroup Quantity → NodeConfig → ℤ → Exec (Kubesim p) Trial
  unfolding create_fake_node create_apps
  trial fuel group config count = do
    (config', access) ← λ ks. then_do (create_fake_node p fuel config count ks) pure
    prediction ← λ ks. read_result (create_apps p fuel group ks)
    pure (record { config = config'; access = access; prediction = prediction })

  -- The best successful trial so far: `backupEmulator` and `backupPrediction`.
  pub record Backup : Type 0 where
    pub reports : Reports
    pub access : Access

  abbrev pub keep_best : Trial → Backup → Backup
  keep_best t backup =
      if t.prediction.prediction_go
      then record { reports = t.prediction.report_list; access = t.access }
      else backup

  -- The end of the search on the last run: what is saved is that of the successful trial.
  unfoldable pub last : ℕ → String → Trial → Backup → Bounds → Exec (Kubesim p) Reports
  unfolding save_prediction
  last fuel key t backup b = do
    ignore (delete_nodes p fuel)
    save_prediction (if t.prediction.prediction_go then t.access else backup.access) key b.min_node
        b.max_node b.max_node
        (if t.prediction.prediction_go then t.prediction.report_list else backup.reports)
    pure (if t.prediction.prediction_go then t.prediction.report_list else backup.reports)

  -- The end of the search with no fake node.
  unfoldable pub last_zero : ℕ → AppGroup Quantity → String → Backup → Exec (Kubesim p) Reports
  unfolding save_prediction create_apps
  last_zero fuel group key backup = do
    ignore (delete_nodes p fuel)
    prediction ← λ ks. read_result (create_apps p fuel group ks)
    save_prediction (if prediction.prediction_go then [] else backup.access) key 0 1
        (if prediction.prediction_go then 0 else 1)
        (if prediction.prediction_go then prediction.report_list else backup.reports)
    pure (if prediction.prediction_go then prediction.report_list else backup.reports)

  abbrev pub proceed :
      Verdict
      → Exec (Kubesim p) Reports
      → Exec (Kubesim p) Reports
      → (Bounds → Exec (Kubesim p) Reports)
      → Exec (Kubesim p) Reports
  proceed last_run at_last at_zero more = at_last
  proceed zero_run at_last at_zero more = at_zero
  proceed (again b) at_last at_zero more = more b

  module _ (fuel : ℕ) (group : AppGroup Quantity) (key : String) where
    -- The search over any trial.
    unfoldable pub search_loop :
        (NodeConfig → ℕ → Exec (Kubesim p) Trial)
        → ℕ
        → NodeConfig
        → Backup
        → Bounds
        → Exec (Kubesim p) Reports
    unfolding narrow decide last last_zero
    search_loop try zero config backup b ks = blocks
    search_loop try (suc rounds) config backup b ks =
        let more = search_loop try rounds in
        (do
          t ← try config b.count
          let best = keep_best t backup
          let b' = narrow t.prediction.prediction_go b
          proceed (decide b') (last fuel key t best b') (last_zero fuel group key best)
              (more t.config best))
          ks

    abbrev proceed_signed :
        SignedVerdict
        → Exec (Kubesim p) Reports
        → Exec (Kubesim p) Reports
        → (SignedBounds → Exec (Kubesim p) Reports)
        → Exec (Kubesim p) Reports
    proceed_signed signed_last at_last at_zero more = at_last
    proceed_signed signed_zero at_last at_zero more = at_zero
    proceed_signed (signed_again b) at_last at_zero more = more b

    -- The same search over signed bounds.
    unfoldable pub signed_search_loop :
        ℕ → NodeConfig → Backup → SignedBounds → Exec (Kubesim p) Reports
    unfolding narrow_signed decide_signed last last_zero trial
    signed_search_loop zero config backup b ks = blocks
    signed_search_loop (suc rounds) config backup b ks =
        let more = signed_search_loop rounds in
        (do
          t ← trial fuel group config b.count
          let best = keep_best t backup
          let b' = narrow_signed t.prediction.prediction_go b
          proceed_signed (decide_signed b') (last fuel key t best (tried_bounds b'))
              (last_zero fuel group key best) (more t.config best))
          ks

    unfoldable pub search_from : ℤ → NodeConfig → Exec (Kubesim p) Reports
    unfolding search_loop signed_search_loop trial first_bounds signed_bounds
    search_from (pos n) config =
        search_loop (λ config count. trial fuel group config (pos count)) fuel config
          (record { reports = none; access = [] }) (first_bounds n)
    search_from (negsuc n) config =
        signed_search_loop fuel config (record { reports = none; access = [] })
          (signed_bounds (negsuc n))

    -- `PredictionEmulator`
    unfoldable pub prediction_emulator : Exec (Kubesim p) Reports
    unfolding search_from config_of
    prediction_emulator = search_from (config_of group.nodes).node_number (config_of group.nodes)
