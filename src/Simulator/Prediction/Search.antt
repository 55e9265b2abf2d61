-- ===== src/Simulator/Prediction/Search.antt =====
-- The whole search: when it ends, and with what.
use kubesim.Prelude.{
  ℕ, zero, suc, ◌+◌, ◌≤◌, ◌<◌, ◌≡◌, refl, Bool, true, false, String, arith, ◌⊎◌, inl, inr, ◌≢◌, ◌∙◌,
  subst, sym,
}
use kubesim.Prelude.Exec.{Outcome, done, Exec, ◌>>◌, pure, ignore}
use kubesim.Platform.{Platform}
use kubesim.Utils.{AppGroup, NodeConfig}
use kubesim.Simulator.{Kubesim}
use kubesim.Simulator.Nodes.{delete_nodes}
use kubesim.Simulator.Prediction.{
  Bounds, Verdict, last_run, zero_run, again, narrow, decide, Trial, Backup, Reports, keep_best,
  last, last_zero, save_prediction, search_loop, proceed,
}
use kubesim.Simulator.Prediction.Decision.{
  Sound, measure, Decides, narrow-Tried, measure-narrow, decide-Decides,
}

module _ (p : Platform) (fuel : ℕ) (group : AppGroup p.Quantity) (key : String)
    (try : NodeConfig → ℕ → Exec (Kubesim p) (Trial p)) (go : ℕ → Bool) where
  -- Some run of the trial with `n` nodes left the reports and the access switches of the backup.
  pub record FromTrial (n : ℕ) (backup : Backup p) : Type 0 where
    pub config : NodeConfig
    pub before : Kubesim p
    pub after : Kubesim p
    pub trial : Trial p
    pub ran : try config n before ≡ done trial after
    pub fits : trial.prediction.prediction_go ≡ true
    pub reports : backup.reports ≡ trial.prediction.report_list
    pub access : backup.access ≡ trial.access

  -- The last run: what is saved is the backup, under the upper bound.
  abbrev pub save_best : Backup p → Bounds → Exec (Kubesim p) (Reports p)
  save_best best b = do
    ignore (delete_nodes p fuel)
    save_prediction p best.access key b.min_node b.max_node b.max_node best.reports
    pure best.reports

  last_lem :
      (t : Trial p) (backup : Backup p) (b : Bounds) (s : Kubesim p)
      → last p fuel key t (keep_best p t backup) b s ≡ save_best (keep_best p t backup) b s
  unfolding last
  last_lem t backup b s = ground arith

  -- How the search ends.
  abbrev pub Found : Outcome (Kubesim p) (Reports p) → Type 0
  Found o =
      ((best : Backup p) × (b : Bounds) × (s : Kubesim p) × (o ≡ save_best best b s)
        × FromTrial b.max_node best
        × (go b.max_node ≡ true)
        × (b.max_node ≡ b.min_node + 1)
        × (go b.min_node ≡ false))
      ⊎ ((best : Backup p) × (s : Kubesim p) × (o ≡ last_zero p fuel group key best s)
          × FromTrial 1 best
          × (go 1 ≡ true))

  -- Bounds between trials, with the backup that belongs to the upper one.
  abbrev pub Backed : Bounds → Backup p → Type 0
  Backed b backup = (b.max_node ≡ b.f_max) ⊎ FromTrial b.max_node backup

  keep_best_other :
      (t : Trial p) (backup : Backup p)
      → t.prediction.prediction_go ≡ false
      → keep_best p t backup ≡ backup
  keep_best_other t backup h = ground arith

  keep_best-FromTrial :
      (t : Trial p) (backup : Backup p) (n : ℕ) (config : NodeConfig) (s s' : Kubesim p)
      → try config n s ≡ done t s'
      → t.prediction.prediction_go ≡ true
      → FromTrial n (keep_best p t backup)
  keep_best-FromTrial t backup n config s s' e fits = record {
    config = config;
    before = s;
    after = s';
    trial = t;
    ran = e;
    fits = fits;
    reports = ground arith;
    access = ground arith;
  }

  keep_best-Backed :
      (g : Bool) (t : Trial p) (backup : Backup p) (b : Bounds) (config : NodeConfig)
      (s s' : Kubesim p)
      → t.prediction.prediction_go ≡ g
      → try config b.count s ≡ done t s'
      → Backed b backup
      → Backed (narrow g b) (keep_best p t backup)
  unfolding narrow
  keep_best-Backed true t backup b config s s' h e k =
      inr (keep_best-FromTrial t backup b.count config s s' e h)
  keep_best-Backed false t backup b config s s' h e k =
      subst (λ kept. (b.max_node ≡ b.f_max) ⊎ FromTrial b.max_node kept)
        (sym (keep_best_other t backup h)) k

  -- What is asked of the bounds of the next trial, if there is one.
  abbrev pub After :
      (Bounds → NodeConfig → Kubesim p → Type 0) → Verdict → NodeConfig → Kubesim p → Type 0
  After More last_run config s = Unit
  After More zero_run config s = Unit
  After More (again b) config s = More b config s

  -- The trials that the search makes in turn from these bounds, for so many rounds at most: each ends,
  -- and says whether the apps fit as `go` says it of its number of nodes.
  abbrev pub Trials : ℕ → Bounds → NodeConfig → Kubesim p → Type 0
  Trials zero b config s = Unit
  Trials (suc rounds) b config s =
      (t : Trial p) × (s' : Kubesim p) × (try config b.count s ≡ done t s')
      × (t.prediction.prediction_go ≡ go b.count)
      × After (Trials rounds) (decide (narrow (go b.count) b)) t.config s'

  module _ (n : ℕ) (enough : (k : ℕ) → n ≤ k → go k ≡ true) where
    abbrev Continues : ℕ → Type 0
    Continues rounds =
        (config : NodeConfig) (backup : Backup p) (b : Bounds) (s : Kubesim p)
        → Trials rounds b config s
        → Sound go b
        → Backed b backup
        → measure n b < rounds
        → Found (search_loop p fuel group key try rounds config backup b s)

    tried :
        (b : Bounds) (best : Backup p)
        → Backed b best
        → b.max_node ≢ b.f_max
        → FromTrial b.max_node best
    tried b best (inl e) h = absurd (h e)
    tried b best (inr f) h = f

    still :
        (b b' : Bounds) (best : Backup p)
        → (b'.max_node ≡ b'.f_max) ⊎ ((b'.max_node ≡ b.max_node) × (b'.f_max ≡ b.f_max))
        → Backed b best
        → Backed b' best
    still b b' best (inl e) k = inl e
    still b b' best (inr (e, f)) (inl g) = inl (e ∙ g ∙ sym f)
    still b b' best (inr (e, f)) (inr k) = inr (subst (λ m. FromTrial m best) (sym e) k)

    verdict-Found :
        (rounds : ℕ) (v : Verdict) (t : Trial p) (backup : Backup p) (b : Bounds) (s : Kubesim p)
        → Continues rounds
        → After (Trials rounds) v t.config s
        → Decides go n b v
        → Backed b (keep_best p t backup)
        → measure n b < rounds
        → Found (
            proceed p v
              (last p fuel key t (keep_best p t backup) b)
              (last_zero p fuel group key (keep_best p t backup))
              (search_loop p fuel group key try rounds t.config (keep_best p t backup))
              s)
    verdict-Found rounds last_run t backup b s more f d k h = inl (
      keep_best p t backup,
      b,
      s,
      last_lem t backup b s,
      tried b (keep_best p t backup) k d.3,
      d.1,
      d.0,
      d.2,
    )
    verdict-Found rounds zero_run t backup b s more f d k h = inr (
      keep_best p t backup,
      s,
      refl,
      subst (λ m. FromTrial m (keep_best p t backup)) d.1 (tried b (keep_best p t backup) k d.3),
      d.2,
    )
    verdict-Found rounds (again b') t backup b s more f d k h =
        more t.config (keep_best p t backup) b' s f d.0 (still b b' (keep_best p t backup) d.2 k)
          (omega arith)

    round-Found :
        (rounds : ℕ) (t : Trial p) (config : NodeConfig) (backup : Backup p) (b : Bounds)
        (s s' : Kubesim p)
        → Continues rounds
        → try config b.count s ≡ done t s'
        → t.prediction.prediction_go ≡ go b.count
        → After (Trials rounds) (decide (narrow (go b.count) b)) t.config s'
        → Sound go b
        → Backed b backup
        → measure n b < suc rounds
        → Found (search_loop p fuel group key try (suc rounds) config backup b s)
    unfolding search_loop
    round-Found rounds t config backup b s s' more e fits f v k h =
        rw (e, search_loop)
          (verdict-Found rounds (decide (narrow t.prediction.prediction_go b)) t backup
            (narrow t.prediction.prediction_go b) s' more
            (subst (λ g. After (Trials rounds) (decide (narrow g b)) t.config s') (sym fits) f)
            decided (keep_best-Backed t.prediction.prediction_go t backup b config s s' refl e k)
            smaller)
      where
        decided :
            Decides go n
              (narrow t.prediction.prediction_go b)
              (decide (narrow t.prediction.prediction_go b))
        decided =
            subst (λ g. Decides go n (narrow g b) (decide (narrow g b))) (sym fits)
              (decide-Decides go n (narrow (go b.count) b) (narrow-Tried go b v) (enough _))

        smaller : measure n (narrow t.prediction.prediction_go b) < rounds
        smaller =
            subst (λ g. measure n (narrow g b) < rounds) (sym fits)
              (omega (arith, measure-narrow go n b v))

    -- Where each trial that the search makes in turn ends, and its answer depends on its number of
    -- nodes alone and is yes from `n` nodes on, the search ends: within the given rounds it comes to
    -- a number of nodes on which a trial succeeded while one node fewer was tried and failed, and
    -- saves the reports and switches of that trial; or it comes down to one node, on which the apps
    -- fit, and ends by a run on no fake node.
    pub search_loop-Found :
        (rounds : ℕ) (config : NodeConfig) (backup : Backup p) (b : Bounds) (s : Kubesim p)
        → Trials rounds b config s
        → Sound go b
        → Backed b backup
        → measure n b < rounds
        → Found (search_loop p fuel group key try rounds config backup b s)
    search_loop-Found zero config backup b s f v k h = absurd (omega arith)
    search_loop-Found (suc rounds) config backup b s (t, s', e, fits, f) v k h =
        round-Found rounds t config backup b s s' (search_loop-Found rounds) e fits f v k h
