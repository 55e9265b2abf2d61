-- ===== src/Simulator/Emulators/Outcomes.antt =====
-- What the emulation of one app can come to.
use kubesim.Prelude.{ℕ, ◌<◌, ◌≡◌, refl, some, List, [], ◌∷◌, arith, ◌⊎◌, inl, inr, length, ap, ◌∙◌}
use kubesim.Prelude.Int.{pos, wrap32-pos}
use kubesim.Prelude.Text.{Text, codes}
use kubesim.Prelude.Exec.{Outcome, done, fails, panics, blocks, Exec, then_do}
use kubesim.Platform.{Platform, Pod}
use kubesim.Report.{
  Status, Review, FailReason, ReviewResult, get_report, get_review_spec, get_main_fail_reason,
  parse_pods_review, len32,
}
use kubesim.Report.Distribution.{total, total-parse_pods_review}
use kubesim.Simulator.{Kubesim}
use kubesim.Simulator.Pods.{report, clean_status_pods}
use kubesim.Simulator.Pods.Reason.{get_main_fail_reason-stop_reasons}
use kubesim.Simulator.Runs.{Ended}

module _ (p : Platform) (m : ℕ) where
  -- A run of `SchedulerPod` from a fresh request: it ends, is refused its first pod, or blocks.
  abbrev Schedules : Outcome (Kubesim p) Unit → Type 0
  Schedules (done u s) =
      (msg : Text) × ((pod : Pod p.Quantity) × (s.simulated_pod ≡ some pod))
      × (s.max_simulated ≡ pos m)
      × Ended p m msg s.status
  Schedules (fails e s) = Unit
  Schedules panics = ⊥
  Schedules blocks = Unit

  -- What a report says of a status with `k` pods.
  abbrev pub Reads : ℕ → Review p.Quantity → Type 0
  Reads k r =
      (r.spec.desired_replicas ≡ pos m)
      × (r.status.replicas ≡ pos k)
      × (total r.status.pods ≡ k)
      × (((k ≡ m) × (r.status.reason.kind ≡ codes "Schedulable"))
          ⊎ ((k < m) × (r.status.reason.kind ≡ codes "Unschedulable")))

  made : Pod p.Quantity → Status p.Quantity → FailReason → List ReviewResult → Review p.Quantity
  made pod st reason results = record {
    spec = get_review_spec p (pod ∷ []) (pos m);
    status = record { replicas = len32 st.pods; reason = reason; pods = results };
  }

  get_report-made :
      (pod : Pod p.Quantity) (st : Status p.Quantity) (reason : FailReason)
      (results : List ReviewResult)
      → get_main_fail_reason st.stop_reason ≡ some reason
      → parse_pods_review (pod ∷ []) st ≡ some results
      → get_report p (pod ∷ []) st (pos m) ≡ some (made pod st reason results)
  unfolding get_report made
  get_report-made pod st reason results e f = ground arith

  -- The reason that the report reads from the stop reason.
  ReadReason : Text → Status p.Quantity → Type 0
  ReadReason kind st =
      (msg : Text) × (get_main_fail_reason st.stop_reason
        ≡ some (record { kind = kind; message = msg }))

  get_report-Reads :
      (pod : Pod p.Quantity) (st : Status p.Quantity) (kind : Text)
      → m < 2147483648
      → ReadReason kind st
      → ((length st.pods ≡ m) × (kind ≡ codes "Schedulable"))
        ⊎ ((length st.pods < m) × (kind ≡ codes "Unschedulable"))
      → (r : Review p.Quantity) × (get_report p (pod ∷ []) st (pos m) ≡ some r)
        × Reads (length st.pods) r
  unfolding made get_review_spec ReadReason
  get_report-Reads pod st kind h (msg, e) c =
      let found = total-parse_pods_review pod [] st in
      (
        made pod st (record { kind = kind; message = msg }) found.0,
        get_report-made pod st (record { kind = kind; message = msg }) found.0 e found.1,
        (refl, wrap32-pos (length st.pods) (ground arith), found.2, c),
      )

  pub Ended-Reads :
      (pod : Pod p.Quantity) (msg : Text) (st : Status p.Quantity)
      → m < 2147483648
      → Ended p m msg st
      → (r : Review p.Quantity) × (get_report p (pod ∷ []) st (pos m) ≡ some r)
        × Reads (length st.pods) r
  unfolding ReadReason
  Ended-Reads pod msg st h (inl (full, e)) =
      let reason = get_main_fail_reason-stop_reasons (pos m) [] in
      get_report-Reads pod st (codes "Schedulable") h (_, ap get_main_fail_reason e ∙ reason.0)
        (inl (full, refl))
  Ended-Reads pod msg st h (inr (few, e)) =
      let reason = get_main_fail_reason-stop_reasons (pos 0) msg in
      get_report-Reads pod st (codes "Unschedulable") h (_, ap get_main_fail_reason e ∙ reason.1)
        (inr (few, refl))

  -- The outcome of one app's emulation: where it ends without an error, a report of what was placed.
  abbrev pub Emulates : Outcome (Kubesim p) (Review p.Quantity) → Type 0
  Emulates (done r s) = (s.status.pods ≡ []) × ((k : ℕ) × Reads k r)
  Emulates (fails e s) = Unit
  Emulates panics = Unit
  Emulates blocks = Unit

  report_run : Kubesim p → Outcome (Kubesim p) (Review p.Quantity)
  report_run s =
      then_do (report p s) (λ r s'. then_do (clean_status_pods p s') (λ _ s''. done r s''))
