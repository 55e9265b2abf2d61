-- ===== src/Utils/Replicas.antt =====
-- What the parsers make of the replicas, and of errors.
use kubesim.Prelude.{
  ℕ, ◌≡◌, refl, Option, none, some, String, arith, inl, inr, Bool-cases, if◌then◌else◌, ◌==◌,
}
use kubesim.Prelude.Int.{ℤ, pos, negsuc}
use kubesim.Prelude.Exec.{Outcome, done, fails, panics, blocks, Exec, then_do}
use kubesim.Platform.{Platform, Pod}
use kubesim.Utils.{
  get_uid, replicas_or_default, clear_error, Workload, Decoded, is_kind, parse_workload,
  parse_deploy_to_pod, parse_stateful_set_to_pod, parse_to_pod,
}

module _ (p : Platform) where
  -- No error is returned, and without a pod the count is 0.
  abbrev pub NeverFails : Outcome ℕ (Option (Pod p.Quantity) × ℤ) → Type 0
  NeverFails (done (none, n) i) = n ≡ pos 0
  NeverFails (done (some pod, n) i) = Unit
  NeverFails (fails e i) = ⊥
  NeverFails panics = Unit
  NeverFails blocks = ⊥

  abbrev Ends : {A : Type 0} → Outcome ℕ A → Type 0
  Ends blocks = ⊥
  Ends _ = Unit

  clear_error-NeverFails :
      (o : Outcome ℕ (Pod p.Quantity × ℤ)) → Ends o → NeverFails (clear_error p o)
  clear_error-NeverFails (done (pod, n) i) h = tt
  clear_error-NeverFails (fails e i) h = refl
  clear_error-NeverFails panics h = tt
  clear_error-NeverFails blocks h = h

  replicas_or_default-Ends :
      {B : Type 0} (r : Option ℤ) (i : ℕ) (f : ℤ → Exec ℕ B)
      → ((n : ℤ) → Ends (f n i))
      → Ends (then_do (replicas_or_default r i) f)
  unfolding replicas_or_default
  replicas_or_default-Ends none i f h = tt
  replicas_or_default-Ends (some (pos n)) i f h = h (if n == 0 then pos 1 else pos n)
  replicas_or_default-Ends (some (negsuc n)) i f h = h (negsuc n)

  parse_workload-Ends :
      (name invalid : String) (w : Workload p.Quantity) (i : ℕ)
      → Ends (parse_workload p name invalid w i)
  unfolding parse_workload get_uid
  parse_workload-Ends name invalid w i = elim (Bool-cases (is_kind name w.kind)) [
    | inl here ↦ rw (here, parse_workload) (replicas_or_default-Ends w.replicas i _ λ n. tt)
    | inr other ↦ rw (other, parse_workload) tt
  ]

  -- `ParseToPod` returns no error, whatever kind is asked for, whatever the decoder answers and
  -- whether or not the document is of that kind; where there is no pod, the count is 0.
  pub parse_to_pod-NeverFails :
      (rc : String) (dm : Decoded (Workload p.Quantity)) (i : ℕ)
      → NeverFails (parse_to_pod p rc dm i)
  unfolding parse_to_pod parse_deploy_to_pod parse_stateful_set_to_pod
  parse_to_pod-NeverFails rc dm i = ground (
    arith,
    clear_error-NeverFails (parse_deploy_to_pod p dm.value i)
        (parse_workload-Ends "deployment" _ dm.value i),
    clear_error-NeverFails (parse_stateful_set_to_pod p dm.value i)
        (parse_workload-Ends "statefulset" _ dm.value i),
  )
