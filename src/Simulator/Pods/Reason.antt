-- ===== src/Simulator/Pods/Reason.antt =====
-- How the stop reasons that `Bind` and `Update` print are read back by the report.
use mathlib.Core.List.{reverse, reverse-append, reverse-reverse}
use kubesim.Prelude.{
  ℕ, zero, suc, ◌+◌, ◌/◌, ◌%◌, ◌≡◌, refl, false, some, [], ◌∷◌, ◌++◌, ◌==◌, arith, ap, ◌∙◌, sym,
  All, Bool-cases, inl, inr, if◌then◌else◌,
}
use kubesim.Prelude.Int.{ℤ, pos, negsuc}
use kubesim.Prelude.Text.{Text, codes, first_line, trim, trim_left, digits_loop, sprint}
use kubesim.Report.{FailReason, get_main_fail_reason}
use kubesim.Simulator.Pods.{schedulable, unschedulable}

-- Neither a line feed nor a space.
abbrev Solid : ℕ → Type 0
Solid c = (c == 10 ≡ false) × (c == 32 ≡ false)

-- A text of such code points, and its last one.
record IsSolid (t : Text) : Type 0 where
  all : All Solid t
  before : Text
  last : ℕ
  ends : t ≡ before ++ last ∷ []
  last_solid : Solid last

digit-Solid : (n : ℕ) → Solid (48 + n % 10)
digit-Solid n = (ground arith, ground arith)

cons-IsSolid : (c : ℕ) (t : Text) → Solid c → IsSolid t → IsSolid (c ∷ t)
cons-IsSolid c t s w = record {
  all = (s, w.all);
  before = c ∷ w.before;
  last = w.last;
  ends = ap (λ t. c ∷ t) w.ends;
  last_solid = w.last_solid;
}

digits_loop-IsSolid : (fuel n : ℕ) (acc : Text) → IsSolid acc → IsSolid (digits_loop fuel n acc)
unfolding digits_loop
digits_loop-IsSolid zero n acc w = w
digits_loop-IsSolid (suc fuel) n acc w = elim (Bool-cases (n / 10 == 0)) [
  | inl stop ↦ rw stop (cons-IsSolid (48 + n % 10) acc (digit-Solid n) w)
  | inr more ↦ rw more (
      digits_loop-IsSolid fuel (n / 10) ((48 + n % 10) ∷ acc)
        (cons-IsSolid (48 + n % 10) acc (digit-Solid n) w))
]

one-IsSolid : (c : ℕ) → Solid c → IsSolid (c ∷ [])
one-IsSolid c s = record { all = (s, tt); before = []; last = c; ends = refl; last_solid = s }

digits-IsSolid : (fuel n : ℕ) → IsSolid (digits_loop (suc fuel) n [])
unfolding digits_loop
digits-IsSolid fuel n = elim (Bool-cases (n / 10 == 0)) [
  | inl stop ↦ rw stop (one-IsSolid (48 + n % 10) (digit-Solid n))
  | inr more ↦ rw more (
      digits_loop-IsSolid fuel (n / 10) ((48 + n % 10) ∷ [])
        (one-IsSolid (48 + n % 10) (digit-Solid n)))
]

sprint-IsSolid : (v : ℤ) → IsSolid (sprint v)
unfolding sprint
sprint-IsSolid (pos n) = digits-IsSolid n n
sprint-IsSolid (negsuc n) =
    cons-IsSolid 45 (digits_loop (suc (suc n)) (suc n) []) (refl, refl)
      (digits-IsSolid (suc n) (suc n))

first_line-Solid : (t : Text) → All Solid t → first_line t ≡ t
unfolding first_line
first_line-Solid [] h = refl
first_line-Solid (c ∷ t) h = ground (arith, first_line-Solid t)

-- What ends in no space is not trimmed on the right.
trim_right_lem :
    (before : Text) (last : ℕ)
    → Solid last
    → reverse (trim_left 32 (reverse (before ++ last ∷ []))) ≡ before ++ last ∷ []
unfolding trim_left
trim_right_lem before last s =
    let turned = reverse-append before (last ∷ []) in
    ap (λ t. reverse (trim_left 32 t)) turned
    ∙ ap (λ b. reverse (if b then trim_left 32 (reverse before) else last ∷ reverse before)) s.1
    ∙ ap reverse (sym turned)
    ∙ reverse-reverse (before ++ last ∷ [])

-- The prefix of a full run's reason, after the trimmed space.
abbrev pub scheduled : Text
scheduled = codes "Schedule the number of simulated pods: "

trim-scheduled : (t : Text) → IsSolid t → trim 32 (32 ∷ (scheduled ++ t)) ≡ scheduled ++ t
unfolding trim trim_left
trim-scheduled t w =
    let whole : scheduled ++ t ≡ (scheduled ++ w.before) ++ w.last ∷ [] =
      ap (λ t. scheduled ++ t) w.ends in
    ap (λ s. reverse (trim_left 32 (reverse s))) whole
    ∙ trim_right_lem (scheduled ++ w.before) w.last w.last_solid
    ∙ sym whole

-- The stop reason of a full run is read back as "Schedulable" with the message that was printed, for
-- every number of replicas, and that of an unschedulable pod as "Unschedulable" with the first line
-- of the scheduler's message, without the spaces at its ends, whatever that is.
pub get_main_fail_reason-stop_reasons :
    (replicas : ℤ) (text : Text)
    → (get_main_fail_reason (schedulable replicas)
        ≡ some (record { kind = codes "Schedulable"; message = scheduled ++ sprint replicas }))
      × (get_main_fail_reason (unschedulable "Unschedulable" text)
          ≡ some (record { kind = codes "Unschedulable"; message = trim 32 (first_line text) }))
unfolding get_main_fail_reason schedulable unschedulable trim
get_main_fail_reason-stop_reasons replicas text =
    let w = sprint-IsSolid replicas in
    (
      ap (λ t. some (reason (codes "Schedulable") (trim 32 (32 ∷ (scheduled ++ t)))))
            (first_line-Solid (sprint replicas) w.all)
          ∙ ap (λ m. some (reason (codes "Schedulable") m)) (trim-scheduled (sprint replicas) w),
      ap (λ m. some (reason (codes "Unschedulable") m)) (trim-space (first_line text)),
    )
  where
    reason : Text → Text → FailReason
    reason kind msg = record { kind = kind; message = msg }

    trim-space : (t : Text) → trim 32 (32 ∷ t) ≡ trim 32 t
    trim-space t = refl
