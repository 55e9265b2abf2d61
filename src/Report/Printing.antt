-- ===== src/Report/Printing.antt =====
-- pkg/scheduler/report.go: what the printers write. The fail summaries, which nothing fills, are left
-- out. How quantities, maps and selectors print is a parameter, and so are the JSON and YAML libraries.
use mathlib.Core.List.{append-nil}
use kubesim.Prelude.{
  ◌≡◌, ℕ, Bool, false, ◌&&◌, Option, none, some, List, [], ◌∷◌, ◌++◌, String, str_eq, arith,
  if◌then◌else◌, length, ap, ◌∙◌,
}
use kubesim.Prelude.Int.{ℤ, pos, ltb_ℤ}
use kubesim.Prelude.Map.{Map}
use kubesim.Prelude.Text.{Text, codes, sprint, client, message, wrapped}
use kubesim.Prelude.Exec.{Exec, raise, modify}
use kubesim.Platform.{Platform, Pod}
use kubesim.Report.{
  Review, ReviewStatus, ReviewResult, ReplicasOnNode, Requirements, Status, instances_sum,
  get_report,
}
use kubesim.Report.Distribution.{
  get_report-pods, total, total-parse_pods_review, parse_pods_review-single,
}

pub record Formats (Q : Type 0) : Type 0 where
  pub cpu : Map Q → Text
  pub memory : Map Q → Text
  pub scalars : Map ℤ → Text
  pub selector : Map String → Text
  pub marshal_json : Review Q → Option Text
  pub marshal_yaml : Review Q → Option Text
  -- What klog writes for a format without arguments.
  pub infof : Text → Text

-- What was written to standard output, and what was logged.
pub record Output : Type 0 where
  pub printed : Text
  pub logged : Text

abbrev newline : Text
newline = 10 ∷ []

abbrev line : String → Text → Text
line label value = codes label ++ value ++ newline

abbrev tabbed : String → Text → Text
tabbed label value = 9 ∷ line label value

abbrev number : ℕ → Text
number n = sprint (pos n)

module _ {Q : Type 0} (f : Formats Q) where
  abbrev optional : {A : Type 0} → String → (A → Text) → Option A → Text
  optional label text none = []
  optional label text (some a) = tabbed label (text a)

  unfoldable pub requirement_lines : List (Requirements Q) → Text
  requirement_lines [] = []
  requirement_lines (req ∷ rest) =
      codes req.pod_name
      ++ line " pod requirements:" []
      ++ tabbed "- CPU: " (f.cpu req.resources.primary_resources)
      ++ tabbed "- Memory: " (f.memory req.resources.primary_resources)
      ++ optional "- ScalarResources: " f.scalars req.resources.scalar_resources
      ++ optional "- NodeSelector: " f.selector req.node_selectors
      ++ requirement_lines rest

  abbrev count_line : Bool → ReviewResult → Text
  count_line verbose pod =
      if verbose
      then codes "The cluster can schedule "
        ++ number (instances_sum pod.replicas_on_nodes)
        ++ line " instance(s) of the pod " (codes pod.us_name ++ codes ".")
      else number (instances_sum pod.replicas_on_nodes) ++ newline

  unfoldable pub count_lines : Bool → List ReviewResult → Text
  unfolding instances_sum sprint
  count_lines verbose [] = []
  count_lines verbose (pod ∷ pods) = count_line verbose pod ++ count_lines verbose pods

  unfoldable pub node_lines : List ReplicasOnNode → Text
  unfolding sprint
  node_lines [] = []
  node_lines (ron ∷ rest) =
      tabbed "- " (codes ron.node_name ++ codes ": " ++ number ron.replicas ++ codes " instance(s)")
      ++ node_lines rest

  unfoldable pub distribution_lines : List ReviewResult → Text
  unfolding node_lines
  distribution_lines [] = []
  distribution_lines (pod ∷ pods) =
      line pod.us_name [] ++ node_lines pod.replicas_on_nodes ++ distribution_lines pods

  -- `SchedulerEmulatorReviewPrettyPrint`
  unfoldable pub review_pretty_print : Review Q → Bool → Text
  unfolding requirement_lines count_lines distribution_lines
  review_pretty_print r verbose =
      (if verbose then requirement_lines r.spec.pod_requirements else [])
      ++ count_lines verbose r.status.pods
      ++ (if verbose
          then newline
            ++ line "Termination reason: "
                (r.status.reason.kind ++ codes ": " ++ r.status.reason.message)
          else [])
      ++ (if verbose && ltb_ℤ (pos 0) r.status.replicas
          then newline
            ++ line "Pod distribution among nodes:" []
            ++ distribution_lines r.status.pods
          else [])

  abbrev logs : String → Option Text → Exec Output Unit
  logs m none = raise (wrapped m client)
  logs m (some text) = modify (λ o. record o { logged = o.logged ++ f.infof text })

  -- `SchedulerEmulatorReviewPrintJson`
  unfoldable pub review_print_json : Review Q → Exec Output Unit
  review_print_json r = logs "Failed to create json" (f.marshal_json r)

  -- `SchedulerEmulatorReviewPrintYaml`
  unfoldable pub review_print_yaml : Review Q → Exec Output Unit
  review_print_yaml r = logs "Failed to create yaml" (f.marshal_yaml r)

  -- `SchedulerEmulatorReviewPrint`; the error names the format.
  unfoldable pub review_print : Review Q → Bool → String → Exec Output Unit
  unfolding review_print_json review_print_yaml review_pretty_print
  review_print r verbose format =
      if str_eq format "json"
      then review_print_json r
      else if str_eq format "yaml"
      then review_print_yaml r
      else if str_eq format ""
      then modify (λ o. record o { printed = o.printed ++ review_pretty_print r verbose })
      else raise (message "output format not recognized")

-- Without the verbose flag, what is printed of a report on a run for one app, which is made from the
-- app's pod and the status, is the number of the placed pods on a line, and nothing else.
pub review_pretty_print-quiet :
    (p : Platform) (f : Formats p.Quantity) (t : Pod p.Quantity) (status : Status p.Quantity)
    (desired : ℤ) (r : Review p.Quantity)
    → get_report p (t ∷ []) status desired ≡ some r
    → review_pretty_print f r false ≡ sprint (pos (length status.pods)) ++ 10 ∷ []
unfolding review_pretty_print total
review_pretty_print-quiet p f t status desired r made =
    let (x, parsed, name, distinct, held) = parse_pods_review-single t status in
    let (rs, parsed', counted) = total-parse_pods_review t [] status in
    let one : rs ≡ x ∷ [] = cc (parsed, parsed') in
    let pods = get_report-pods p (t ∷ []) status desired (x ∷ []) r parsed made in
    let sum_is : instances_sum x.replicas_on_nodes ≡ length status.pods =
      omega (arith, counted, ap total one) in
    quiet r.status
    ∙ ap (count_lines f false) pods
    ∙ append-nil (number (instances_sum x.replicas_on_nodes) ++ newline)
    ∙ ap (λ n. number n ++ newline) sum_is
  where
    quiet :
        (st : ReviewStatus)
        → (count_lines f false st.pods ++ []) ++ [] ≡ count_lines f false st.pods
    quiet st = simp append-nil
