-- ===== src/Report/Distribution.antt =====
-- How `parsePodsReview` distributes the placed pods over the nodes.
use kubesim.Prelude.{
  ℕ, zero, suc, ◌+◌, ◌%◌, ◌<◌, ◌≡◌, refl, some, List, [], ◌∷◌, map, String, arith, str_eq, length,
  tally, All, ap,
}
use kubesim.Prelude.Int.{ℤ}
use kubesim.Platform.{Platform, Pod}
use kubesim.Report.{
  ReviewResult, Status, record_pod, record_at, parse_loop, parse_pods_review, instances_sum,
  empty_result, Review, get_report,
}
use kubesim.Report.Counting.{
  Distinct, replicas_of, record_pod-Distinct, instances_sum-record_pod, replicas_of-record_pod,
}

-- All results hold distinct nodes.
abbrev AllDistinct : List ReviewResult → Type 0
AllDistinct = All (λ r. Distinct r.replicas_on_nodes)

-- The replicas over all results.
unfoldable pub total : List ReviewResult → ℕ
total [] = 0
total (r ∷ rs) = instances_sum r.replicas_on_nodes + total rs

record_at-AllDistinct :
    (i : ℕ) (node : String) (rs : List ReviewResult)
    → AllDistinct rs
    → AllDistinct (record_at i node rs)
unfolding record_at
record_at-AllDistinct i node [] d = tt
record_at-AllDistinct zero node (r ∷ rs) d = (record_pod-Distinct node r.replicas_on_nodes d.0, d.1)
record_at-AllDistinct (suc i) node (r ∷ rs) d = (d.0, record_at-AllDistinct i node rs d.1)

length-record_at :
    (i : ℕ) (node : String) (rs : List ReviewResult) → length (record_at i node rs) ≡ length rs
unfolding record_at
length-record_at i node [] = refl
length-record_at zero node (r ∷ rs) = refl
length-record_at (suc i) node (r ∷ rs) = omega (arith, length-record_at i node rs)

total-record_at :
    (i : ℕ) (node : String) (rs : List ReviewResult)
    → AllDistinct rs
    → i < length rs
    → total (record_at i node rs) ≡ total rs + 1
unfolding record_at total
total-record_at i node [] d h = elim h [ ]
total-record_at zero node (r ∷ rs) d h =
    omega (arith, instances_sum-record_pod node r.replicas_on_nodes d.0)
total-record_at (suc i) node (r ∷ rs) d h = omega (arith, total-record_at i node rs d.1)

total-parse_loop :
    {Q : Type 0} (n i : ℕ) (pods : List (Pod Q)) (rs : List ReviewResult)
    → AllDistinct rs
    → length rs ≡ n
    → 0 < n
    → total (parse_loop n i pods rs) ≡ total rs + length pods
unfolding parse_loop
total-parse_loop n i [] rs d l h = omega arith
total-parse_loop n i (pod ∷ pods) rs d l h = omega (
  arith,
  total-record_at (i % n) pod.node_name rs d (omega arith),
  total-parse_loop n (i + 1) pods (record_at (i % n) pod.node_name rs)
      (record_at-AllDistinct (i % n) pod.node_name rs d)
      (omega (arith, length-record_at (i % n) pod.node_name rs)) h,
)

module _ {Q : Type 0} where
  length-empty_results : (ts : List (Pod Q)) → length (map empty_result ts) ≡ length ts
  length-empty_results [] = refl
  length-empty_results (t ∷ ts) = omega (arith, length-empty_results ts)

  empty_results-AllDistinct : (ts : List (Pod Q)) → AllDistinct (map empty_result ts)
  empty_results-AllDistinct [] = tt
  empty_results-AllDistinct (t ∷ ts) = (tt, empty_results-AllDistinct ts)

  total-empty_results : (ts : List (Pod Q)) → total (map empty_result ts) ≡ 0
  unfolding total instances_sum
  total-empty_results [] = refl
  total-empty_results (t ∷ ts) = omega (arith, total-empty_results ts)

  -- With at least one template `parsePodsReview` does not panic, and every placed pod is counted
  -- once: the replicas over all results and nodes add up to the number of placed pods.
  pub total-parse_pods_review :
      (t : Pod Q) (ts : List (Pod Q)) (status : Status Q)
      → (rs : List ReviewResult) × (parse_pods_review (t ∷ ts) status ≡ some rs)
        × (total rs ≡ length status.pods)
  unfolding parse_pods_review
  total-parse_pods_review t ts status = (
    parse_loop (length (t ∷ ts)) 0 status.pods (map empty_result (t ∷ ts)),
    refl,
    omega (
      arith,
      total-empty_results (t ∷ ts),
      total-parse_loop (length (t ∷ ts)) 0 status.pods (map empty_result (t ∷ ts))
          (empty_results-AllDistinct (t ∷ ts)) (length-empty_results (t ∷ ts)) (omega arith),
    ),
  )

  -- The result of a single template after the pods were counted.
  abbrev Counted : ReviewResult → List (Pod Q) → List ReviewResult → Type 0
  Counted r pods rs =
      (r' : ReviewResult) × (rs ≡ r' ∷ [])
      × (r'.us_name ≡ r.us_name)
      × Distinct r'.replicas_on_nodes
      × ((x : String)
          → replicas_of x r'.replicas_on_nodes
            ≡ replicas_of x r.replicas_on_nodes + tally (λ pod. str_eq pod.node_name x) pods)

  parse_loop-Counted :
      (i : ℕ) (pods : List (Pod Q)) (r : ReviewResult)
      → Distinct r.replicas_on_nodes
      → Counted r pods (parse_loop 1 i pods (r ∷ []))
  unfolding parse_loop record_at
  parse_loop-Counted i [] r d = (r, refl, refl, d, λ x. omega arith)
  parse_loop-Counted i (pod ∷ pods) r d =
      let start : i % 1 ≡ 0 = omega arith in
      let rest =
        parse_loop-Counted (i + 1) pods
          (record r { replicas_on_nodes = record_pod pod.node_name r.replicas_on_nodes })
          (record_pod-Distinct pod.node_name r.replicas_on_nodes d) in
      (
        rest.0,
        rw start rest.1,
        rest.2,
        rest.3,
        λ x. omega (arith, rest.4 x, replicas_of-record_pod pod.node_name x r.replicas_on_nodes d),
      )

  -- For the one template that `Report` hands over, the result has no node twice, and gives every node
  -- as many replicas as there are placed pods with that node name.
  pub parse_pods_review-single :
      (t : Pod Q) (status : Status Q)
      → (r : ReviewResult) × (parse_pods_review (t ∷ []) status ≡ some (r ∷ []))
        × (r.us_name ≡ t.name)
        × Distinct r.replicas_on_nodes
        × ((x : String)
            → replicas_of x r.replicas_on_nodes ≡ tally (λ pod. str_eq pod.node_name x) status.pods)
  unfolding parse_pods_review replicas_of
  parse_pods_review-single t status =
      let c = parse_loop-Counted 0 status.pods (empty_result t) tt in
      (c.0, ap some c.1, c.2, c.3, λ x. omega (arith, c.4 x))

-- The results of a report are those of its pods.
pub get_report-pods :
    (p : Platform) (ts : List (Pod p.Quantity)) (status : Status p.Quantity) (desired : ℤ)
    (rs : List ReviewResult) (r : Review p.Quantity)
    → parse_pods_review ts status ≡ some rs
    → get_report p ts status desired ≡ some r
    → r.status.pods ≡ rs
unfolding get_report
get_report-pods p ts status desired rs r parsed made = ground arith
