-- ===== src/Report.antt =====
-- pkg/scheduler/report.go: what one emulation found, for one app. `CreationTimestamp` (the wall
-- clock) and `FailSummary` (which no code fills) are left out.
pub mod Counting
pub mod Distribution
pub mod Printing
use kubesim.Prelude.{
  ℕ, zero, suc, ◌+◌, ◌%◌, Bool, true, false, not, ◌&&◌, Option, none, some, List, [], ◌∷◌, ◌++◌,
  map, String, str_eq, if◌then◌else◌, leb, length, take,
}
use kubesim.Prelude.Int.{ℤ, pos, add64, wrap32}
use kubesim.Prelude.Map.{Map, lookup, insert}
use kubesim.Prelude.Text.{Text, first_line, index, trim}
use kubesim.Platform.{Platform, Pod, Container}

pub record FailReason : Type 0 where
  pub kind : Text
  pub message : Text

pub record ReplicasOnNode : Type 0 where
  pub node_name : String
  pub replicas : ℕ

pub record ReviewResult : Type 0 where
  pub us_name : String
  pub replicas_on_nodes : List ReplicasOnNode

pub record Resources (Quantity : Type 0) : Type 0 where
  pub primary_resources : Map Quantity
  pub scalar_resources : Option (Map ℤ)

pub record Requirements (Quantity : Type 0) : Type 0 where
  pub pod_name : String
  pub resources : Resources Quantity
  pub node_selectors : Option (Map String)

pub record ReviewSpec (Quantity : Type 0) : Type 0 where
  pub desired_replicas : ℤ
  pub pod_requirements : List (Requirements Quantity)

pub record ReviewStatus : Type 0 where
  pub replicas : ℤ
  pub reason : FailReason
  pub pods : List ReviewResult

-- `SchedulerEmulatorReview`
pub record Review (Quantity : Type 0) : Type 0 where
  pub spec : ReviewSpec Quantity
  pub status : ReviewStatus

-- `Status`: the pods that were placed, and why the emulation stopped.
pub record Status (Quantity : Type 0) : Type 0 where
  pub pods : List (Pod Quantity)
  pub stop_reason : Text

-- `s[i+1:]`
abbrev pub drop_after : ℕ → Text → Text
drop_after n [] = []
drop_after zero (c ∷ cs) = cs
drop_after (suc n) (c ∷ cs) = drop_after n cs

-- `none` is a panic: with no colon in the first line the slice bound is -1.
unfoldable pub get_main_fail_reason : Text → Option FailReason
unfolding first_line index trim
get_main_fail_reason message =
    let line = first_line message in
    elim (index 58 line) [
      | none ↦ none
      | some colon ↦
          some (record { kind = take colon line; message = trim 32 (drop_after colon line) })
    ]

module _ (p : Platform) where
  open p use {Quantity, milli, binary, add, value, is_scalar_resource_name}

  -- The entry of a resource list, or the zero quantity that `Memory()` and `Cpu()` make up.
  abbrev entry_or : Quantity → Option Quantity → Quantity
  entry_or q none = q
  entry_or q (some r) = r

  abbrev scalar_or_zero : Option ℤ → ℤ
  scalar_or_zero none = pos 0
  scalar_or_zero (some v) = v

  -- `result.ScalarResources[rName] += rQuantity.Value()`, the map allocated on first use.
  add_scalar : String → Quantity → Option (Map ℤ) → Option (Map ℤ)
  add_scalar name q none = some (insert name (add64 (pos 0) (value q)) [])
  add_scalar name q (some m) =
      some (insert name (add64 (scalar_or_zero (lookup name m)) (value q)) m)

  -- The body of the loop over `container.Resources.Requests`.
  add_request : String → Quantity → Resources Quantity → Resources Quantity
  unfolding add_scalar
  add_request name q r =
      if str_eq name "memory"
      then record r {
        primary_resources =
            insert "memory"
              (add q (entry_or (binary (pos 0)) (lookup "memory" r.primary_resources)))
              r.primary_resources;
      }
      else if str_eq name "cpu"
      then record r {
        primary_resources =
            insert "cpu" (add q (entry_or (milli (pos 0)) (lookup "cpu" r.primary_resources)))
              r.primary_resources;
      }
      else if is_scalar_resource_name name
      then record r { scalar_resources = add_scalar name q r.scalar_resources }
      else r

  add_requests : Map Quantity → Resources Quantity → Resources Quantity
  unfolding add_request
  add_requests [] r = r
  add_requests ((name, q) ∷ rest) r = add_requests rest (add_request name q r)

  add_containers : List (Container Quantity) → Resources Quantity → Resources Quantity
  unfolding add_requests
  add_containers [] r = r
  add_containers (c ∷ cs) r = add_containers cs (add_requests c.requests r)

  abbrev no_resources : Resources Quantity
  no_resources = record {
    primary_resources =
        ("cpu", milli (pos 0)) ∷ ("memory", binary (pos 0)) ∷ ("nvdia.com/gpu", milli (pos 0)) ∷ [];
    scalar_resources = none;
  }

  unfoldable pub get_resource_request : Pod Quantity → Resources Quantity
  unfolding add_containers
  get_resource_request pod = add_containers pod.containers no_resources

  unfoldable pub get_pods_requirements : List (Pod Quantity) → List (Requirements Quantity)
  unfolding get_resource_request
  get_pods_requirements [] = []
  get_pods_requirements (pod ∷ rest) =
      record {
        pod_name = pod.name;
        resources = get_resource_request pod;
        node_selectors = pod.node_selector;
      }
      ∷ get_pods_requirements rest

  unfoldable pub get_review_spec : List (Pod Quantity) → ℤ → ReviewSpec Quantity
  unfolding get_pods_requirements
  get_review_spec templates desired = record {
    desired_replicas = desired;
    pod_requirements = get_pods_requirements templates;
  }

abbrev on_node : String → ReplicasOnNode → Bool
on_node node sum = str_eq sum.node_name node

-- Every entry of the node gets one replica more.
pub bump : String → List ReplicasOnNode → List ReplicasOnNode
bump node [] = []
bump node (sum ∷ sums) =
    (if on_node node sum then record sum { replicas = sum.replicas + 1 } else sum) ∷ bump node sums

pub is_first : String → List ReplicasOnNode → Bool
is_first node [] = true
is_first node (sum ∷ sums) = not (on_node node sum) && is_first node sums

unfoldable pub record_pod : String → List ReplicasOnNode → List ReplicasOnNode
unfolding bump is_first
record_pod node sums =
    if is_first node sums
    then bump node sums ++ record { node_name = node; replicas = 1 } ∷ []
    else bump node sums

-- The body of the loop, at `result[i]`.
unfoldable pub record_at : ℕ → String → List ReviewResult → List ReviewResult
unfolding record_pod
record_at i node [] = []
record_at zero node (r ∷ rs) =
    record r { replicas_on_nodes = record_pod node r.replicas_on_nodes } ∷ rs
record_at (suc i) node (r ∷ rs) = r ∷ record_at i node rs

unfoldable pub parse_loop :
    {Q : Type 0} → ℕ → ℕ → List (Pod Q) → List ReviewResult → List ReviewResult
unfolding record_at
parse_loop n i [] result = result
parse_loop n i (pod ∷ pods) result =
    parse_loop n (i + 1) pods (record_at (i % n) pod.node_name result)

abbrev empty_result : {Q : Type 0} → Pod Q → ReviewResult
empty_result template = record { us_name = template.name; replicas_on_nodes = [] }

-- `none` is a panic: with no template and some pod, `i % templatesCount` divides by zero.
unfoldable pub parse_pods_review :
    {Q : Type 0} → List (Pod Q) → Status Q → Option (List ReviewResult)
unfolding parse_loop
parse_pods_review templates status =
    let result = map empty_result templates in
    let all = parse_loop (length templates) 0 status.pods result in
    elim templates [
      | [] ↦ elim status.pods [ [] ↦ some result | pod ∷ pods ↦ none ]
      | template ∷ more ↦ some all
    ]

-- `int32(len(status.Pods))`
abbrev pub len32 : {A : Type 0} → List A → ℤ
len32 xs = wrap32 (pos (length xs))

unfoldable pub get_review_status : {Q : Type 0} → List (Pod Q) → Status Q → Option ReviewStatus
get_review_status pods status = elim (get_main_fail_reason status.stop_reason) [
  | none ↦ none
  | some reason ↦ elim (parse_pods_review pods status) [
    | none ↦ none
    | some results ↦ some (record { replicas = len32 status.pods; reason = reason; pods = results })
  ]
]

-- `none` is a panic of `getReviewStatus`.
unfoldable pub get_report :
    (p : Platform) → List (Pod p.Quantity) → Status p.Quantity → ℤ → Option (Review p.Quantity)
unfolding get_review_status
get_report p pods status desired = elim (get_review_status pods status) [
  | none ↦ none
  | some s ↦ some (record { spec = get_review_spec p pods desired; status = s })
]

unfoldable pub instances_sum : List ReplicasOnNode → ℕ
instances_sum [] = 0
instances_sum (v ∷ vs) = v.replicas + instances_sum vs
