-- ===== src/Utils.antt =====
-- pkg/utils/utils.go: the requests, and how deployments and stateful sets become pod templates.
-- Reading JSON is a library's work: a decoder's result is the value that it left and whether it
-- failed. Only the templates' fields that the program copies are kept.
pub mod Replicas
pub mod Output
use kubesim.Prelude.{
  ℕ, ◌+◌, ◌-◌, Bool, true, false, ◌&&◌, ◌||◌, Option, none, some, List, [], ◌∷◌, ◌++◌, map, String,
  str_eq, ◌==◌, leb, if◌then◌else◌,
}
use kubesim.Prelude.Int.{ℤ, pos}
use kubesim.Prelude.Map.{Map}
use kubesim.Prelude.Text.{Text, codes, Error, client, message, wrapped}
use kubesim.Prelude.Exec.{
  Outcome, done, fails, panics, blocks, Exec, ◌>>=◌, ◌>>◌, pure, raise, crash, wrap, forget,
}
use kubesim.Platform.{Platform, Pod, Container}

pub record NodeCapacity : Type 0 where
  pub gpu_number : ℤ
  pub cpu : ℤ
  pub memory : ℤ
  pub storage : ℤ

-- A nil pointer or map is `none`.
pub record NodeConfig : Type 0 where
  pub node_number : ℤ
  pub node_capacity : Option NodeCapacity
  pub node_labels : Option (Map String)

pub record PodsInfo : Type 0 where
  pub name : String
  pub namespace : String
  pub target_node_name : String

pub record PodsConfig : Type 0 where
  pub op : String
  pub pods : List PodsInfo

pub record PodRequest (Quantity : Type 0) : Type 0 where
  pub pod : Option (Pod Quantity)
  pub replicas : ℤ
  pub kind : String

pub record AppGroup (Quantity : Type 0) : Type 0 where
  pub emulator_type : String
  pub nodes : List NodeConfig
  pub apps : List (PodRequest Quantity)
  pub old_pods : List (Pod Quantity)
  pub pods_config : Option PodsConfig

-- `appsv1.Deployment` and `appsv1.StatefulSet`, which the parsers read alike.
pub record Workload (Quantity : Type 0) : Type 0 where
  pub kind : String
  pub name : String
  pub namespace : String
  pub annotations : Option (Map String)
  pub replicas : Option ℤ
  pub template_labels : Option (Map String)
  pub containers : List (Container Quantity)
  pub node_name : String
  pub node_selector : Option (Map String)
  pub scheduler_name : String

pub record Apps (Quantity : Type 0) : Type 0 where
  pub nodes : List NodeConfig
  pub deploy_apps : List (Option (Workload Quantity))
  pub statefulset_apps : List (Option (Workload Quantity))

-- What `json.NewDecoder(data).Decode(&v)` leaves in `v`, and whether it returned an error.
pub record Decoded (A : Type 0) : Type 0 where
  pub value : A
  pub failed : Bool

abbrev lower : ℕ → ℕ
lower c = if leb 65 c && leb c 90 then c + 32 else c

abbrev pub text_eq : Text → Text → Bool
text_eq [] [] = true
text_eq (a ∷ as') (b ∷ bs) = a == b && text_eq as' bs
text_eq _ _ = false

-- `strings.ToLower(kind) == name`, for an ASCII kind.
unfoldable pub is_kind : String → String → Bool
is_kind name kind = text_eq (map lower (codes kind)) (codes name)

-- `len(uid) == 0` draws a UUID. The state is the number of UUIDs drawn so far.
unfoldable pub get_uid : (ℕ → String) → String → Exec ℕ String
get_uid uuid uid i = if str_eq uid "" then done (uuid i) (i + 1) else done uid i

unfoldable pub get_default_scheduler_name : String → String
get_default_scheduler_name dsn = if str_eq dsn "" then "default-scheduler" else dsn

-- `*replicas`, which the warning reads also where the pointer is nil.
unfoldable pub replicas_or_default : Option ℤ → Exec ℕ ℤ
replicas_or_default none = crash
replicas_or_default (some (pos n)) = pure (if n == 0 then pos 1 else pos n)
replicas_or_default (some v) = pure v

module _ (p : Platform) where
  open p use {Quantity, uuid}

  -- The common text of `ParseDeployToPod` and `ParseStatefulSetToPod`.
  unfoldable pub parse_workload : String → String → Workload Quantity → Exec ℕ (Pod Quantity × ℤ)
  unfolding is_kind get_uid get_default_scheduler_name replicas_or_default
  parse_workload name invalid w =
      if is_kind name w.kind
      then (do
        replicas ← replicas_or_default w.replicas
        uid ← get_uid uuid ""
        pure (
          record {
            name = w.name;
            namespace = w.namespace;
            uid = uid;
            annotations = w.annotations;
            labels = w.template_labels;
            containers = w.containers;
            node_name = w.node_name;
            node_selector = w.node_selector;
            scheduler_name =
                if str_eq w.scheduler_name ""
                then get_default_scheduler_name "default-scheduler"
                else w.scheduler_name;
            phase = "";
            nominated_node_name = "";
            conditions = [];
          },
          replicas,
        ))
      else raise (message invalid)

  unfoldable pub parse_deploy_to_pod : Workload Quantity → Exec ℕ (Pod Quantity × ℤ)
  unfolding parse_workload
  parse_deploy_to_pod deploy = parse_workload "deployment" "invalid Deployment resource" deploy

  unfoldable pub parse_stateful_set_to_pod : Workload Quantity → Exec ℕ (Pod Quantity × ℤ)
  unfolding parse_workload
  parse_stateful_set_to_pod stateful =
      parse_workload "statefulset" "invalid StatefulSet resource" stateful

  -- An error of the parser only clears the pod and the count: the last line returns nil for it. The
  -- decoder's error is a variable of its own block, and is lost.
  abbrev pub clear_error : Outcome ℕ (Pod Quantity × ℤ) → Outcome ℕ (Option (Pod Quantity) × ℤ)
  clear_error (done (pod, replicas) i) = done (some pod, replicas) i
  clear_error (fails e i) = done (none, pos 0) i
  clear_error panics = panics
  clear_error blocks = blocks

  unfoldable pub parse_to_pod :
      String → Decoded (Workload Quantity) → Exec ℕ (Option (Pod Quantity) × ℤ)
  unfolding is_kind parse_deploy_to_pod parse_stateful_set_to_pod
  parse_to_pod rc dm i =
      if is_kind "deployment" rc
      then clear_error (parse_deploy_to_pod dm.value i)
      else if is_kind "statefulset" rc
      then clear_error (parse_stateful_set_to_pod dm.value i)
      else done (none, pos 0) i

  -- The loop over the apps; a null entry of the JSON list is a nil pointer.
  unfoldable pub parse_apps :
      (Workload Quantity → Exec ℕ (Pod Quantity × ℤ))
      → String
      → List (Option (Workload Quantity))
      → List (PodRequest Quantity)
      → Exec ℕ (List (PodRequest Quantity))
  parse_apps parse rc [] acc = pure acc
  parse_apps parse rc (none ∷ ws) acc = crash
  parse_apps parse rc (some w ∷ ws) acc = do
    (pod, replicas) ← wrap "ParseToPod, json unmarshal err" (parse w)
    parse_apps parse rc ws (acc ++ record { pod = some pod; replicas = replicas; kind = rc } ∷ [])

  unfoldable pub apps_parse_to_pod :
      String → Decoded (Apps Quantity) → Exec ℕ (List NodeConfig × List (PodRequest Quantity))
  unfolding is_kind parse_deploy_to_pod parse_stateful_set_to_pod parse_apps
  apps_parse_to_pod rc dm =
      if is_kind "deployment" rc
      then (if dm.failed then raise (wrapped "ParseToPod: json unmarshal err" client) else do
        apps ← parse_apps parse_deploy_to_pod "deployment" dm.value.deploy_apps []
        pure (dm.value.nodes, apps))
      else if is_kind "statefulset" rc
      then (if dm.failed then raise (wrapped "ParseToPod: json unmarshal err" client) else do
        apps ← parse_apps parse_stateful_set_to_pod "statefulset" dm.value.statefulset_apps []
        pure (dm.value.nodes, apps))
      else pure ([], [])
