-- ===== src/Command.antt =====
-- cmd/kubesim/app: the options, and how `Run` of server.go starts kubesim.
pub mod Servers
pub mod Start
pub mod Main
use kubesim.Prelude.{
  Bool, true, false, not, ◌||◌, ◌&&◌, ℕ, Option, none, some, List, [], ◌∷◌, String, str_eq,
  if◌then◌else◌,
}
use kubesim.Prelude.Int.{ℤ, pos}
use kubesim.Prelude.Map.{Map, lookup}
use kubesim.Prelude.Text.{Error, client, message, wrapped}
use kubesim.Prelude.Exec.{Exec, ◌>>=◌, ◌>>◌, pure, raise, wrap}

-- `KubesimOptions`
pub record KubesimOptions : Type 0 where
  pub kube_config : String
  pub scheduler_config_file : String
  pub default_scheduler_config_file : String
  pub policy_file : String
  pub port : String
  pub verbose : Bool
  pub pod_spec_file : String
  pub output_format : String
  pub add_node_strategy : String
  pub skip_in_cluster_lookup : Bool
  pub skip_sync_cluster : Bool
  pub client_cert_client_ca : String
  pub request_header_client_ca_file : String
  pub max_limit : ℤ

unfoldable pub new_kubesim_options : KubesimOptions
new_kubesim_options = record {
  kube_config = "";
  scheduler_config_file = "";
  default_scheduler_config_file = "";
  policy_file = "";
  port = "";
  verbose = false;
  pod_spec_file = "";
  output_format = "";
  add_node_strategy = "";
  skip_in_cluster_lookup = false;
  skip_sync_cluster = false;
  client_cert_client_ca = "";
  request_header_client_ca_file = "";
  max_limit = pos 0;
}

-- A flag with its default, which pflag writes to the option.
pub data Flag : Type 0 where
  string_flag : String → String → Flag
  bool_flag : String → Bool → Flag

-- `AddFlags`: the flags, and the options with the defaults written.
unfoldable pub add_flags : KubesimOptions → List Flag × KubesimOptions
add_flags s = (
  string_flag "kubeconfig" s.kube_config
      ∷ string_flag "port" s.port
      ∷ bool_flag "skipinclusterlookup" s.skip_in_cluster_lookup
      ∷ string_flag "clientcertclientCA" s.client_cert_client_ca
      ∷ string_flag "requestclientCAfile" s.client_cert_client_ca
      ∷ string_flag "config" s.scheduler_config_file
      ∷ string_flag "policyfile" s.policy_file
      ∷ string_flag "addnodestrategy" s.add_node_strategy
      ∷ string_flag "default-config" s.default_scheduler_config_file
      ∷ bool_flag "verbose" true
      ∷ bool_flag "skipsync" false
      ∷ string_flag "output" s.output_format
      ∷ [],
  record s {
    request_header_client_ca_file = s.client_cert_client_ca;
    verbose = true;
    skip_sync_cluster = false;
  },
)

-- What `Run` writes of the scheduler's options.
pub record SchedOptions : Type 0 where
  pub config_file : String
  pub client_ca : String
  pub request_header_ca : String
  pub remote_kube_config_file : String
  pub policy_config_file : String
  pub use_legacy_policy_config : Bool
  pub leader_elect : Bool
  pub insecure_port : ℕ
  pub secure_port : ℕ

-- What is read of a kubeconfig: the clusters of the contexts, and the servers of the clusters.
pub record KubeConfig : Type 0 where
  pub current_context : String
  pub contexts : Map String
  pub clusters : Map String

-- The libraries that the start calls; `none` is an error. `self_signed` is
-- `MaybeDefaultWithSelfSignedCerts`, `apply_to` gives the scheduler's configuration, `new_lock` and
-- `configz` are `resourcelock.New` and `configz.New`. `leader_elect` is what the configuration says of
-- leader election, which may come from a file.
pub record Host : Type 1 where
  pub Config : Type 0
  pub Completed : Type 0
  pub load_from_file : String → Option KubeConfig
  pub build_config_from_flags : String → String → Option Config
  pub in_cluster_config : Option Config
  pub new_for_config : Config → Option (Unit {0})
  pub new_options : Option SchedOptions
  pub self_signed : SchedOptions → Option SchedOptions
  pub apply_to : SchedOptions → Option Completed
  pub hostname : Option String
  pub new_lock : String → Option (Unit {0})
  pub configz : Completed → Option (Unit {0})
  pub leader_elect : Completed → Bool

abbrev pub Boot : Type 0 → Type 0
Boot = Exec Unit

abbrev pub or_client : {A : Type 0} → Option A → Boot A
or_client none = raise client
or_client (some a) = pure a

abbrev pub or_message : {A : Type 0} → String → Option A → Boot A
or_message m none = raise (message m)
or_message m (some a) = pure a

abbrev missing : String → Bool
missing s = str_eq s ""

-- `Validate`; the variable is `KS_INCLUSTER`.
unfoldable pub validate : Option String → KubesimOptions → Boot Unit
validate none opt =
    if missing opt.kube_config then raise (message "kubeconfig is missing") else pure tt
validate (some value) opt = pure tt

-- The default strategy.
unfoldable pub strategy_of : KubesimOptions → String
strategy_of opt = if missing opt.add_node_strategy then "prd" else opt.add_node_strategy

module _ (h : Host) where
  open h use {
    Config, Completed, load_from_file, build_config_from_flags, in_cluster_config, new_options,
    self_signed, apply_to, hostname, new_lock, configz,
  }

  -- `utils.GetMasterFromKubeConfig`
  unfoldable pub get_master_from_kube_config : String → Boot String
  unfolding lookup
  get_master_from_kube_config filename = do
    config ← wrap "can not load kubeconfig file" (or_client (load_from_file filename))
    cluster ←
        or_message "Failed to get master address from kubeconfig"
          (lookup config.current_context config.contexts)
    or_message "Failed to get master address from kubeconfig" (lookup cluster config.clusters)

  unfoldable pub client_config : String → Boot Config
  unfolding get_master_from_kube_config
  client_config kube_config =
      if not (missing kube_config)
      then (do
        master ← wrap "Failed to parse kubeconfig file" (get_master_from_kube_config kube_config)
        wrap "Unable to build config" (or_client (build_config_from_flags master kube_config)))
      else wrap "Unable to build in cluster config" (or_client in_cluster_config)

  abbrev with_config_file : KubesimOptions → SchedOptions → SchedOptions
  with_config_file opt s =
      if not (missing opt.scheduler_config_file)
      then record s { config_file = opt.scheduler_config_file }
      else s

  abbrev with_authentication : KubesimOptions → SchedOptions → Boot SchedOptions
  with_authentication opt s =
      if opt.skip_in_cluster_lookup
      then (if missing opt.client_cert_client_ca || missing opt.request_header_client_ca_file
          then raise
              (message "please give the ClientCertClientCA and RequestHeaderClientCAFile value")
          else pure s)
      else pure (record s {
        client_ca = opt.client_cert_client_ca;
        request_header_ca = opt.request_header_client_ca_file;
      })

  abbrev with_rest : KubesimOptions → SchedOptions → SchedOptions
  with_rest opt s =
      let s' =
        if missing s.remote_kube_config_file
        then record s { remote_kube_config_file = opt.kube_config }
        else s in
      let s'' =
        if not (missing opt.policy_file)
        then record s' { policy_config_file = opt.policy_file; use_legacy_policy_config = true }
        else s' in
      record s'' { leader_elect = true; insecure_port = 10261; secure_port = 10262 }

  -- The part of `Run` that fills the scheduler's options.
  unfoldable pub scheduler_options : KubesimOptions → Boot SchedOptions
  scheduler_options opt = do
    opts ← wrap "unable to create scheduler options" (or_client new_options)
    authenticated ← with_authentication opt (with_config_file opt opts)
    wrap "error creating self-signed certificates"
        (or_client (self_signed (with_rest opt authenticated)))

  -- `makeLeaderElectionConfig`; the identity is unique by a UUID.
  unfoldable pub make_leader_election_config : Boot Unit
  make_leader_election_config = do
    name ← wrap "unable to get hostname" (or_client hostname)
    wrap "couldn't create resource lock" (or_client (new_lock name))

  -- `InitKubeSchedulerConfiguration`
  unfoldable pub init_kube_scheduler_configuration : SchedOptions → Boot Completed
  unfolding make_leader_election_config
  init_kube_scheduler_configuration opts = do
    c ← wrap "unable to get scheduler config" (or_client (apply_to opts))
    if h.leader_elect c then make_leader_election_config else pure tt
    wrap "unable to register configz" (or_client (configz c))
    pure c
