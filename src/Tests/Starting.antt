-- ===== src/Tests/Starting.antt =====
-- The servers of a start.
use kubesim.Prelude.{true, false, none, some, [], ◌∷◌, String, str_eq, if◌then◌else◌}
use kubesim.Prelude.Map.{lookup, insert, present}
use kubesim.Command.{SchedOptions, Host}
use kubesim.Command.Servers.{Servers, start_servers}
use kubesim.Command.Servers.Metrics.{Starts, start_servers-Starts}

abbrev no_options : SchedOptions
no_options = record {
  config_file = "";
  client_ca = "";
  request_header_ca = "";
  remote_kube_config_file = "";
  policy_config_file = "";
  use_legacy_policy_config = false;
  leader_elect = false;
  insecure_port = 0;
  secure_port = 0;
}

-- Libraries that succeed, with a kubeconfig of one cluster.
abbrev host : Host
host = record {
  Config = String;
  Completed = SchedOptions;
  load_from_file = λ name. some (record {
    current_context = "lab";
    contexts = ("lab", "c1") ∷ [];
    clusters = ("c1", "https://10.0.0.1") ∷ [];
  });
  build_config_from_flags = λ master name. some master;
  in_cluster_config = none;
  new_for_config = λ config. some tt;
  new_options = some no_options;
  self_signed = λ opts. some opts;
  apply_to = λ opts. some opts;
  hostname = some "box";
  new_lock = λ name. some tt;
  configz = λ conf. some tt;
  leader_elect = λ conf. conf.leader_elect;
}

-- A scheduler that can be made, and servers on one port each; the second is taken.
abbrev servers : Servers host
servers = record {
  Factory = String;
  Listener = String;
  register = λ name plugin registry.
      if present (lookup name registry) then none else some (insert name plugin registry);
  new_scheduler = λ conf registry. some tt;
  enable_profiling = λ conf. true;
  enable_contention_profiling = λ conf. false;
  insecure_serving = λ conf. some "10261";
  insecure_metrics_serving = λ conf. none;
  serve = λ port handler. if str_eq port "10262" then none else some tt;
}

start_servers-Starts_example :
    Starts host servers true
      (some "10261")
      none
      (start_servers host servers (record no_options { leader_elect = true }) tt)
start_servers-Starts_example =
    start_servers-Starts host servers (record no_options { leader_elect = true })
