-- ===== src/Command/Servers.antt =====
-- pkg/scheduler/simulator.go, `New`: the scheduler with its plugins, and the servers of health checks
-- and metrics. The mux, the filters and the servers are the libraries'.
pub mod Metrics
use kubesim.Prelude.{
  Bool, true, false, not, Option, none, some, List, [], ◌∷◌, ◌++◌, String, if◌then◌else◌,
}
use kubesim.Prelude.Map.{Map, insert, present}
use kubesim.Prelude.Exec.{Exec, ◌>>=◌, ◌>>◌, pure, wrap}
use kubesim.Simulator.{Channel, unmade, opened, closed}
use kubesim.Command.{Host, Boot, or_client}

-- What is installed on a mux: the health checks, which may ask the leader election, the
-- configuration, "/metrics", "/metrics/resources", the profiles, and the flags.
pub data Installed : Type 0 where
  healthz : Bool → Installed
  configz metrics resource_metrics profiling debug_flags : Installed

pub data Filter : Type 0 where
  with_authorization with_authentication with_request_info with_cache_control with_panic_recovery :
      Filter

-- A handler: its filters, the outermost first, and what is on its mux. `block_profile` says whether the
-- process's block profile rate was set while it was built.
pub record Handler : Type 0 where
  pub filters : List Filter
  pub mux : List Installed
  pub block_profile : Bool

-- `isLeader`: a receive from an open channel that nobody sends on falls through.
unfoldable pub is_leader : Channel → Bool
is_leader unmade = false
is_leader opened = false
is_leader closed = true

-- The handler of "/metrics/resources"; `answer` is the library's.
unfoldable pub serve_resource_metrics : {A : Type 0} → Bool → A → Option A
serve_resource_metrics leader answer = if not leader then none else some answer

unfoldable pub install_metric_handler : List Installed → List Installed
install_metric_handler mux = mux ++ configz ∷ metrics ∷ resource_metrics ∷ []

-- The last part of both handlers.
abbrev install_profiling : Bool → Bool → List Installed → Handler
install_profiling profiles contention mux = record {
  filters = [];
  mux = if profiles then mux ++ profiling ∷ debug_flags ∷ [] else mux;
  block_profile = if profiles then contention else false;
}

unfoldable pub new_metrics_handler : Bool → Bool → Handler
unfolding install_metric_handler
new_metrics_handler profiles contention =
    install_profiling profiles contention (install_metric_handler [])

unfoldable pub new_healthz_handler : Bool → Bool → Bool → Bool → Handler
unfolding install_metric_handler
new_healthz_handler profiles contention separate_metrics leader_check =
    let mux = healthz leader_check ∷ [] in
    install_profiling profiles contention
      (if not separate_metrics then install_metric_handler mux else mux)

unfoldable pub build_handler_chain : Handler → Handler
build_handler_chain handler = record handler {
  filters =
      with_panic_recovery ∷ with_cache_control ∷ with_request_info ∷ with_authentication
      ∷ with_authorization ∷ handler.filters;
}

-- A plugin of the scheduler's registry: kubesim's binder for a scheduler, or one from outside.
pub data Plugin (Factory : Type 0) : Type 0 where
  kubesim_binder : String → Plugin Factory
  out_of_tree : Factory → Plugin Factory

-- What `New` reads of the completed configuration, and what it calls. `register` is
-- `Registry.Register`, `new_scheduler` the library's `scheduler.New`, and `serve` starts a server.
pub record Servers (h : Host) : Type 1 where
  pub Factory : Type 0
  pub Listener : Type 0
  pub register : String → Plugin Factory → Map (Plugin Factory) → Option (Map (Plugin Factory))
  pub new_scheduler : h.Completed → Map (Plugin Factory) → Option (Unit {0})
  pub enable_profiling : h.Completed → Bool
  pub enable_contention_profiling : h.Completed → Bool
  pub insecure_serving : h.Completed → Option Listener
  pub insecure_metrics_serving : h.Completed → Option Listener
  pub serve : Listener → Handler → Option (Unit {0})

module _ (h : Host) (v : Servers h) where
  open v use {Factory, Listener}

  abbrev pub Registry : Type 0
  Registry = Map (Plugin Factory)

  -- `WithPlugin`
  unfoldable pub with_plugin : String → Factory → Registry → Option Registry
  with_plugin name factory registry = v.register name (out_of_tree factory) registry

  -- The loop over the options.
  unfoldable pub apply_options : List (Registry → Option Registry) → Registry → Boot Registry
  apply_options [] registry = pure registry
  apply_options (option ∷ options) registry = do
    registry' ← or_client (option registry)
    apply_options options registry'

  -- `createScheduler`; the event handler is among the scheduler's calls.
  unfoldable pub create_scheduler :
      String → h.Completed → List (Registry → Option Registry) → Boot Unit
  unfolding apply_options
  create_scheduler name conf options = do
    registry ← apply_options options []
    or_client (v.new_scheduler conf (insert "KubesimBinder" (kubesim_binder name) registry))

  abbrev pub start : Option Listener → Handler → Boot (List Handler)
  start none handler = pure []
  start (some listener) handler = do
    or_client (v.serve listener (build_handler_chain handler))
    pure (build_handler_chain handler ∷ [])

  -- The last part of `New`: the handlers of the servers that were started.
  unfoldable pub start_servers : h.Completed → Boot (List Handler)
  unfolding new_healthz_handler new_metrics_handler build_handler_chain
  start_servers conf = do
    health ← wrap "failed to start healthz server" (
        start (v.insecure_serving conf) (
          new_healthz_handler (v.enable_profiling conf) (v.enable_contention_profiling conf)
            (present (v.insecure_metrics_serving conf)) (h.leader_elect conf)))
    separate ← wrap "failed to start metrics server" (
        start (v.insecure_metrics_serving conf)
          (new_metrics_handler (v.enable_profiling conf) (v.enable_contention_profiling conf)))
    pure (health ++ separate)
