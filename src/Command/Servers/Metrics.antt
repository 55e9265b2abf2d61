-- ===== src/Command/Servers/Metrics.antt =====
-- Which server shows the metrics.
use kubesim.Prelude.{
  ◌≡◌, refl, Bool, true, false, not, ◌||◌, Option, none, some, List, [], ◌∷◌, ◌++◌, if◌then◌else◌,
  tally, All, ◌⊎◌, inl, inr, Option-cases,
}
use kubesim.Prelude.Map.{present}
use kubesim.Prelude.Text.{client, wrapped}
use kubesim.Prelude.Exec.{Outcome, done, fails, panics, blocks, ◌>>=◌, pure, wrap}
use kubesim.Command.{Host, Boot}
use kubesim.Command.Servers.{
  Installed, healthz, metrics, resource_metrics, profiling, Handler, with_authorization,
  with_authentication, with_request_info, with_cache_control, with_panic_recovery, Servers, start,
  start_servers, new_healthz_handler, new_metrics_handler, build_handler_chain,
  install_metric_handler,
}

abbrev pub is_metrics : Installed → Bool
is_metrics metrics = true
is_metrics _ = false

abbrev pub is_resource_metrics : Installed → Bool
is_resource_metrics resource_metrics = true
is_resource_metrics _ = false

-- Health checks that ask the leader election just if it is on.
abbrev pub is_healthz : Bool → Installed → Bool
is_healthz true (healthz true) = true
is_healthz false (healthz false) = true
is_healthz _ _ = false

abbrev pub is_profiling : Installed → Bool
is_profiling profiling = true
is_profiling _ = false

-- What is installed on the servers.
abbrev pub installed : List Handler → List Installed
installed [] = []
installed (x ∷ xs) = x.mux ++ installed xs

-- Every answer goes through the panic recovery.
abbrev pub Recovers : Handler → Type 0
Recovers x =
    x.filters
    ≡ with_panic_recovery ∷ with_cache_control ∷ with_request_info ∷ with_authentication
      ∷ with_authorization ∷ []

module _ (h : Host) (v : Servers h) where
  -- A server that could not be started.
  abbrev pub Refused : Option v.Listener → Type 0
  Refused wanted = (l : v.Listener) × (x : Handler) × (wanted ≡ some l) × (v.serve l x ≡ none)

  -- What is served: the health checks and the metrics, where they are wanted.
  abbrev pub Shows : Bool → Bool → Bool → List Handler → Type 0
  Shows leader health separate handlers =
      (tally is_metrics (installed handlers) ≡ (if health || separate then 1 else 0))
      × (tally is_resource_metrics (installed handlers) ≡ (if health || separate then 1 else 0))
      × (tally (is_healthz leader) (installed handlers) ≡ (if health then 1 else 0))
      × (tally (is_healthz (not leader)) (installed handlers) ≡ 0)
      × All Recovers handlers

  abbrev pub Starts :
      Bool → Option v.Listener → Option v.Listener → Outcome Unit (List Handler) → Type 0
  Starts leader health separate (done handlers u) =
      Shows leader (present health) (present separate) handlers
  Starts leader health separate (fails e u) =
      ((e ≡ wrapped "failed to start healthz server" client) × Refused health)
      ⊎ ((e ≡ wrapped "failed to start metrics server" client) × Refused separate)
  Starts leader health separate panics = ⊥
  Starts leader health separate blocks = ⊥

  module _ (profiles contention : Bool) where
    health_handler : Bool → Bool → Handler
    health_handler separate leader =
        build_handler_chain (new_healthz_handler profiles contention separate leader)

    metrics_handler : Handler
    metrics_handler = build_handler_chain (new_metrics_handler profiles contention)

  both-Shows :
      (profiles contention leader : Bool)
      → Shows leader true true (
          health_handler profiles contention true leader ∷ metrics_handler profiles contention ∷ [])
  unfolding health_handler metrics_handler new_healthz_handler new_metrics_handler
      install_metric_handler build_handler_chain
  both-Shows true contention true = (refl, refl, refl, refl, (refl, (refl, tt)))
  both-Shows true contention false = (refl, refl, refl, refl, (refl, (refl, tt)))
  both-Shows false contention true = (refl, refl, refl, refl, (refl, (refl, tt)))
  both-Shows false contention false = (refl, refl, refl, refl, (refl, (refl, tt)))

  health-Shows :
      (profiles contention leader : Bool)
      → Shows leader true false (health_handler profiles contention false leader ∷ [])
  unfolding health_handler new_healthz_handler install_metric_handler build_handler_chain
  health-Shows true contention true = (refl, refl, refl, refl, (refl, tt))
  health-Shows true contention false = (refl, refl, refl, refl, (refl, tt))
  health-Shows false contention true = (refl, refl, refl, refl, (refl, tt))
  health-Shows false contention false = (refl, refl, refl, refl, (refl, tt))

  metrics-Shows :
      (profiles contention leader : Bool)
      → Shows leader false true (metrics_handler profiles contention ∷ [])
  unfolding metrics_handler new_metrics_handler install_metric_handler build_handler_chain
  metrics-Shows true contention true = (refl, refl, refl, refl, (refl, tt))
  metrics-Shows true contention false = (refl, refl, refl, refl, (refl, tt))
  metrics-Shows false contention true = (refl, refl, refl, refl, (refl, tt))
  metrics-Shows false contention false = (refl, refl, refl, refl, (refl, tt))

  -- The end of `New`, from what it reads of the configuration.
  abbrev started : Bool → Bool → Bool → Option v.Listener → Option v.Listener → Boot (List Handler)
  started profiles contention leader health separate = do
    handlers ←
        wrap "failed to start healthz server"
          (start h v health (new_healthz_handler profiles contention (present separate) leader))
    more ←
        wrap "failed to start metrics server"
          (start h v separate (new_metrics_handler profiles contention))
    pure (handlers ++ more)

  started-Starts :
      (profiles contention leader : Bool) (health separate : Option v.Listener)
      → Starts leader health separate (started profiles contention leader health separate tt)
  unfolding health_handler metrics_handler
  started-Starts profiles contention leader none none = (refl, refl, refl, refl, tt)
  started-Starts profiles contention leader (some l) none =
      let x = health_handler profiles contention false leader in
      elim (Option-cases (v.serve l x)) [
        | inl refused ↦ rw refused (inl (refl, (l, x, refl, refused)))
        | inr (u, ok) ↦ rw ok (health-Shows profiles contention leader)
      ]
  started-Starts profiles contention leader none (some l) =
      let x = metrics_handler profiles contention in
      elim (Option-cases (v.serve l x)) [
        | inl refused ↦ rw refused (inr (refl, (l, x, refl, refused)))
        | inr (u, ok) ↦ rw ok (metrics-Shows profiles contention leader)
      ]
  started-Starts profiles contention leader (some l) (some k) =
      let x = health_handler profiles contention true leader in
      let y = metrics_handler profiles contention in
      elim (Option-cases (v.serve l x)) [
        | inl refused ↦ rw refused (inl (refl, (l, x, refl, refused)))
        | inr (u, ok) ↦ rw ok (elim (Option-cases (v.serve k y)) [
          | inl refused ↦ rw refused (inr (refl, (k, y, refl, refused)))
          | inr (u', ok') ↦ rw ok' (both-Shows profiles contention leader)
        ])
      ]

  -- Whatever the configuration is, the servers that it wants are started, or the error names one that
  -- was refused. Where they are started, "/metrics" and "/metrics/resources" are installed once if
  -- any server is wanted, the health checks once if theirs is, with the check of the leader
  -- election just if that is on, and every handler recovers from panics first.
  pub start_servers-Starts :
      (conf : h.Completed)
      → Starts
          (h.leader_elect conf)
          (v.insecure_serving conf)
          (v.insecure_metrics_serving conf)
          (start_servers h v conf tt)
  unfolding start_servers
  start_servers-Starts conf =
      started-Starts (v.enable_profiling conf) (v.enable_contention_profiling conf)
        (h.leader_elect conf) (v.insecure_serving conf) (v.insecure_metrics_serving conf)
