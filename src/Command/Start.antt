-- ===== src/Command/Start.antt =====
-- `Run` of server.go up to the call that listens.
use kubesim.Prelude.{ℕ, Option, List, [], ◌∷◌, ◌++◌, String, if◌then◌else◌}
use kubesim.Prelude.Text.{Error}
use kubesim.Prelude.Exec.{Outcome, done, fails, panics, blocks, ◌>>=◌, ◌>>◌, pure}
use kubesim.Platform.{Platform, Node, Pod}
use kubesim.Simulator.{Kubesim, Callback, new}
use kubesim.Jobs.{RealApps}
use kubesim.Mirror.{Objects}
use kubesim.Mirror.Sync.{sync_with_client}
use kubesim.Mirror.Watches.{
  EventHandler, node_watch, pod_watch, pv_watch, pvc_watch, storage_class_watch, csi_node_watch,
  csi_driver_watch, volume_attachments_watch,
}
use kubesim.Routes.{Web}
use kubesim.Routes.Table.{Router}
use kubesim.Routes.Table.Registered.{add_routes}
use kubesim.Command.Servers.{Servers, Registry, Handler, create_scheduler, start_servers}
use kubesim.Command.{
  KubesimOptions, Host, Boot, or_client, client_config, scheduler_options,
  init_kube_scheduler_configuration, strategy_of, validate,
}

-- What runs in the background: the informers of the fake cluster, the recorder of events, the scheduler,
-- the job loop, and the watches, each an informer of the real cluster with its filter and handlers.
pub data Task (p : Platform) (o : Objects p) : Type 0 where
  informers recorder schedulers job_loop : Task p o
  watches_nodes : EventHandler p (Node p.Quantity) → Task p o
  watches_pods : EventHandler p (Pod p.Quantity) → Task p o
  watches_objects : EventHandler p o.Object → Task p o

-- The running program, with its tasks in the order in which they were started; `servers` are the
-- handlers of the servers for health checks and metrics.
pub record Program (p : Platform) (w : Web p) (o : Objects p) : Type 0 where
  pub ks : Kubesim p
  pub tasks : List (Task p o)
  pub router : Router p w
  pub servers : List Handler

-- The object after a call on it.
abbrev pub after : {S A : Type 0} → Outcome S A → Boot S
after (done a s) u = done s u
after (fails e s) u = fails e u
after panics u = panics
after blocks u = blocks

-- `empty` is the cluster of `NewSimpleClientset`, `real` and `o` are the real cluster's clientset, and
-- `calls` what the scheduler will call.
module _ (h : Host) (v : Servers h) (p : Platform) (w : Web p) (o : Objects p) (real : RealApps)
    (fuel : ℕ) (empty : p.Cluster) (calls : List (Callback p.Quantity)) where
  -- `New`, the scheduler and the servers included.
  unfoldable pub new_with_servers :
      KubesimOptions
      → h.Completed
      → List (Registry h v → Option (Registry h v))
      → Boot (Kubesim p × List Handler)
  unfolding new strategy_of create_scheduler start_servers
  new_with_servers opt conf options = do
    create_scheduler h v "default-scheduler" conf options
    servers ← start_servers h v conf
    pure (new p (strategy_of opt) empty 0 calls, servers)

  -- If the real cluster is to be copied, `SyncWithClient`.
  unfoldable pub synced : KubesimOptions → Kubesim p → Boot (Kubesim p)
  synced opt ks = if opt.skip_sync_cluster then pure ks else after (sync_with_client p o ks)

  -- What `Run` of kubesim starts.
  unfoldable pub kubesim_run : List (Task p o)
  kubesim_run = informers ∷ recorder ∷ schedulers ∷ job_loop ∷ []

  -- The eight watches, in the order in which they are started.
  unfoldable pub started_watches : List (Task p o)
  unfolding node_watch pod_watch pv_watch pvc_watch storage_class_watch csi_node_watch
      csi_driver_watch volume_attachments_watch
  started_watches =
      watches_nodes (node_watch p o)
      ∷ watches_pods (pod_watch p o)
      ∷ watches_objects (pv_watch p o)
      ∷ watches_objects (pvc_watch p o)
      ∷ watches_objects (storage_class_watch p o)
      ∷ watches_objects (csi_node_watch p o)
      ∷ watches_objects (csi_driver_watch p o)
      ∷ watches_objects (volume_attachments_watch p o)
      ∷ []

  -- `Run`: the job loop and the scheduler start before the watches and the router are there.
  unfoldable pub run :
      KubesimOptions → List (Registry h v → Option (Registry h v)) → Boot (Program p w o)
  unfolding client_config scheduler_options init_kube_scheduler_configuration new_with_servers
      synced kubesim_run started_watches
  run opt options = do
    cfg ← client_config h opt.kube_config
    or_client (h.new_for_config cfg)
    opts ← scheduler_options h opt
    conf ← init_kube_scheduler_configuration h opts
    (ks, servers) ← new_with_servers opt conf options
    ks' ← synced opt ks
    router ← after (add_routes p w real fuel [])
    pure (record {
      ks = ks';
      tasks = kubesim_run ++ (if opt.skip_sync_cluster then [] else started_watches);
      router = router;
      servers = servers;
    })

  -- What the command does: nothing after its options are refused, and an error of `Run` is printed.
  pub data Ran : Type 0 where
    refused failed : Error → Ran
    listening : Program p w o → Ran
    crashed waiting : Ran

  abbrev ran : Outcome Unit (Program p w o) → Ran
  ran (done program u) = listening program
  ran (fails e u) = failed e
  ran panics = crashed
  ran blocks = waiting

  abbrev unless_refused : Outcome Unit Unit → Ran → Ran
  unless_refused (done u s) r = r
  unless_refused (fails e s) r = refused e
  unless_refused panics r = crashed
  unless_refused blocks r = waiting

  -- `NewKubesimCommand`, for the options that were read and the variable of the environment.
  unfoldable pub kubesim_command :
      Option String → KubesimOptions → List (Registry h v → Option (Registry h v)) → Ran
  unfolding validate run
  kubesim_command env opt options = unless_refused (validate env opt tt) (ran (run opt options tt))
