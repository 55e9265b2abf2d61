-- ===== src/Routes/Scaling.antt =====
-- A request to scale stateful sets, from the route to the job loop.
use kubesim.Prelude.Int.{ℤ}
use kubesim.Prelude.{
  if◌then◌else◌, ◌≡◌, refl, ℕ, Bool, true, false, Option, none, some, List, [], ◌∷◌, ◌++◌, String,
  ap, ◌∙◌, subst,
}
use kubesim.Prelude.Text.{client, wrapped}
use kubesim.Prelude.Exec.{
  Outcome, done, fails, panics, blocks, Exec, then_do, Returns, rewrap, then_do-Returns, pure,
  raise, ◌>>=◌,
}
use kubesim.Platform.{Platform, Pod}
use kubesim.Queue.Pending.{Fresh, pending}
use kubesim.Utils.{Workload, Apps, Decoded, NodeConfig, PodRequest}
use kubesim.Utils
use kubesim.Simulator.{Kubesim}
use kubesim.Jobs.{RealApps, run_round, submit_horizontal}
use kubesim.Jobs.Reports.{OfKind}
use kubesim.Jobs.Running.{run_round-stateful}
use kubesim.Emulator.{horizontal_handler, new_horizontal_emulator}
use kubesim.Routes.Handles.{requested}
use kubesim.Routes.{Web, parse_request, on_uuids}

module _ (p : Platform) (w : Web p) (real : RealApps) where
  OfKind-append :
      (kind : String) (xs ys : List (PodRequest p.Quantity))
      → OfKind p real kind xs
      → OfKind p real kind ys
      → OfKind p real kind (xs ++ ys)
  OfKind-append kind [] ys hx hy = hy
  OfKind-append kind (x ∷ xs) ys (h, hx) hy = (h, OfKind-append kind xs ys hx hy)

  parse_apps-OfKind :
      (parse : Workload p.Quantity → Exec ℕ (Pod p.Quantity × ℤ)) (kind : String)
      (ws : List (Option (Workload p.Quantity))) (acc : List (PodRequest p.Quantity)) (i : ℕ)
      → OfKind p real kind acc
      → Returns (λ apps j. OfKind p real kind apps) (Utils.parse_apps p parse kind ws acc i)
  unfolding Utils.parse_apps
  parse_apps-OfKind parse kind [] acc i h = h
  parse_apps-OfKind parse kind (none ∷ ws) acc i h = tt
  parse_apps-OfKind parse kind (some x ∷ ws) acc i h =
      let added = λ (a : Pod p.Quantity × ℤ).
        acc ++ record { pod = some a.0; replicas = a.1; kind = kind } ∷ [] in
      then_do-Returns (λ apps j. OfKind p real kind apps)
        (rewrap "ParseToPod, json unmarshal err" (parse x i))
        (λ a. Utils.parse_apps p parse kind ws (added a))
        (λ a j. parse_apps-OfKind parse kind ws (added a) j (OfKind-append kind acc _ h (refl, tt)))

  abbrev Parsed : Type 0
  Parsed = List NodeConfig × List (PodRequest p.Quantity)

  with_nodes-OfKind :
      (ns : List NodeConfig) (o : Outcome ℕ (List (PodRequest p.Quantity)))
      → Returns (λ apps j. OfKind p real "statefulset" apps) o
      → Returns
          (λ parsed j. OfKind p real "statefulset" parsed.1)
          (then_do {B = Parsed} o (λ apps. pure (ns, apps)))
  with_nodes-OfKind ns (done a s) h = h
  with_nodes-OfKind ns (fails e s) h = tt
  with_nodes-OfKind ns panics h = tt
  with_nodes-OfKind ns blocks h = tt

  apps_parse_to_pod-OfKind :
      (dm : Decoded (Apps p.Quantity)) (i : ℕ)
      → Returns
          (λ parsed j. OfKind p real "statefulset" parsed.1)
          (Utils.apps_parse_to_pod p "statefulset" dm i)
  unfolding Utils.apps_parse_to_pod
  apps_parse_to_pod-OfKind dm i = branches dm.failed
    where
      parsed : Exec ℕ Parsed
      parsed = do
        apps ←
            Utils.parse_apps p (Utils.parse_stateful_set_to_pod p) "statefulset"
              dm.value.statefulset_apps []
        pure (dm.value.nodes, apps)

      branches :
          (failed : Bool)
          → Returns
              (λ parsed j. OfKind p real "statefulset" parsed.1)
              ((if failed then raise (wrapped "ParseToPod: json unmarshal err" client) else parsed)
                i)
      branches true = tt
      branches false =
          with_nodes-OfKind dm.value.nodes
            (Utils.parse_apps p (Utils.parse_stateful_set_to_pod p) "statefulset"
              dm.value.statefulset_apps [] i)
            (parse_apps-OfKind (Utils.parse_stateful_set_to_pod p) "statefulset"
              dm.value.statefulset_apps [] i tt)

  on_uuids-Returns :
      {A : Type 0} (P : A → Type 0) (ks : Kubesim p) (o : Outcome ℕ A)
      → Returns (λ a i. P a) o
      → Returns (λ a t. P a) (on_uuids p w ks o)
  on_uuids-Returns P ks (done a i) h = h
  on_uuids-Returns P ks (fails e i) h = tt
  on_uuids-Returns P ks panics h = tt
  on_uuids-Returns P ks blocks h = tt

  -- The apps that are read of a request for the kind "statefulset" are all marked so.
  parsed-OfKind :
      (body : w.Body) (s ks : Kubesim p) (node_list : List NodeConfig)
      (apps : List (PodRequest p.Quantity))
      → parse_request p w "statefulset" (some body) s ≡ done (node_list, apps) ks
      → OfKind p real "statefulset" apps
  unfolding parse_request
  parsed-OfKind body s ks node_list apps e =
      subst (Returns (λ parsed t. OfKind p real "statefulset" parsed.1)) e (
        on_uuids-Returns (λ parsed. OfKind p real "statefulset" parsed.1) s
          (Utils.apps_parse_to_pod p "statefulset" (w.decode_apps body) s.next_uuid)
          (apps_parse_to_pod-OfKind (w.decode_apps body) s.next_uuid))

  -- A request for a horizontal emulation of stateful sets, one or more, that can be read, on a kubesim
  -- with no jobs and with a new job id: the next round of the job loop panics, whatever the real
  -- cluster, the fake one and the scheduler answer.
  pub horizontal-panics :
      (fuel : ℕ) (body : w.Body) (s ks : Kubesim p) (node_list : List NodeConfig)
      (app : PodRequest p.Quantity) (apps : List (PodRequest p.Quantity))
      → parse_request p w "statefulset" (some body) s ≡ done (node_list, app ∷ apps) ks
      → pending ks.fifo_queue ≡ []
      → Fresh (p.uuid ks.next_uuid) ks.fifo_queue.queue
      → then_do
          (requested p w
            (horizontal_handler p (new_horizontal_emulator p real fuel))
            "statefulset"
            (some body)
            s)
          (λ id. run_round p fuel)
        ≡ panics
  unfolding new_horizontal_emulator horizontal_handler
  horizontal-panics fuel body s ks node_list app apps parsed idle fresh =
      ap (λ o. then_do (then_do o (λ x. submit_horizontal p real x.1)) (λ id. run_round p fuel))
        parsed
      ∙ run_round-stateful p fuel real app apps ks
          (parsed-OfKind body s ks node_list (app ∷ apps) parsed) idle fresh
