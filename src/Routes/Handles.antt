-- ===== src/Routes/Handles.antt =====
-- The handlers of the routes.
use kubesim.Prelude.{Option, none, some, List, [], ◌∷◌, String}
use kubesim.Prelude.Exec.{Exec, ◌>>=◌, ◌>>◌}
use kubesim.Platform.{Platform}
use kubesim.Utils.{NodeConfig, PodRequest}
use kubesim.Simulator.{Kubesim}
use kubesim.Simulator.Nodes.{NodeInfoList}
use kubesim.Emulator.{
  AppsEmulator, apps_handler, HorizontalEmulator, horizontal_handler, VerticalEmulator,
  vertical_handler, PredictionEmulator, prediction_handler, DeprecatedPredictionEmulator,
  deprecated_prediction_handler, DeprecatedAppsEmulator, deprecated_apps_handler, EmulatorReport,
  emulator_report_handler, AddNodesEmulator, add_nodes_handler, ListNodesEmulator,
  list_nodes_handler, ListNodeInfoEmulator, list_node_info_handler, DeleteNodesEmulator,
  delete_nodes_handler,
}
use kubesim.Routes.{
  write, write_header, set_header, plain, Payload, job, job_report, nodes, usages, prediction,
  reviews, Web, Request, Server, Result, ok, err, call_writer, attempt, check_body, report_error,
  send_text, answer, parse_request, parse_node,
}

abbrev pub Handle : {p : Platform} → Web p → Type 0
Handle {p} w = Request w.Body → Exec (Server p) Unit

module _ (p : Platform) (w : Web p) where
  open p use {Quantity}

  -- `VersionRoute`
  unfoldable pub version_route : Handle w
  version_route r = call_writer p (write (plain "0.0.1") ∷ [])

  abbrev pub ok_or : {A : Type 0} → (A → Payload p) → Result A → Result (Payload p)
  ok_or f (ok a) = ok (f a)
  ok_or f (err e) = err e

  -- The parsed request goes to the emulator.
  abbrev pub requested :
      {A : Type 0}
      → (List NodeConfig → List (PodRequest Quantity) → Exec (Kubesim p) A)
      → String
      → Option w.Body
      → Exec (Kubesim p) A
  requested handler kind body = do
    (node_list, apps) ← parse_request p w kind body
    handler node_list apps

  -- What the routes that read apps share: the error of the parser or of the emulator, or the result.
  unfoldable pub emulated :
      {A : Type 0}
      → (A → Payload p)
      → (List NodeConfig → List (PodRequest Quantity) → Exec (Kubesim p) A)
      → Handle w
  unfolding check_body parse_request answer
  emulated payload handler r = do
    check_body p r.body
    result ← attempt p (requested handler r.kind r.body)
    answer p w (ok_or payload result)

  unfoldable pub apps_emulator_route : AppsEmulator p → Handle w
  unfolding emulated apps_handler
  apps_emulator_route emulator = emulated job (apps_handler p emulator)

  unfoldable pub horizontal_emulator_route : HorizontalEmulator p → Handle w
  unfolding emulated horizontal_handler
  horizontal_emulator_route emulator = emulated job (horizontal_handler p emulator)

  unfoldable pub vertical_emulator_route : VerticalEmulator p → Handle w
  unfolding emulated vertical_handler
  vertical_emulator_route emulator = emulated job (vertical_handler p emulator)

  unfoldable pub prediction_emulator_route : PredictionEmulator p → Handle w
  unfolding emulated prediction_handler
  prediction_emulator_route emulator = emulated job (prediction_handler p emulator)

  unfoldable pub deprecated_prediction_emulator_route : DeprecatedPredictionEmulator p → Handle w
  unfolding emulated deprecated_prediction_handler
  deprecated_prediction_emulator_route emulator =
      emulated prediction (deprecated_prediction_handler p emulator)

  unfoldable pub deprecated_apps_emulator_route : DeprecatedAppsEmulator p → Handle w
  unfolding emulated deprecated_apps_handler
  deprecated_apps_emulator_route emulator = emulated reviews (deprecated_apps_handler p emulator)

  unfoldable pub emulator_report_route : EmulatorReport p → Handle w
  unfolding check_body emulator_report_handler answer
  emulator_report_route emulator r = do
    check_body p r.body
    report ← attempt p (emulator_report_handler p emulator r.id)
    answer p w (ok_or job_report report)

  abbrev pub or_nil : {A : Type 0} → Result A → Option A
  or_nil (ok a) = some a
  or_nil (err e) = none

  abbrev pub configured :
      AddNodesEmulator p → Option w.Body → Exec (Kubesim p) (NodeInfoList Quantity)
  configured emulator body = do config ← parse_node p w body; add_nodes_handler p emulator config

  -- Errors are only logged: what is marshalled then is a nil list.
  unfoldable pub add_nodes_emulator_route : AddNodesEmulator p → Handle w
  unfolding check_body parse_node add_nodes_handler send_text
  add_nodes_emulator_route emulator r = do
    check_body p r.body
    listed ← attempt p (configured emulator r.body)
    send_text p (w.marshal (nodes (or_nil listed)))

  unfoldable pub list_nodes_emulator_route : ListNodesEmulator p → Handle w
  unfolding check_body list_nodes_handler answer
  list_nodes_emulator_route emulator r = do
    check_body p r.body
    listed ← attempt p (list_nodes_handler p emulator)
    answer p w (ok_or (λ list. nodes (some list)) listed)

  unfoldable pub list_node_info_emulator_route : ListNodeInfoEmulator p → Handle w
  unfolding check_body list_node_info_handler answer
  list_node_info_emulator_route emulator r = do
    check_body p r.body
    listed ← attempt p (list_node_info_handler p emulator)
    answer p w (ok_or usages listed)

  unfoldable pub send_deleted : Result Unit → Exec (Server p) Unit
  unfolding report_error
  send_deleted (err e) = report_error p e
  send_deleted (ok u) =
      call_writer p (set_header "Content-Type" "application/json" ∷ write_header 200 ∷ [])

  unfoldable pub delete_nodes_emulator_route : DeleteNodesEmulator p → Handle w
  unfolding check_body delete_nodes_handler send_deleted
  delete_nodes_emulator_route emulator r = do
    check_body p r.body
    deleted ← attempt p (delete_nodes_handler p emulator)
    send_deleted deleted

  -- `DebugLogging` only calls the handler: its logging is commented out.
  unfoldable pub debug_logging : Handle w → String → Handle w
  debug_logging h path r = h r
