-- ===== src/Routes/Answers.antt =====
-- The answers of the routes.
use kubesim.Prelude.{◌≡◌, refl, Option, none, some, List, [], ◌∷◌, ◌++◌, String}
use kubesim.Prelude.Text.{Error, client}
use kubesim.Prelude.Exec.{Outcome, done, fails, panics, blocks, Exec, then_do}
use kubesim.Platform.{Platform}
use kubesim.Utils.{NodeConfig, PodRequest}
use kubesim.Simulator.{Kubesim}
use kubesim.Simulator.Nodes.{NodeInfoList}
use kubesim.Emulator
use kubesim.Routes.{
  WriterCall, set_header, write_header, write, error_of, json, Payload, job, job_report, nodes,
  usages, prediction, reviews, Web, Server, send_text, answer, caught,
}
use kubesim.Routes.Handles.{
  Handle, emulated, apps_emulator_route, horizontal_emulator_route, vertical_emulator_route,
  prediction_emulator_route, emulator_report_route, add_nodes_emulator_route,
  list_nodes_emulator_route, list_node_info_emulator_route, delete_nodes_emulator_route,
  send_deleted, deprecated_prediction_emulator_route, deprecated_apps_emulator_route, ok_or, or_nil,
  requested, configured,
}

abbrev pub json_type : WriterCall
json_type = set_header "Content-Type" "application/json"

abbrev pub error_calls : Error → List WriterCall
error_calls e = json_type ∷ write_header 500 ∷ write (error_of e) ∷ []

abbrev pub text_calls : String → List WriterCall
text_calls text = json_type ∷ write_header 200 ∷ write (json text) ∷ []

abbrev pub empty_calls : List WriterCall
empty_calls = json_type ∷ write_header 200 ∷ []

module _ (p : Platform) (w : Web p) where
  -- The JSON of a value, or an error where it has none.
  abbrev marshalled : Option String → List WriterCall
  marshalled none = error_calls client
  marshalled (some text) = text_calls text

  abbrev json_calls : Payload p → List WriterCall
  json_calls v = marshalled (w.marshal v)

  -- A handler that runs `o` on kubesim, writes one answer for its result or for its error, and
  -- returns no error.
  abbrev pub told :
      {A : Type 0}
      → List WriterCall
      → (A → List WriterCall)
      → (Error → List WriterCall)
      → Outcome (Kubesim p) A
      → Outcome (Server p) Unit
  told before good bad (done a ks) = done tt (record { ks = ks; calls = before ++ good a })
  told before good bad (fails e ks) = done tt (record { ks = ks; calls = before ++ bad e })
  told before good bad panics = panics
  told before good bad blocks = blocks

  -- The routes that an emulator stands behind, and their handlers.
  pub data Route : Type 0 where
    runs_apps : Emulator.AppsEmulator p → Route
    runs_horizontal : Emulator.HorizontalEmulator p → Route
    runs_vertical : Emulator.VerticalEmulator p → Route
    runs_prediction : Emulator.PredictionEmulator p → Route
    reads_report : Emulator.EmulatorReport p → Route
    adds_nodes : Emulator.AddNodesEmulator p → Route
    lists_nodes : Emulator.ListNodesEmulator p → Route
    describes_nodes : Emulator.ListNodeInfoEmulator p → Route
    deletes_nodes : Emulator.DeleteNodesEmulator p → Route
    runs_deprecated_prediction : Emulator.DeprecatedPredictionEmulator p → Route
    runs_deprecated_apps : Emulator.DeprecatedAppsEmulator p → Route

  abbrev pub handle_of : Route → Handle w
  handle_of (runs_apps e) = apps_emulator_route p w e
  handle_of (runs_horizontal e) = horizontal_emulator_route p w e
  handle_of (runs_vertical e) = vertical_emulator_route p w e
  handle_of (runs_prediction e) = prediction_emulator_route p w e
  handle_of (reads_report e) = emulator_report_route p w e
  handle_of (adds_nodes e) = add_nodes_emulator_route p w e
  handle_of (lists_nodes e) = list_nodes_emulator_route p w e
  handle_of (describes_nodes e) = list_node_info_emulator_route p w e
  handle_of (deletes_nodes e) = delete_nodes_emulator_route p w e
  handle_of (runs_deprecated_prediction e) = deprecated_prediction_emulator_route p w e
  handle_of (runs_deprecated_apps e) = deprecated_apps_emulator_route p w e

  -- What each route should do: run its emulator on what the body says, and answer with the JSON of
  -- the result, or with the error. A deletion is answered by nothing but the status; and an error of
  -- adding nodes by the JSON of a nil list, like a success.
  abbrev pub expected : Route → String → String → w.Body → Server p → Outcome (Server p) Unit
  expected (runs_apps e) kind id body s =
      told s.calls (λ a. json_calls (job a)) error_calls
        (requested p w (Emulator.apps_handler p e) kind (some body) s.ks)
  expected (runs_horizontal e) kind id body s =
      told s.calls (λ a. json_calls (job a)) error_calls
        (requested p w (Emulator.horizontal_handler p e) kind (some body) s.ks)
  expected (runs_vertical e) kind id body s =
      told s.calls (λ a. json_calls (job a)) error_calls
        (requested p w (Emulator.vertical_handler p e) kind (some body) s.ks)
  expected (runs_prediction e) kind id body s =
      told s.calls (λ a. json_calls (job a)) error_calls
        (requested p w (Emulator.prediction_handler p e) kind (some body) s.ks)
  expected (reads_report e) kind id body s =
      told s.calls (λ a. json_calls (job_report a)) error_calls
        (Emulator.emulator_report_handler p e id s.ks)
  expected (adds_nodes e) kind id body s =
      told s.calls (λ a. json_calls (nodes (some a))) (λ e. json_calls (nodes none))
        (configured p w e (some body) s.ks)
  expected (lists_nodes e) kind id body s =
      told s.calls (λ a. json_calls (nodes (some a))) error_calls
        (Emulator.list_nodes_handler p e s.ks)
  expected (describes_nodes e) kind id body s =
      told s.calls (λ a. json_calls (usages a)) error_calls
        (Emulator.list_node_info_handler p e s.ks)
  expected (deletes_nodes e) kind id body s =
      told s.calls (λ a. empty_calls) error_calls (Emulator.delete_nodes_handler p e s.ks)
  expected (runs_deprecated_prediction e) kind id body s =
      told s.calls (λ a. json_calls (prediction a)) error_calls
        (requested p w (Emulator.deprecated_prediction_handler p e) kind (some body) s.ks)
  expected (runs_deprecated_apps e) kind id body s =
      told s.calls (λ a. json_calls (reviews a)) error_calls
        (requested p w (Emulator.deprecated_apps_handler p e) kind (some body) s.ks)

  send_text-marshalled :
      (text : Option String) (s : Server p)
      → send_text p text s ≡ done tt (record s { calls = s.calls ++ marshalled text })
  unfolding send_text
  send_text-marshalled none s = refl
  send_text-marshalled (some text) s = refl

  answer-told :
      {A : Type 0} (payload : A → Payload p) (before : List WriterCall) (o : Outcome (Kubesim p) A)
      → then_do (caught p before o) (λ r. answer p w (ok_or p w payload r))
        ≡ told before (λ a. json_calls (payload a)) error_calls o
  unfolding answer
  answer-told payload before (done a ks) =
      send_text-marshalled (w.marshal (payload a)) (record { ks = ks; calls = before })
  answer-told payload before (fails e ks) = refl
  answer-told payload before panics = refl
  answer-told payload before blocks = refl

  add_nodes-told :
      (before : List WriterCall) (o : Outcome (Kubesim p) (NodeInfoList p.Quantity))
      → then_do (caught p before o) (λ r. send_text p (w.marshal (nodes (or_nil p w r))))
        ≡ told before (λ a. json_calls (nodes (some a))) (λ e. json_calls (nodes none)) o
  add_nodes-told before (done a ks) =
      send_text-marshalled (w.marshal (nodes (some a))) (record { ks = ks; calls = before })
  add_nodes-told before (fails e ks) =
      send_text-marshalled (w.marshal (nodes none)) (record { ks = ks; calls = before })
  add_nodes-told before panics = refl
  add_nodes-told before blocks = refl

  send_deleted-told :
      (before : List WriterCall) (o : Outcome (Kubesim p) Unit)
      → then_do (caught p before o) (send_deleted p w)
        ≡ told before (λ a. empty_calls) error_calls o
  unfolding send_deleted
  send_deleted-told before (done a ks) = refl
  send_deleted-told before (fails e ks) = refl
  send_deleted-told before panics = refl
  send_deleted-told before blocks = refl

  emulated-told :
      {A : Type 0} (payload : A → Payload p)
      (handler : List NodeConfig → List (PodRequest p.Quantity) → Exec (Kubesim p) A)
      (kind id : String) (body : w.Body) (s : Server p)
      → emulated p w payload handler (record { kind = kind; id = id; body = some body }) s
        ≡ told s.calls
            (λ a. json_calls (payload a))
            error_calls
            (requested p w handler kind (some body) s.ks)
  unfolding emulated
  emulated-told payload handler kind id body s =
      answer-told payload s.calls (requested p w handler kind (some body) s.ks)

  -- A request with a body, to any of the routes: where the call of its emulator gives a result, the
  -- answer is a JSON content type, the status 200 and the JSON of that result, or for a deletion
  -- nothing; where it gives an error, the status 500 and the error, or for the addition of nodes the
  -- status 200 and the JSON of a nil list; a result without JSON is answered as an error. The answer
  -- is the only one, kubesim is left as the call leaves it, and where the call panics or waits for
  -- good, so does the route.
  pub handle_of-expected :
      (route : Route) (kind id : String) (body : w.Body) (s : Server p)
      → handle_of route (record { kind = kind; id = id; body = some body }) s
        ≡ expected route kind id body s
  unfolding apps_emulator_route horizontal_emulator_route vertical_emulator_route
      prediction_emulator_route deprecated_prediction_emulator_route deprecated_apps_emulator_route
      emulator_report_route add_nodes_emulator_route list_nodes_emulator_route
      list_node_info_emulator_route delete_nodes_emulator_route
  handle_of-expected (runs_apps e) kind id body s = emulated-told job _ kind id body s
  handle_of-expected (runs_horizontal e) kind id body s = emulated-told job _ kind id body s
  handle_of-expected (runs_vertical e) kind id body s = emulated-told job _ kind id body s
  handle_of-expected (runs_prediction e) kind id body s = emulated-told job _ kind id body s
  handle_of-expected (runs_deprecated_prediction e) kind id body s =
      emulated-told prediction _ kind id body s
  handle_of-expected (runs_deprecated_apps e) kind id body s =
      emulated-told reviews _ kind id body s
  handle_of-expected (reads_report e) kind id body s =
      answer-told job_report s.calls (Emulator.emulator_report_handler p e id s.ks)
  handle_of-expected (adds_nodes e) kind id body s =
      add_nodes-told s.calls (configured p w e (some body) s.ks)
  handle_of-expected (lists_nodes e) kind id body s =
      answer-told (λ list. nodes (some list)) s.calls (Emulator.list_nodes_handler p e s.ks)
  handle_of-expected (describes_nodes e) kind id body s =
      answer-told usages s.calls (Emulator.list_node_info_handler p e s.ks)
  handle_of-expected (deletes_nodes e) kind id body s =
      send_deleted-told s.calls (Emulator.delete_nodes_handler p e s.ks)
