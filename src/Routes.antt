-- ===== src/Routes.antt =====
-- pkg/routes/routes.go: what a request does to kubesim, and what is written as its answer.
pub mod Handles
pub mod Table
pub mod Answers
pub mod Following
pub mod Scaling
pub mod Deciding
use kubesim.Prelude.{
  Bool, true, false, ◌||◌, Option, none, some, List, [], ◌∷◌, ◌++◌, String, ℕ, if◌then◌else◌,
}
use kubesim.Prelude.Text.{Error, client, message, wrapped}
use kubesim.Prelude.Exec.{
  Outcome, done, fails, panics, blocks, Exec, ◌>>=◌, ◌>>◌, pure, raise, crash, then_do,
}
use kubesim.Platform.{Platform}
use kubesim.Report.{Review}
use kubesim.Utils.{NodeConfig, PodRequest, Apps, Decoded, is_kind, apps_parse_to_pod}
use kubesim.Simulator.{Kubesim, JobReport, SchedulerPrediction}
use kubesim.Simulator.Nodes.{NodeInfoList}
use kubesim.Simulator.Usage.{NodeInfo}

-- What is written: a fixed text, the text of an error in quotes, or JSON.
pub data Content : Type 0 where
  plain : String → Content
  error_of : Error → Content
  json : String → Content

-- The handlers of net/http/pprof.
pub data Profile : Type 0 where
  index_page command_line cpu_profile symbol_table execution_trace : Profile
  named : String → Profile

-- A call on the `http.ResponseWriter`, or one of net/http/pprof with it. `http_error` is `http.Error`, which sets its own header,
-- writes the status and then the text.
pub data WriterCall : Type 0 where
  set_header : String → String → WriterCall
  write_header : ℕ → WriterCall
  write : Content → WriterCall
  http_error : String → ℕ → WriterCall
  serve_profile : Profile → WriterCall

-- The values that the routes marshal. `nodes` may be a nil pointer.
pub data Payload (p : Platform) : Type 0 where
  job : String → Payload p
  job_report : JobReport p.Quantity → Payload p
  nodes : Option (NodeInfoList p.Quantity) → Payload p
  usages : List NodeInfo → Payload p
  prediction : SchedulerPrediction p.Quantity → Payload p
  reviews : List (Review p.Quantity) → Payload p

-- The JSON library: what it decodes of a body, and the text of a value; `none` is an error.
pub record Web (p : Platform) : Type 1 where
  pub Body : Type 0
  pub decode_apps : Body → Decoded (Apps p.Quantity)
  pub decode_node : Body → Option NodeConfig
  pub marshal : Payload p → Option String

-- A request with the parameters of its path; `none` is a nil body.
pub record Request (Body : Type 0) : Type 0 where
  pub kind : String
  pub id : String
  pub body : Option Body

-- The kubesim, and the calls on the writer so far.
pub record Server (p : Platform) : Type 0 where
  pub ks : Kubesim p
  pub calls : List WriterCall

pub data Result (A : Type 0) : Type 0 where
  ok : A → Result A
  err : Error → Result A

module _ (p : Platform) where
  open p use {Quantity}

  abbrev pub call_writer : List WriterCall → Exec (Server p) Unit
  call_writer more s = done tt (record s { calls = s.calls ++ more })

  abbrev pub caught :
      {A : Type 0} → List WriterCall → Outcome (Kubesim p) A → Outcome (Server p) (Result A)
  caught calls (done a ks) = done (ok a) (record { ks = ks; calls = calls })
  caught calls (fails e ks) = done (err e) (record { ks = ks; calls = calls })
  caught calls panics = panics
  caught calls blocks = blocks

  -- A call of kubesim whose error the route looks at.
  abbrev pub attempt : {A : Type 0} → Exec (Kubesim p) A → Exec (Server p) (Result A)
  attempt m s = caught s.calls (m s.ks)

  -- `checkBody`: the handler goes on after it. net/http gives every request that it serves a body, if
  -- only an empty one, so that a request from outside does not come to the first clause.
  unfoldable pub check_body : {Body : Type 0} → Option Body → Exec (Server p) Unit
  check_body none = call_writer (http_error "Please send a request body" 400 ∷ [])
  check_body (some b) = pure tt

  -- `reportError`, whose body every route repeats.
  unfoldable pub report_error : Error → Exec (Server p) Unit
  report_error e =
      call_writer
        (set_header "Content-Type" "application/json" ∷ write_header 500 ∷ write (error_of e) ∷ [])

  unfoldable pub send_text : Option String → Exec (Server p) Unit
  unfolding report_error
  send_text none = report_error client
  send_text (some text) =
      call_writer
        (set_header "Content-Type" "application/json" ∷ write_header 200 ∷ write (json text) ∷ [])

  module _ (w : Web p) where
    open w use {Body, decode_apps, decode_node, marshal}

    -- The last part of a route: an error or the JSON of the result.
    unfoldable pub answer : Result (Payload p) → Exec (Server p) Unit
    unfolding report_error send_text
    answer (err e) = report_error e
    answer (ok value) = send_text (marshal value)

    abbrev pub on_uuids : {A : Type 0} → Kubesim p → Outcome ℕ A → Outcome (Kubesim p) A
    on_uuids ks (done a i) = done a (record ks { next_uuid = i })
    on_uuids ks (fails e i) = fails e (record ks { next_uuid = i })
    on_uuids ks panics = panics
    on_uuids ks blocks = blocks

    -- `utils.AppsParseToPod` on the request's body. The body is read for the known kinds only, and
    -- reading a nil body panics.
    unfoldable pub parse_request :
        String → Option Body → Exec (Kubesim p) (List NodeConfig × List (PodRequest Quantity))
    unfolding apps_parse_to_pod is_kind
    parse_request kind none ks =
        if is_kind "deployment" kind || is_kind "statefulset" kind then panics else done ([], []) ks
    parse_request kind (some body) ks =
        on_uuids ks (apps_parse_to_pod p kind (decode_apps body) ks.next_uuid)

    -- `utils.NodeConfigParse`
    unfoldable pub parse_node : Option Body → Exec (Kubesim p) NodeConfig
    parse_node none ks = panics
    parse_node (some body) ks = elim (decode_node body) [
      | none ↦ fails (wrapped "Parse to NodeConfig, json unmarshal err" client) ks
      | some config ↦ done config ks
    ]
