-- ===== src/Routes/Table.antt =====
-- pkg/routes/routes.go and pprof.go: which handler is registered for which method and path. The
-- router of httprouter is seen as the registrations that it gets, in their order.
pub mod Profiles
pub mod Registered
use Prim.Native.String.{◌++◌ as str_append}
use kubesim.Prelude.{
  ◌&&◌, Bool, true, false, ℕ, ◌==◌, Option, none, some, List, [], ◌∷◌, ◌++◌, String, str_eq,
  if◌then◌else◌,
}
use kubesim.Prelude.Exec.{Exec, crash, modify}
use kubesim.Platform.{Platform}
use kubesim.Emulator.{
  AppsEmulator, HorizontalEmulator, VerticalEmulator, PredictionEmulator, EmulatorReport,
  AddNodesEmulator, DeleteNodesEmulator, ListNodesEmulator, ListNodeInfoEmulator,
  DeprecatedPredictionEmulator, DeprecatedAppsEmulator,
}
use kubesim.Routes.{Web}
use kubesim.Routes.Handles.{
  Handle, version_route, debug_logging, apps_emulator_route, horizontal_emulator_route,
  vertical_emulator_route, prediction_emulator_route, emulator_report_route,
  add_nodes_emulator_route, delete_nodes_emulator_route, list_nodes_emulator_route,
  list_node_info_emulator_route, deprecated_prediction_emulator_route,
  deprecated_apps_emulator_route,
}

pub data Method : Type 0 where
  on_get on_post on_delete : Method

abbrev method_number : Method → ℕ
method_number on_get = 0
method_number on_post = 1
method_number on_delete = 2

abbrev pub version_path : String
version_path = "/version"

abbrev api_prefix : String
api_prefix = "/v1/scheduler"

abbrev pub apps_emulator_prefix : String
apps_emulator_prefix = str_append api_prefix "/emulator/:kind/apps"

abbrev pub horizontal_emulator_prefix : String
horizontal_emulator_prefix = str_append api_prefix "/emulator/:kind/horizontal/apps"

abbrev pub vertical_emulator_prefix : String
vertical_emulator_prefix = str_append api_prefix "/emulator/:kind/vertical/apps"

abbrev pub prediction_prefix : String
prediction_prefix = str_append api_prefix "/prediction/:kind/nodes"

abbrev pub report_prefix : String
report_prefix = str_append api_prefix "/report/:id"

abbrev pub add_nodes_prefix : String
add_nodes_prefix = str_append api_prefix "/simulator/node"

abbrev pub delete_all_node_prefix : String
delete_all_node_prefix = str_append api_prefix "/simulator/node"

abbrev pub list_all_node_prefix : String
list_all_node_prefix = str_append api_prefix "/simulator/node"

abbrev pub list_node_info_prefix : String
list_node_info_prefix = str_append api_prefix "/simulator/nodeinfo"

abbrev pub deprecated_prediction_prefix : String
deprecated_prediction_prefix = str_append api_prefix "/deprecated/prediction/:kind/nodes"

abbrev pub deprecated_apps_emulator_prefix : String
deprecated_apps_emulator_prefix = str_append api_prefix "/deprecated/emulator/:kind/apps"

module _ (p : Platform) (w : Web p) where
  pub record Entry : Type 0 where
    pub method : Method
    pub path : String
    pub handle : Handle w

  abbrev pub Router : Type 0
  Router = List Entry

  abbrev pub is_for : Method → String → Entry → Bool
  is_for method path e = method_number e.method == method_number method && str_eq e.path path

  abbrev registers_none : Option (Handle w) → Bool
  registers_none none = true
  registers_none (some h) = false

  -- The handler of the first registration for a method and path.
  unfoldable pub find_handle : Method → String → Router → Option (Handle w)
  find_handle method path [] = none
  find_handle method path (e ∷ rest) =
      let later = find_handle method path rest in
      if is_for method path e then some e.handle else later

  -- Whether no method and path is registered twice.
  unfoldable pub distinct : Router → Bool
  unfolding find_handle
  distinct [] = true
  distinct (e ∷ rest) = registers_none (find_handle e.method e.path rest) && distinct rest

  -- `router.GET`, `router.POST` and `router.DELETE`
  unfoldable pub register : Method → String → Handle w → Exec Router Unit
  register method path h =
      modify (λ router. router ++ record { method = method; path = path; handle = h } ∷ [])

  unfoldable pub add_version : Exec Router Unit
  unfolding register debug_logging
  add_version = register on_get version_path (debug_logging p w (version_route p w) version_path)

  unfoldable pub add_apps_emulator : AppsEmulator p → Exec Router Unit
  unfolding register debug_logging
  add_apps_emulator emulator =
      register on_post apps_emulator_prefix
        (debug_logging p w (apps_emulator_route p w emulator) apps_emulator_prefix)

  unfoldable pub add_horizontal_emulator : HorizontalEmulator p → Exec Router Unit
  unfolding register debug_logging
  add_horizontal_emulator emulator =
      register on_post horizontal_emulator_prefix
        (debug_logging p w (horizontal_emulator_route p w emulator) horizontal_emulator_prefix)

  unfoldable pub add_vertical_emulator : VerticalEmulator p → Exec Router Unit
  unfolding register debug_logging
  add_vertical_emulator emulator =
      register on_post vertical_emulator_prefix
        (debug_logging p w (vertical_emulator_route p w emulator) vertical_emulator_prefix)

  unfoldable pub add_prediction_emulator : PredictionEmulator p → Exec Router Unit
  unfolding register debug_logging
  add_prediction_emulator emulator =
      register on_post prediction_prefix
        (debug_logging p w (prediction_emulator_route p w emulator) prediction_prefix)

  unfoldable pub add_emulator_report : EmulatorReport p → Exec Router Unit
  unfolding register debug_logging
  add_emulator_report emulator =
      register on_get report_prefix
        (debug_logging p w (emulator_report_route p w emulator) report_prefix)

  unfoldable pub add_nodes_emulator : AddNodesEmulator p → Exec Router Unit
  unfolding register debug_logging
  add_nodes_emulator emulator =
      register on_post add_nodes_prefix
        (debug_logging p w (add_nodes_emulator_route p w emulator) add_nodes_prefix)

  unfoldable pub delete_nodes_emulator : DeleteNodesEmulator p → Exec Router Unit
  unfolding register debug_logging
  delete_nodes_emulator emulator =
      register on_delete delete_all_node_prefix
        (debug_logging p w (delete_nodes_emulator_route p w emulator) delete_all_node_prefix)

  unfoldable pub list_nodes_emulator : ListNodesEmulator p → Exec Router Unit
  unfolding register debug_logging
  list_nodes_emulator emulator =
      register on_get list_all_node_prefix
        (debug_logging p w (list_nodes_emulator_route p w emulator) list_all_node_prefix)

  unfoldable pub list_node_info_emulator : ListNodeInfoEmulator p → Exec Router Unit
  unfolding register debug_logging
  list_node_info_emulator emulator =
      register on_get list_node_info_prefix
        (debug_logging p w (list_node_info_emulator_route p w emulator) list_node_info_prefix)

  unfoldable pub add_deprecated_prediction_emulator :
      DeprecatedPredictionEmulator p → Exec Router Unit
  unfolding register debug_logging
  add_deprecated_prediction_emulator emulator = register on_post deprecated_prediction_prefix (
      debug_logging p w (deprecated_prediction_emulator_route p w emulator)
        deprecated_prediction_prefix)

  unfoldable pub add_deprecated_apps_emulator : DeprecatedAppsEmulator p → Exec Router Unit
  unfolding register debug_logging
  add_deprecated_apps_emulator emulator = register on_post deprecated_apps_emulator_prefix (
      debug_logging p w (deprecated_apps_emulator_route p w emulator)
        deprecated_apps_emulator_prefix)
