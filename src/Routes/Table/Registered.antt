-- ===== src/Routes/Table/Registered.antt =====
-- The table of cmd/kubesim/app/server.go.
use kubesim.Prelude.{ℕ}
use kubesim.Prelude.Exec.{Exec, ◌>>◌}
use kubesim.Platform.{Platform}
use kubesim.Jobs.{RealApps}
use kubesim.Emulator.{
  new_apps_emulator, new_horizontal_emulator, new_vertical_emulator, new_prediction_emulator,
  new_emulator_report, new_add_nodes_emulator, new_delete_nodes_emulator, new_list_nodes_emulator,
  new_list_node_info_emulator, new_deprecated_prediction_emulator, new_deprecated_apps_emulator,
}
use kubesim.Routes.{Web}
use kubesim.Routes.Table.{
  Router, add_version, add_apps_emulator, add_horizontal_emulator, add_vertical_emulator,
  add_prediction_emulator, add_emulator_report, add_nodes_emulator, delete_nodes_emulator,
  list_nodes_emulator, list_node_info_emulator, add_deprecated_prediction_emulator,
  add_deprecated_apps_emulator,
}
use kubesim.Routes.Table.Profiles.{add_pprof}

module _ (p : Platform) (w : Web p) (real : RealApps) (fuel : ℕ) where
  -- The part of `Run` that fills the router.
  unfoldable pub add_routes : Exec (Router p w) Unit
  unfolding add_pprof add_version add_apps_emulator add_horizontal_emulator add_vertical_emulator
      add_prediction_emulator add_emulator_report add_nodes_emulator delete_nodes_emulator
      list_nodes_emulator list_node_info_emulator add_deprecated_prediction_emulator
      add_deprecated_apps_emulator
  add_routes = do
    add_pprof p w
    add_version p w
    add_apps_emulator p w (new_apps_emulator p real fuel)
    add_horizontal_emulator p w (new_horizontal_emulator p real fuel)
    add_vertical_emulator p w (new_vertical_emulator p real fuel)
    add_prediction_emulator p w (new_prediction_emulator p real fuel)
    add_emulator_report p w (new_emulator_report p real fuel)
    add_nodes_emulator p w (new_add_nodes_emulator p real fuel)
    list_nodes_emulator p w (new_list_nodes_emulator p real fuel)
    list_node_info_emulator p w (new_list_node_info_emulator p real fuel)
    delete_nodes_emulator p w (new_delete_nodes_emulator p real fuel)
    add_deprecated_prediction_emulator p w (new_deprecated_prediction_emulator p real fuel)
    add_deprecated_apps_emulator p w (new_deprecated_apps_emulator p real fuel)
