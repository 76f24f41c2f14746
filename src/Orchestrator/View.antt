-- ===== src/Orchestrator/View.antt =====
-- internal/orchestrator/model.go: what the deploy page shows of a node, derived from its state.
pub mod Ordered
use cube_cos_driver.Base.{
  ℕ, String, Bool, false, ◌&&◌, not, List, [], ◌∷◌, ◌++◌, Map, leb, if◌then◌else◌, starts_with,
  str_eq, map, all_of,
}
use cube_cos_driver.Orchestrator.State.{
  State, pending, bmc_preflight, set_boot_pxe, power_cycle, netbooting, preflighting, preflight_ok,
  restoring, rebooting, checked_in, net_preflight, waiting, applying, applied, pipeline_rank,
  is_done, is_error,
}
use cube_cos_driver.Orchestrator.Record.{ErrCode, NodeDeploy, Deploy}

pub data Light : Type 0 where
  red yellow green off : Light

pub data Phase : Type 0 where
  boot preflight_net time wait_master applying_phase done_phase error_phase : Phase

pub data CellStatus : Type 0 where
  idle active complete failed : CellStatus

pub record PhaseCell : Type 0 where
  pub name : String
  pub status : CellStatus

-- Light 1 of a node that has not failed.
unfoldable pub fabric_light : State → Light
fabric_light pending = off
fabric_light bmc_preflight = off
fabric_light set_boot_pxe = off
fabric_light power_cycle = off
fabric_light netbooting = off
fabric_light preflighting = yellow
fabric_light _ = green

-- Light 2 of a node that has not failed.
unfoldable pub apply_light : State → Light
apply_light checked_in = yellow
apply_light waiting = yellow
apply_light net_preflight = yellow
apply_light applying = yellow
apply_light applied = yellow
apply_light State.done = green
apply_light _ = off

unfoldable pub lights : NodeDeploy → Light × Light
unfolding is_error fabric_light apply_light
lights nd =
    if is_error nd.state
    then (if starts_with nd.err_code "APPLY_" then (green, red) else (red, off))
    else (fabric_light nd.state, apply_light nd.state)

unfoldable pub phase_of : State → Phase
phase_of preflighting = preflight_net
phase_of preflight_ok = preflight_net
phase_of restoring = preflight_net
phase_of rebooting = preflight_net
phase_of checked_in = wait_master
phase_of waiting = wait_master
phase_of net_preflight = applying_phase
phase_of applying = applying_phase
phase_of applied = applying_phase
phase_of State.done = done_phase
phase_of State.error = error_phase
phase_of _ = boot

-- The status of a cell that is active from one rank and done from another.
unfoldable pub cell_status : ℕ → ℕ → State → CellStatus
unfolding pipeline_rank
cell_status active_rank done_rank s =
    if leb done_rank (pipeline_rank s)
    then complete
    else if leb active_rank (pipeline_rank s)
    then active
    else idle

-- The preflight, restore, reboot and apply cells, in order.
pub record Strip : Type 0 where
  pub pre : CellStatus
  pub res : CellStatus
  pub reb : CellStatus
  pub app : CellStatus

unfoldable pub strip : NodeDeploy → Strip
unfolding cell_status is_error
strip nd =
    let s : Strip = record {
      pre = cell_status 1 2 nd.state;
      res = cell_status 3 4 nd.state;
      reb = cell_status 4 5 nd.state;
      app = cell_status 5 7 nd.state;
    } in
    if is_error nd.state
    then (if starts_with nd.err_code "APPLY_"
        then record { pre = complete; res = complete; reb = complete; app = failed }
        else if starts_with nd.err_code "REBOOT_"
        then record s { pre = complete; res = complete; reb = failed }
        else if starts_with nd.err_code "RESTORE_"
        then record s { pre = complete; res = failed }
        else record s { pre = failed })
    else s

abbrev pub ready_cell : Bool → Bool → CellStatus
ready_cell set_ready_active set_ready_done =
    if set_ready_done then complete else if set_ready_active then active else idle

unfoldable pub progress : NodeDeploy → Bool → Bool → Bool → List PhaseCell
unfolding strip
progress nd is_master set_ready_active set_ready_done =
    let s : Strip = strip nd in
    (record { name = "preflight"; status = s.pre }
      ∷ record { name = "restore"; status = s.res }
      ∷ record { name = "reboot"; status = s.reb }
      ∷ record { name = "apply"; status = s.app }
      ∷ [])
    ++ (if is_master
        then record { name = "set-ready"; status = ready_cell set_ready_active set_ready_done } ∷ []
        else [])

-- The derived fields of one node of a deploy.
pub record NodeView : Type 0 where
  pub light1 : Light
  pub light2 : Light
  pub phase : Phase
  pub cells : List PhaseCell

-- Every node of the deploy is done, and there is one.
unfoldable pub all_done : Map NodeDeploy → Bool
unfolding is_done
all_done [] = false
all_done (n ∷ ns) = all_of (λ kv. is_done kv.1.state) (n ∷ ns)

unfoldable pub derive_node : Deploy → Bool → String → NodeDeploy → NodeView
unfolding lights phase_of progress
derive_node d set_ready_active host nd = record {
  light1 = (lights nd).0;
  light2 = (lights nd).1;
  phase = phase_of nd.state;
  cells = progress nd (str_eq host d.master) set_ready_active d.set_ready_done;
}

-- `deriveNodeFields`: the derived fields of every node.
unfoldable pub derive_node_fields : Deploy → Map NodeView
unfolding all_done derive_node
derive_node_fields d =
    let set_ready_active = all_done d.nodes && not d.set_ready_done in
    map (λ kv. (kv.0, derive_node d set_ready_active kv.0 kv.1)) d.nodes
