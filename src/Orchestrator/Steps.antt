-- ===== src/Orchestrator/Steps.antt =====
-- internal/orchestrator/manager.go: the barriers of a deploy. The operator's steps of a manual
-- deploy, green light 1, and the answers that hold or release an agent.
pub mod Held
pub mod Advanced
use cube_cos_driver.Base.{
  ℕ, ◌+◌, String, Bool, true, false, ◌&&◌, ◌||◌, not, Option, none, some, if◌then◌else◌, str_eq,
  leb, ltb, ◌==◌, all_of, any_of,
}
use cube_cos_driver.Base.Maps.{lookup}
use cube_cos_driver.Orchestrator.State.{is_done, is_error, pipeline_rank, terminal}
use cube_cos_driver.Orchestrator.Record.{NodePreflight, Deploy}
use cube_cos_driver.Orchestrator.Step
use cube_cos_driver.Orchestrator.Gate
use cube_cos_driver.Orchestrator.Nodes.{
  skewed, may_restore, green_light_node, may_check_in, check_in_node, may_rekick, rekick_node,
}
use cube_cos_driver.Orchestrator.Manager.{Manager, put_deploy, put_node}
use cube_cos_driver.Orchestrator.Ledger.{
  write_gos, gate_targets, all_nodes, master_only, peers_only,
}

-- One node's preflight lets the fleet pass.
unfoldable pub preflight_ready : ℕ → Option NodePreflight → Bool
unfolding skewed
preflight_ready limit none = false
preflight_ready limit (some pf) = pf.passed && (pf.carrier_ok && not (skewed limit pf.clock_skew))

-- `fabricReadyLocked`.
unfoldable pub fabric_ready : ℕ → Deploy → Bool
unfolding preflight_ready
fabric_ready limit d = all_of (λ kv. preflight_ready limit kv.1.installer_preflight) d.nodes

unfoldable pub all_reached : ℕ → Deploy → Bool
unfolding pipeline_rank
all_reached want d = all_of (λ kv. leb want (pipeline_rank kv.1.state)) d.nodes

unfoldable pub master_done : Deploy → Bool
unfolding is_done
master_done d =
    str_eq d.master ""
    || (elim (lookup d.master d.nodes) [ none ↦ false | some nd ↦ is_done nd.state ])

-- What the current step waits for.
unfoldable pub step_complete : ℕ → Deploy → Bool
unfolding fabric_ready all_reached master_done
step_complete limit d =
    if d.manual_step == Step.preflight
    then fabric_ready limit d
    else if d.manual_step == Step.restore
    then all_reached 4 d
    else if d.manual_step == Step.reboot
    then all_reached 5 d
    else if d.manual_step == Step.apply_master
    then master_done d
    else if d.manual_step == Step.apply_rest
    then all_reached 7 d
    else false

unfoldable pub can_advance : ℕ → Deploy → Bool
unfolding step_complete
can_advance limit d =
    if not d.manual || leb Step.set_ready d.manual_step then false else step_complete limit d

-- The gate that entering a step writes.
unfoldable pub enter_step : String → ℕ → Manager → Manager
unfolding write_gos gate_targets
enter_step cid step m =
    if step == Step.restore
    then write_gos cid (gate_targets cid all_nodes m) Gate.restore m
    else if step == Step.reboot
    then write_gos cid (gate_targets cid all_nodes m) Gate.reboot m
    else if step == Step.apply_master
    then write_gos cid (gate_targets cid master_only m) Gate.apply m
    else if step == Step.apply_rest
    then write_gos cid (gate_targets cid peers_only m) Gate.apply m
    else if step == Step.set_ready
    then write_gos cid (gate_targets cid master_only m) Gate.set_ready m
    else m

pub data Advance : Type 0 where
  no_deploy not_manual : Advance
  incomplete : ℕ → Advance
  stepped : ℕ → Advance

-- `AdvanceStep`.
unfoldable pub advance_step : String → Manager → Advance × Manager
unfolding can_advance enter_step put_deploy
advance_step cid m = elim (lookup cid m.deploys) [
  | none ↦ (no_deploy, m)
  | some d ↦
      if not d.manual
      then (not_manual, m)
      else if leb Step.set_ready d.manual_step
      then (stepped d.manual_step, m)
      else if not (can_advance m.skew_limit d)
      then (incomplete d.manual_step, m)
      else let step = d.manual_step + 1 in
        (stepped step, enter_step cid step (put_deploy cid (record d { manual_step = step }) m))
]

-- The operator has not advanced past the preflight step.
abbrev pub preflight_held : Deploy → Bool
preflight_held d = d.manual && ltb d.manual_step Step.restore

-- `GreenLight1`.
unfoldable pub green_light1 : String → String → Manager → Bool × Manager
unfolding fabric_ready may_restore green_light_node put_deploy put_node
green_light1 cid host m = elim (lookup cid m.deploys) [
  | none ↦ (false, m)
  | some d ↦
      if preflight_held d
      then (false, m)
      else if not (fabric_ready m.skew_limit d)
      then (false, m)
      else (
        true,
        elim (lookup host d.nodes) [
          | none ↦ m
          | some nd ↦
              if may_restore nd.state
              then put_deploy cid (put_node host (green_light_node m.has_gate m.clock nd) d) m
              else m
        ],
      )
]

unfoldable pub reboot_proceed : String → Manager → Bool
reboot_proceed cid m = elim (lookup cid m.deploys) [
  | none ↦ true
  | some d ↦ not d.manual || leb Step.reboot d.manual_step
]

unfoldable pub apply_proceed : String → String → Manager → Bool
apply_proceed cid host m = elim (lookup cid m.deploys) [
  | none ↦ true
  | some d ↦
      if not d.manual
      then true
      else if str_eq host d.master
      then leb Step.apply_master d.manual_step
      else leb Step.apply_rest d.manual_step
]

-- `CheckIn`: whether the agent must hold.
unfoldable pub check_in : String → String → Manager → Bool × Manager
unfolding master_done may_check_in check_in_node put_deploy put_node
check_in cid host m = elim (lookup cid m.deploys) [
  | none ↦ (false, m)
  | some d ↦
      let hold = not (str_eq host d.master) && not (master_done d) in
      (
        hold,
        elim (lookup host d.nodes) [
          | none ↦ m
          | some nd ↦
              if may_check_in nd.state
              then put_deploy cid (put_node host (check_in_node hold m.clock nd) d) m
              else m
        ],
      )
]

pub data Rekick : Type 0 where
  no_deploy no_node past_preflight rekicked : Rekick

-- `RekickPreflight`.
unfoldable pub rekick_preflight : String → String → Manager → Rekick × Manager
unfolding may_rekick rekick_node put_deploy put_node
rekick_preflight cid host m = elim (lookup cid m.deploys) [
  | none ↦ (Rekick.no_deploy, m)
  | some d ↦ elim (lookup host d.nodes) [
    | none ↦ (no_node, m)
    | some nd ↦
        if may_rekick nd.state
        then (rekicked, put_deploy cid (put_node host (rekick_node m.clock nd) d) m)
        else (past_preflight, m)
  ]
]

unfoldable pub manual_state : String → Manager → Bool × ℕ
manual_state cid m = elim (lookup cid m.deploys) [
  | none ↦ (false, 0)
  | some d ↦ (d.manual, d.manual_step)
]

-- `HasActiveDeploy`.
unfoldable pub has_active_deploy : String → Manager → Bool
unfolding terminal
has_active_deploy cid m = elim (lookup cid m.deploys) [
  | none ↦ false
  | some d ↦ any_of (λ kv. not (terminal kv.1.state)) d.nodes
]

-- `deployNodesBooted`.
unfoldable pub deploy_nodes_booted : String → Manager → Bool
unfolding pipeline_rank is_error
deploy_nodes_booted cid m = elim (lookup cid m.deploys) [
  | none ↦ true
  | some d ↦ all_of (λ kv. leb 1 (pipeline_rank kv.1.state) || is_error kv.1.state) d.nodes
]
