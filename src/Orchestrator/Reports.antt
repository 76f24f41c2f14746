-- ===== src/Orchestrator/Reports.antt =====
-- internal/orchestrator/manager.go and sel.go: the reports of the agents, in band and out of band,
-- and what they set off.
use cube_cos_driver.Base.{
  String, Bool, true, false, ◌||◌, not, List, [], ◌∷◌, Option, none, some, if◌then◌else◌, str_eq,
  all_of, keep,
}
use cube_cos_driver.Base.Maps.{lookup}
use cube_cos_driver.Orchestrator.State.{State, is_done}
use cube_cos_driver.Orchestrator.Record.{ErrCode, PreflightResult, NodePreflight, NodeDeploy}
use cube_cos_driver.Orchestrator.Code
use cube_cos_driver.Orchestrator.Gate
use cube_cos_driver.Orchestrator.Sel.{SelPhase, SelStatus, ready_phase, is_error_result, sel_state}
use cube_cos_driver.Orchestrator.Nodes.{
  advance_node, fail_node, preflight_code, preflight_report_node, terminal_fail_node,
  preflight_progress_node, restore_done_node, apply_started_node, wait_for_master_node,
  applied_node, report_node, merge_node, merge_became_done,
}
use cube_cos_driver.Orchestrator.Manager.{
  Manager, verify_cluster, boot_disk, put_deploy, set_node, node_of, master_of, spawn,
}
use cube_cos_driver.Orchestrator.Ledger.{write_gos, node_in, values, hosts_of, peers_only, selects}
use cube_cos_driver.Orchestrator.Ready.{maybe_auto_set_ready, mark_ready}

unfoldable pub advance : String → String → State → Manager → Manager
unfolding set_node advance_node
advance cid host s m = set_node cid host (advance_node s) m

unfoldable pub fail : String → String → ErrCode → String → Manager → Manager
unfolding set_node fail_node
fail cid host code msg m = set_node cid host (fail_node code msg) m

unfoldable pub preflight_report : String → String → NodePreflight → Manager → Manager
unfolding set_node preflight_report_node preflight_code
preflight_report cid host pf m =
    let pf' : NodePreflight = record pf { reported_at = m.clock } in
    set_node cid host (preflight_report_node (preflight_code m.skew_limit pf') pf') m

unfoldable pub preflight_fail : String → String → ErrCode → String → Manager → Manager
unfolding set_node terminal_fail_node
preflight_fail cid host code msg m = set_node cid host (terminal_fail_node code msg) m

unfoldable pub preflight_progress : String → String → Manager → Manager
unfolding set_node preflight_progress_node
preflight_progress cid host m = set_node cid host preflight_progress_node m

-- `RestoreDone` also starts the repeated boot-to-disk of a node that is known.
unfoldable pub restore_done : String → String → Manager → Manager
unfolding set_node restore_done_node spawn
restore_done cid host m =
    let m' : Manager = set_node cid host restore_done_node m in
    elim (node_in cid host m') [ none ↦ m' | some n ↦ spawn (boot_disk cid n ∷ []) m' ]

unfoldable pub apply_started : String → String → Bool → Manager → Manager
unfolding set_node apply_started_node
apply_started cid host proceed m = set_node cid host (apply_started_node proceed) m

unfoldable pub wait_for_master : String → String → Manager → Manager
unfolding set_node wait_for_master_node
wait_for_master cid host m = set_node cid host wait_for_master_node m

unfoldable pub apply_failed : String → String → String → Manager → Manager
unfolding set_node terminal_fail_node
apply_failed cid host msg m = set_node cid host (terminal_fail_node Code.apply_failed msg) m

-- `maybeVerifyCluster`: the check runs in the background.
unfoldable pub maybe_verify_cluster : String → Manager → Manager
unfolding is_done spawn
maybe_verify_cluster cid m = elim (lookup cid m.deploys) [
  | none ↦ m
  | some d ↦
      if d.cluster_ready
      then m
      else if all_of (λ kv. is_done kv.1.state) d.nodes
      then spawn (verify_cluster cid d.verify_targets ∷ []) m
      else m
]

-- The end of that check.
unfoldable pub verified : String → List PreflightResult → Manager → Manager
unfolding put_deploy
verified cid results m = elim (lookup cid m.deploys) [
  | none ↦ m
  | some d ↦
      put_deploy cid (record d { verify = results; cluster_ready = all_of (λ r. r.ok) results }) m
]

unfoldable pub report :
    String → String → State → String → Option (List PreflightResult) → Manager → Manager
unfolding set_node report_node maybe_verify_cluster is_done
report cid host s msg pf m =
    let m' : Manager = set_node cid host (report_node s msg pf) m in
    if is_done s then maybe_verify_cluster cid m' else m'

-- `releasePeersOnMasterDone`.
unfoldable pub release_peers : String → String → Manager → Manager
unfolding write_gos selects
release_peers cid host m = elim (lookup cid m.deploys) [
  | none ↦ m
  | some d ↦
      if not (str_eq d.master host)
      then m
      else if m.manual_gate || d.manual
      then m
      else write_gos cid (values (keep (λ kv. selects peers_only d.master kv.0) (hosts_of cid m)))
          Gate.apply m
]

-- `Applied`.
unfoldable pub applied : String → String → Manager → Manager
unfolding set_node applied_node release_peers maybe_auto_set_ready
applied cid host m =
    maybe_auto_set_ready cid (release_peers cid host (set_node cid host applied_node m))

unfoldable pub is_ready_phase : SelPhase → Bool
is_ready_phase ready_phase = true
is_ready_phase _ = false

abbrev pub became_done : State → Option NodeDeploy → Bool
became_done target none = false
became_done target (some nd) = merge_became_done target nd

-- What a merge that brought its node to done sets off.
unfoldable pub after_done : String → String → Manager → Manager
unfolding maybe_verify_cluster maybe_auto_set_ready release_peers
after_done cid host m =
    release_peers cid host (maybe_auto_set_ready cid (maybe_verify_cluster cid m))

unfoldable pub merge_state : String → String → State → String → Manager → Manager
unfolding set_node after_done merge_node merge_became_done
merge_state cid host target detail m =
    let m' : Manager = set_node cid host (merge_node target detail) m in
    if became_done target (node_of cid host m) then after_done cid host m' else m'

-- `MergeSEL`: the result of the cluster's set_ready is no state of a node.
unfoldable pub merge_sel : String → String → SelStatus → Manager → Manager
unfolding is_ready_phase is_error_result sel_state merge_state mark_ready master_of node_of
merge_sel cid host s m =
    if is_ready_phase s.phase
    then (if str_eq host (master_of cid m)
        then mark_ready cid (not (is_error_result s.result)) s.detail m
        else m)
    else elim (sel_state s) [ none ↦ m | some target ↦ merge_state cid host target s.detail m ]
