-- ===== src/Orchestrator/Policy/Grants.antt =====
-- Each operation of the manager keeps the invariant.
use cube_cos_driver.Base.{ℕ, String, Bool, refl, List, [], ◌∷◌, arith, Option-cases, inl, inr}
use cube_cos_driver.Orchestrator.State.{State}
use cube_cos_driver.Orchestrator.Record.{Node, ErrCode, NodePreflight}
use cube_cos_driver.Orchestrator.Code
use cube_cos_driver.Orchestrator.Nodes.{
  advance_node, fail_node, preflight_code, preflight_report_node, terminal_fail_node,
  preflight_progress_node, restore_done_node, apply_started_node, wait_for_master_node, ack_node,
}
use cube_cos_driver.Orchestrator.Manager.{Manager, set_node}
use cube_cos_driver.Orchestrator.Ledger.{
  node_in, ack_gates, ack_each, reconcile_gates, reconcile_targets,
}
use cube_cos_driver.Orchestrator.Reports.{
  advance, fail, preflight_report, preflight_fail, preflight_progress, restore_done, apply_started,
  wait_for_master, apply_failed,
}
use cube_cos_driver.Orchestrator.Policy.Managers.{Inv, set_node-Inv, spawn-Inv}

pub advance-Inv : (cid host : String) (s : State) (m : Manager) → Inv m → Inv (advance cid host s m)
unfolding advance
advance-Inv cid host s m =
    set_node-Inv cid host (advance_node s) m (λ nd. unfold advance_node in ground arith)

pub fail-Inv :
    (cid host : String) (code : ErrCode) (msg : String) (m : Manager)
    → Inv m
    → Inv (fail cid host code msg m)
unfolding fail
fail-Inv cid host code msg m =
    set_node-Inv cid host (fail_node code msg) m (λ nd. unfold fail_node in ground arith)

pub preflight_report-Inv :
    (cid host : String) (pf : NodePreflight) (m : Manager)
    → Inv m
    → Inv (preflight_report cid host pf m)
unfolding preflight_report
preflight_report-Inv cid host pf m =
    let pf' : NodePreflight = record pf { reported_at = m.clock } in
    set_node-Inv cid host (preflight_report_node (preflight_code m.skew_limit pf') pf') m
      (λ nd. unfold preflight_report_node in ground arith)

pub preflight_fail-Inv :
    (cid host : String) (code : ErrCode) (msg : String) (m : Manager)
    → Inv m
    → Inv (preflight_fail cid host code msg m)
unfolding preflight_fail
preflight_fail-Inv cid host code msg m =
    set_node-Inv cid host (terminal_fail_node code msg) m (λ nd. unfold terminal_fail_node in refl)

pub preflight_progress-Inv :
    (cid host : String) (m : Manager) → Inv m → Inv (preflight_progress cid host m)
unfolding preflight_progress
preflight_progress-Inv cid host m =
    set_node-Inv cid host preflight_progress_node m
      (λ nd. unfold preflight_progress_node in ground arith)

pub restore_done-Inv : (cid host : String) (m : Manager) → Inv m → Inv (restore_done cid host m)
unfolding restore_done
restore_done-Inv cid host m v =
    let moved : Inv (set_node cid host restore_done_node m) =
      set_node-Inv cid host restore_done_node m (λ nd. unfold restore_done_node in ground arith)
        v in
    elim (Option-cases (node_in cid host (set_node cid host restore_done_node m))) [
      | inl gone ↦ rw (gone, restore_done) moved
      | inr (n, there) ↦ rw (there, restore_done) (spawn-Inv _ _ moved)
    ]

pub apply_started-Inv :
    (cid host : String) (proceed : Bool) (m : Manager)
    → Inv m
    → Inv (apply_started cid host proceed m)
unfolding apply_started
apply_started-Inv cid host proceed m =
    set_node-Inv cid host (apply_started_node proceed) m
      (λ nd. unfold apply_started_node in ground arith)

pub wait_for_master-Inv :
    (cid host : String) (m : Manager) → Inv m → Inv (wait_for_master cid host m)
unfolding wait_for_master
wait_for_master-Inv cid host m =
    set_node-Inv cid host wait_for_master_node m (λ nd. unfold wait_for_master_node in ground arith)

pub apply_failed-Inv :
    (cid host msg : String) (m : Manager) → Inv m → Inv (apply_failed cid host msg m)
unfolding apply_failed
apply_failed-Inv cid host msg m =
    set_node-Inv cid host (terminal_fail_node Code.apply_failed msg) m
      (λ nd. unfold terminal_fail_node in refl)

pub ack_gates-Inv :
    (cid host : String) (stages : List ℕ) (failed : Bool) (m : Manager)
    → Inv m
    → Inv (ack_gates cid host stages failed m)
unfolding ack_gates
ack_gates-Inv cid host stages failed m =
    set_node-Inv cid host (ack_node stages failed) m (λ nd. unfold ack_node in ground arith)

ack_each-Inv :
    (failed : String → Bool) (cid : String) (ts : List (Node × List ℕ)) (m : Manager)
    → Inv m
    → Inv (ack_each failed cid ts m)
unfolding ack_each
ack_each-Inv failed cid [] m v = v
ack_each-Inv failed cid ((n, stages) ∷ ts) m v =
    ack_each-Inv failed cid ts _ (ack_gates-Inv cid n.hostname stages (failed n.hostname) m v)

pub reconcile_gates-Inv :
    (failed : String → Bool) (cid : String) (m : Manager)
    → Inv m
    → Inv (reconcile_gates failed cid m)
unfolding reconcile_gates
reconcile_gates-Inv failed cid m v = ack_each-Inv failed cid (reconcile_targets cid m) m v
