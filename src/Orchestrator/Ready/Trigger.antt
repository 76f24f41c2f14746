-- ===== src/Orchestrator/Ready/Trigger.antt =====
-- When the master's agent is told to finalize the cluster.
use cube_cos_driver.Base.{
  String, true, false, ◌≡◌, ◌⊎◌, ◌≤◌, ◌&&◌, not, some, arith, if◌then◌else◌, Option-cases, inl, inr,
}
use cube_cos_driver.Base.Maps.{lookup, lookup-insert_same}
use cube_cos_driver.Orchestrator.State.{is_done, State}
use cube_cos_driver.Orchestrator.Record.{NodeDeploy, Deploy, SetReadyInput}
use cube_cos_driver.Orchestrator.Manager.{Manager, load_set_ready}
use cube_cos_driver.Orchestrator.Ready.{
  all_nodes_applied, step_held, hold_trigger, arm, keep_set_ready, submit_set_ready, get_set_ready,
}
use cube_cos_driver.Orchestrator.Steps.Held.{all_of-lookup}

hold_trigger-done :
    (cid host : String) (x : SetReadyInput) (m : Manager) (d : Deploy) (nd : NodeDeploy)
    → lookup cid m.deploys ≡ some d
    → lookup host d.nodes ≡ some nd
    → (hold_trigger cid x m).trigger ≡ true
    → (nd.state ≡ State.done) × ((d.manual ≡ false) ⊎ (6 ≤ d.manual_step))
unfolding hold_trigger all_nodes_applied is_done
hold_trigger-done cid host x m d nd e f h =
    ground (arith, all_of-lookup (λ x. is_done x.state) host d.nodes nd)

-- Whenever the answer to a poll for `set_ready` carries the trigger, every node of the cluster's
-- live deploy is done, and the operator of a manual deploy has entered the last step.
pub get_set_ready-done :
    (cid host : String) (m : Manager) (d : Deploy) (nd : NodeDeploy)
    → lookup cid m.deploys ≡ some d
    → lookup host d.nodes ≡ some nd
    → (get_set_ready cid m).0.trigger ≡ true
    → (nd.state ≡ State.done) × ((d.manual ≡ false) ⊎ (6 ≤ d.manual_step))
unfolding get_set_ready
get_set_ready-done cid host m d nd e f h = elim (Option-cases (lookup cid m.set_ready)) [
  | inr (x, here) ↦ hold_trigger-done cid host x m d nd e f (ground arith)
  | inl absent ↦ elim (Option-cases (load_set_ready cid m.store)) [
    | inr (x, kept) ↦ hold_trigger-done cid host x m d nd e f (ground arith)
    | inl unkept ↦ absurd (ground arith)
  ]
]

get_set_ready-some :
    (cid : String) (x : SetReadyInput) (m : Manager)
    → lookup cid m.set_ready ≡ some x
    → (get_set_ready cid m).0 ≡ hold_trigger cid x m
unfolding get_set_ready
get_set_ready-some cid x m h = ground arith

-- What a poll answers after the operator's submit: the trigger exactly when every node is done and no
-- step of the operator is missing; the network as it was submitted with an external network, and
-- empty without one; and no earlier result.
get_set_ready-submit_set_ready :
    (cid : String) (x : SetReadyInput) (m : Manager)
    → (let y = (get_set_ready cid (submit_set_ready cid x m)).0 in
        (y.trigger ≡ (all_nodes_applied cid m && not (step_held (lookup cid m.deploys))))
        × (y.create_external ≡ x.create_external)
        × (y.cidr ≡ (if x.create_external then x.cidr else ""))
        × (y.gateway ≡ (if x.create_external then x.gateway else ""))
        × (y.ip_range ≡ (if x.create_external then x.ip_range else ""))
        × (y.ready ≡ false)
        × (y.message ≡ ""))
unfolding submit_set_ready keep_set_ready arm hold_trigger all_nodes_applied
get_set_ready-submit_set_ready cid x m =
    rw
      (get_set_ready-some cid (arm x) (submit_set_ready cid x m)
        (lookup-insert_same cid (arm x) m.set_ready))
      (ground arith)
