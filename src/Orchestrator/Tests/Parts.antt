-- ===== src/Orchestrator/Tests/Parts.antt =====
-- The theorems about single nodes, the barriers and the strip at concrete records.
use cube_cos_driver.Base.{
  ℕ, true, false, ◌≡◌, ◌≢◌, ◌⊎◌, ◌↔◌, ◌≤◌, refl, [], ◌∷◌, some, arith, pos, le_int,
}
use cube_cos_driver.Base.Maps.{lookup}
use cube_cos_driver.Orchestrator.Gate
use cube_cos_driver.Orchestrator.State.{State, state_rank}
use cube_cos_driver.Orchestrator.Record.{NodePreflight, NodeDeploy, Deploy, SetReadyInput}
use cube_cos_driver.Orchestrator.Nodes.{merge_node, merge_became_done, restore_confirmed}
use cube_cos_driver.Orchestrator.Nodes.Forward.{merge_node_forward, merge_node_revives}
use cube_cos_driver.Orchestrator.Manager.{Manager, node_of}
use cube_cos_driver.Orchestrator.View.{progress, complete, active}
use cube_cos_driver.Orchestrator.View.Ordered.{progress-in_order}
use cube_cos_driver.Orchestrator.Steps.{advance_step, step_complete, green_light1}
use cube_cos_driver.Orchestrator.Steps.Advanced.{cursor, advance_step_one}
use cube_cos_driver.Orchestrator.Steps.Held.{IsReady, green_light1-IsReady, green_light1-restoring}
use cube_cos_driver.Orchestrator.Ready.{get_set_ready, submit_set_ready}
use cube_cos_driver.Orchestrator.Ready.Trigger.{get_set_ready-done}
use cube_cos_driver.Orchestrator.Events.{run, new_manager}
use cube_cos_driver.Orchestrator.Tests.{
  opened, empty_store, restoring_events, deploy_or, node_or, some_node, good_preflight,
}

abbrev restoring_manager : Manager
restoring_manager = run restoring_events (new_manager empty_store 5000000 true true false false)

abbrev restoring_deploy : Deploy
restoring_deploy = deploy_or (lookup "c" restoring_manager.deploys)

abbrev input : SetReadyInput
input = record {
  trigger = true;
  create_external = false;
  cidr = "10.9.0.0/16";
  gateway = "10.9.0.1";
  ip_range = "";
  ready = false;
  message = "";
}

abbrev node_in : State → NodeDeploy
node_in s = record some_node { state = s }

-- A deploy of a master and one peer in the given states, past the operator's step `k`.
abbrev deploy_in : State → State → ℕ → Deploy
deploy_in s t k = record restoring_deploy {
  manual_step = k;
  nodes =
      (
        "m1",
        record (node_in s) {
          installer_preflight = some (record good_preflight { passed = true });
          gate_ack = Gate.restore ∷ [];
        },
      )
      ∷ (
        "p1",
        record (node_in t) {
          installer_preflight = some good_preflight;
          gate_ack = Gate.restore ∷ [];
        },
      )
      ∷ [];
}

abbrev manager_in : State → State → ℕ → Manager
manager_in s t k = record restoring_manager {
  deploys = ("c", deploy_in s t k) ∷ [];
  set_ready = ("c", input) ∷ [];
}

abbrev pub passed_manager : Manager
passed_manager = manager_in State.preflight_ok State.preflight_ok 2

abbrev pub done_manager : Manager
done_manager = manager_in State.done State.done 6

merge_node_revives_example :
    merge_node State.applying "late" (node_in State.error)
    ≡ record (node_in State.error) { state = State.applying }
unfolding state_rank
merge_node_revives_example =
    merge_node_revives State.applying "late" (node_in State.error) refl refl

merge_node_forward_example :
    (((merge_node State.done "" (node_in State.waiting)).state ≡ State.error)
      ⊎ (le_int
            (state_rank State.waiting)
            (state_rank (merge_node State.done "" (node_in State.waiting)).state)
          ≡ true))
    × ((State.waiting ≢ State.done)
        ⊎ (merge_node State.done "" (node_in State.waiting) ≡ node_in State.waiting))
    × ((merge_became_done State.done (node_in State.waiting) ≡ true) ↔ (
        (State.waiting ≢ State.done)
        × ((merge_node State.done "" (node_in State.waiting)).state ≡ State.done)))
merge_node_forward_example = merge_node_forward State.done "" (node_in State.waiting)

abbrev slow_preflight : NodePreflight
slow_preflight = record good_preflight { passed = false; clock_skew = pos 9000000 }

abbrev acked_node : NodeDeploy
acked_node = record (node_in State.done) { gates = 1 ∷ 2 ∷ []; gate_ack = 1 ∷ [] }

progress-in_order_example : complete ≡ complete
unfolding progress
progress-in_order_example =
    progress-in_order (node_in State.applying) true false false 2
      (record { name = "reboot"; status = complete }) (record { name = "apply"; status = active })
      (omega arith) refl refl (ground arith)

green_light1-IsReady_example :
    IsReady 5000000
      (node_or (lookup "p1" (deploy_in State.preflight_ok State.preflight_ok 2).nodes))
    × ((true ≡ false) ⊎ (2 ≤ 2))
unfolding opened
green_light1-IsReady_example =
    green_light1-IsReady "c" "m1" "p1" passed_manager
      (deploy_in State.preflight_ok State.preflight_ok 2) _ refl refl refl

green_light1-restoring_example :
    ((green_light1 "c" "m1" passed_manager).0 ≡ true)
    × (restore_confirmed true (node_or (node_of "c" "m1" passed_manager)) ≡ true)
unfolding opened
green_light1-restoring_example =
    green_light1-restoring "c" "m1" passed_manager (node_or (node_of "c" "m1" passed_manager))
      (node_or (node_of "c" "m1" (green_light1 "c" "m1" passed_manager).1)) refl (λ e. ground arith)
      refl refl

get_set_ready-done_example : (State.done ≡ State.done) × ((true ≡ false) ⊎ (6 ≤ 6))
unfolding opened get_set_ready
get_set_ready-done_example =
    get_set_ready-done "c" "p1" done_manager (deploy_in State.done State.done 6) _ refl refl refl

abbrev submitted : SetReadyInput
submitted = (get_set_ready "c" (submit_set_ready "c" input passed_manager)).0

abbrev ready_manager : Manager
ready_manager = manager_in State.preflight_ok State.preflight_ok 1

abbrev applied_manager : Manager
applied_manager = manager_in State.done State.waiting 4

advance_step_one_example :
    ((◌≡◌ {A = ℕ} 2 6) × (◌≡◌ {A = ℕ} 1 6) × ((advance_step "c" ready_manager).1 ≡ ready_manager))
    ⊎ ((◌≡◌ {A = ℕ} 2 2)
        × (2 ≤ 6)
        × (step_complete 5000000 (deploy_in State.preflight_ok State.preflight_ok 1) ≡ true)
        × (cursor "c" (advance_step "c" ready_manager).1 ≡ some 2))
unfolding opened
advance_step_one_example =
    advance_step_one "c" ready_manager (deploy_in State.preflight_ok State.preflight_ok 1) 2 refl
      (ground arith) refl
