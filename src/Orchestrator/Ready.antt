-- ===== src/Orchestrator/Ready.antt =====
-- internal/orchestrator/manager.go: the cluster's `set_ready`, its trigger and its result.
pub mod Trigger
use cube_cos_driver.Base.{
  String, Bool, true, false, ◌&&◌, ◌||◌, not, Option, none, some, if◌then◌else◌, ltb, all_of,
  contains,
}
use cube_cos_driver.Base.Maps.{lookup, insert}
use cube_cos_driver.Orchestrator.State.{is_done}
use cube_cos_driver.Orchestrator.Record.{Deploy, SetReadyInput}
use cube_cos_driver.Orchestrator.Step
use cube_cos_driver.Orchestrator.Gate
use cube_cos_driver.Orchestrator.Manager.{Manager, put_deploy, save_set_ready, load_set_ready}
use cube_cos_driver.Orchestrator.Ledger.{write_gos, gate_targets, master_only}

abbrev pub no_input : SetReadyInput
no_input = record {
  trigger = false;
  create_external = false;
  cidr = "";
  gateway = "";
  ip_range = "";
  ready = false;
  message = "";
}

-- Puts an input in memory, and on disk.
unfoldable pub keep_set_ready : String → SetReadyInput → Manager → Manager
unfolding save_set_ready
keep_set_ready cid x m = record m {
  set_ready = insert cid x m.set_ready;
  store = save_set_ready cid x m.store;
}

-- The input as `SubmitSetReady` keeps it.
unfoldable pub arm : SetReadyInput → SetReadyInput
arm x =
    let y : SetReadyInput = record x { trigger = true; ready = false; message = "" } in
    if x.create_external then y else record y { cidr = ""; gateway = ""; ip_range = "" }

unfoldable pub submit_set_ready : String → SetReadyInput → Manager → Manager
unfolding arm keep_set_ready
submit_set_ready cid x m = keep_set_ready cid (arm x) m

unfoldable pub has_set_ready : String → Manager → Bool
unfolding load_set_ready
has_set_ready cid m = elim (lookup cid m.set_ready) [
  | some _ ↦ true
  | none ↦ elim (load_set_ready cid m.store) [ some _ ↦ true | none ↦ false ]
]

-- `allNodesAppliedLocked`: no deploy, and a deploy with no node, are nothing to wait for.
unfoldable pub all_nodes_applied : String → Manager → Bool
unfolding is_done
all_nodes_applied cid m = elim (lookup cid m.deploys) [
  | none ↦ true
  | some d ↦ all_of (λ kv. is_done kv.1.state) d.nodes
]

abbrev pub step_held : Option Deploy → Bool
step_held none = false
step_held (some d) = d.manual && ltb d.manual_step Step.set_ready

-- What the agent is told of an input.
unfoldable pub hold_trigger : String → SetReadyInput → Manager → SetReadyInput
unfolding all_nodes_applied
hold_trigger cid x m =
    let y : SetReadyInput =
      if x.trigger && not (all_nodes_applied cid m) then record x { trigger = false } else x in
    if step_held (lookup cid m.deploys) then record y { trigger = false } else y

-- `GetSetReady`: an input that is on disk only is brought into memory.
unfoldable pub get_set_ready : String → Manager → SetReadyInput × Manager
unfolding hold_trigger load_set_ready
get_set_ready cid m = elim (lookup cid m.set_ready) [
  | some x ↦ (hold_trigger cid x m, m)
  | none ↦ elim (load_set_ready cid m.store) [
    | none ↦ (no_input, m)
    | some x ↦ (hold_trigger cid x m, record m { set_ready = insert cid x m.set_ready })
  ]
]

-- `maybeAutoSetReady`.
unfoldable pub maybe_auto_set_ready : String → Manager → Manager
unfolding all_nodes_applied write_gos gate_targets
maybe_auto_set_ready cid m = elim (lookup cid m.deploys) [
  | none ↦ m
  | some d ↦
      if d.manual || not (all_nodes_applied cid m)
      then m
      else write_gos cid (gate_targets cid master_only m) Gate.set_ready m
]

abbrev pub or_no_input : Option SetReadyInput → SetReadyInput
or_no_input none = no_input
or_no_input (some x) = x

-- The result on the record of the live deploy.
unfoldable pub stamp_ready : String → Bool → Manager → Manager
unfolding put_deploy
stamp_ready cid ok m = elim (lookup cid m.deploys) [
  | none ↦ m
  | some d ↦ put_deploy cid (record d { set_ready_done = ok }) m
]

-- `MarkReady`.
unfoldable pub mark_ready : String → Bool → String → Manager → Manager
unfolding keep_set_ready stamp_ready
mark_ready cid ok msg m =
    let x : SetReadyInput = or_no_input (lookup cid m.set_ready) in
    keep_set_ready cid (record x { ready = ok; message = msg }) (stamp_ready cid ok m)

-- `setReadyPending`.
unfoldable pub set_ready_pending : String → Manager → Bool
set_ready_pending cid m = elim (lookup cid m.deploys) [
  | none ↦ false
  | some d ↦ if d.set_ready_done || not m.has_gate then false else elim (lookup d.master d.nodes) [
    | none ↦ false
    | some nd ↦ contains nd.gates Gate.set_ready
  ]
]
