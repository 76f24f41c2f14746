-- ===== src/Orchestrator/Tests.antt =====
-- Concrete runs of the deploy engine: a manual deploy of a master and one peer.
mod Runs
mod Logs
mod Parts
mod Drives
use cube_cos_driver.Base.{
  ℕ, String, Bool, true, false, List, [], ◌∷◌, ◌++◌, Option, none, some, Map, pos, contains,
}
use cube_cos_driver.Base.Maps.{lookup, insert, remove}
use cube_cos_driver.Orchestrator.State.{State, pending, preflight_ok}
use cube_cos_driver.Orchestrator.Record.{Node, NodePreflight, NodeDeploy, Deploy}
use cube_cos_driver.Orchestrator.Manager.{Manager, Store}
use cube_cos_driver.Orchestrator.Ledger.{
  authorize_gates, authorize_all, authorize_one, ack_gates, flush_gates,
}
use cube_cos_driver.Orchestrator.Steps.{advance_step, green_light1}
use cube_cos_driver.Orchestrator.Reports.{preflight_report, merge_sel, applied}
use cube_cos_driver.Orchestrator.Launch.{
  Request, fresh_node, start_records, clear_node, anchor_node, set_anchor, start_gates, start_tasks,
}
use cube_cos_driver.Orchestrator.Events.{
  Event, start_events, reports_preflight, steps_on, acks, asks_green_light, run, new_manager,
}

-- Opens the manager's operations, for tests that run them.
unfoldable pub opened : Bool
unfolding lookup insert remove contains run new_manager start_records clear_node anchor_node
    set_anchor start_gates start_tasks advance_step authorize_gates authorize_all authorize_one
    preflight_report green_light1 ack_gates flush_gates merge_sel applied
opened = true

abbrev pub node_at : String → String → Node
node_at host address = record {
  hostname = host;
  machine_id = host;
  bmc_address = address;
  bmc_user = "admin";
  bmc_pass = "secret";
  bmc_cipher = 17;
  macs = [];
  os_disk = "sda";
}

abbrev pub request : Request
request = record {
  nodes = node_at "m1" "10.0.0.1" ∷ node_at "p1" "10.0.0.2" ∷ [];
  master = "m1";
  verify_targets = "10.0.0.1" ∷ [];
  manual = true;
  opt_out_repair = false;
  simulate_airgap = false;
}

abbrev pub good_preflight : NodePreflight
good_preflight = record {
  carrier_ok = true;
  clock_skew = pos 1000;
  matrix = [];
  passed = true;
  reported_at = 0;
}

abbrev pub empty_store : Store
empty_store = record { writable = true; deploys = []; set_ready = [] }

-- The start, both preflights and the operator's first step.
abbrev pub restoring_events : List Event
restoring_events =
    start_events "c" request (λ host. 0) true 0
    ++ reports_preflight "c" "m1" good_preflight
      ∷ reports_preflight "c" "p1" good_preflight
      ∷ steps_on "c"
      ∷ []

abbrev pub no_deploy : Deploy
no_deploy = record {
  cluster_id = "";
  started_at = 0;
  master = "";
  nodes = [];
  verify_targets = [];
  cluster_ready = false;
  verify = [];
  set_ready_done = false;
  manual = false;
  manual_step = 0;
  opt_out_repair = false;
  simulate_airgap = false;
}

abbrev pub deploy_or : Option Deploy → Deploy
deploy_or none = no_deploy
deploy_or (some d) = d

abbrev pub some_node : NodeDeploy
some_node = fresh_node 0 (node_at "m1" "10.0.0.1")

abbrev pub node_or : Option NodeDeploy → NodeDeploy
node_or none = some_node
node_or (some nd) = nd
