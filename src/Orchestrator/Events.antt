-- ===== src/Orchestrator/Events.antt =====
-- internal/orchestrator/manager.go: the manager as a machine. An event is one call of an operation
-- by the API, an agent's report or a background task, or one hold of the lock of a start; any events may
-- come in any order.
use cube_cos_driver.Base.{ℕ, String, Bool, List, [], ◌∷◌, ◌++◌, Option, if◌then◌else◌}
use cube_cos_driver.Orchestrator.State.{State}
use cube_cos_driver.Orchestrator.Record.{
  Node, ErrCode, PreflightResult, NodePreflight, SetReadyInput,
}
use cube_cos_driver.Orchestrator.Sel.{SelStatus}
use cube_cos_driver.Orchestrator.Manager.{Manager, Store}
use cube_cos_driver.Orchestrator.Ledger.{ack_gates, reconcile_gates}
use cube_cos_driver.Orchestrator.Steps.{advance_step, green_light1, check_in, rekick_preflight}
use cube_cos_driver.Orchestrator.Ready.{submit_set_ready, get_set_ready, mark_ready}
use cube_cos_driver.Orchestrator.Reports.{
  advance, fail, preflight_report, preflight_fail, preflight_progress, restore_done, apply_started,
  wait_for_master, apply_failed, verified, report, applied, merge_sel,
}
use cube_cos_driver.Orchestrator.Launch.{
  Request, start_records, clear_node, anchor_node, start_gates, abort, start_tasks, has_none,
  cancel,
}

pub data Event : Type 0 where
  opens : String → Request → Event
  wipes : String → Node → Event
  anchors : String → String → ℕ → Event
  grants : String → Request → Event
  aborts : String → ℕ → Event
  boots : String → Request → ℕ → Event
  cancels : String → Event
  steps_on : String → Event
  asks_green_light : String → String → Event
  checks_in : String → String → Event
  rekicks : String → String → Event
  advances : String → String → State → Event
  fails : String → String → ErrCode → String → Event
  reports_preflight : String → String → NodePreflight → Event
  fails_preflight : String → String → ErrCode → String → Event
  preflights : String → String → Event
  restores : String → String → Event
  starts_apply : String → String → Bool → Event
  waits_for_master : String → String → Event
  fails_apply : String → String → String → Event
  reports : String → String → State → String → Option (List PreflightResult) → Event
  applies : String → String → Event
  merges : String → String → SelStatus → Event
  acks : String → String → List ℕ → Bool → Event
  reconciles : (String → Bool) → String → Event
  verifies : String → List PreflightResult → Event
  submits : String → SetReadyInput → Event
  asks_set_ready : String → Event
  marks_ready : String → Bool → String → Event
  ticks : ℕ → Event

unfoldable pub step : Event → Manager → Manager
step (opens cid r) m = start_records cid r m
step (wipes cid n) m = clear_node cid n m
step (anchors cid host id) m = anchor_node cid host id m
step (grants cid r) m = start_gates cid r m
step (aborts cid i) m = abort cid i m
step (boots cid r i) m = start_tasks cid r i m
step (cancels cid) m = cancel cid m
step (steps_on cid) m = (advance_step cid m).1
step (asks_green_light cid host) m = (green_light1 cid host m).1
step (checks_in cid host) m = (check_in cid host m).1
step (rekicks cid host) m = (rekick_preflight cid host m).1
step (advances cid host s) m = advance cid host s m
step (fails cid host code msg) m = fail cid host code msg m
step (reports_preflight cid host pf) m = preflight_report cid host pf m
step (fails_preflight cid host code msg) m = preflight_fail cid host code msg m
step (preflights cid host) m = preflight_progress cid host m
step (restores cid host) m = restore_done cid host m
step (starts_apply cid host proceed) m = apply_started cid host proceed m
step (waits_for_master cid host) m = wait_for_master cid host m
step (fails_apply cid host msg) m = apply_failed cid host msg m
step (reports cid host s msg pf) m = report cid host s msg pf m
step (applies cid host) m = applied cid host m
step (merges cid host s) m = merge_sel cid host s m
step (acks cid host stages failed) m = ack_gates cid host stages failed m
step (reconciles failed cid) m = reconcile_gates failed cid m
step (verifies cid results) m = verified cid results m
step (submits cid x) m = submit_set_ready cid x m
step (asks_set_ready cid) m = (get_set_ready cid m).1
step (marks_ready cid ok msg) m = mark_ready cid ok msg m
step (ticks now) m = record m { clock = now }

unfoldable pub run : List Event → Manager → Manager
unfolding step
run [] m = m
run (e ∷ es) m = run es (step e m)

-- The holds of the lock that one `Start` makes, in their order: the records; the wipe and the anchor of
-- each node; the gates; and behind the boot server the background work, or the end of the run. `i` is the
-- run's number, `ids` are the BMCs' answers, `flipped` says that the boot server took the image or that
-- there is none. Other events may come between any two of them.
abbrev pub node_events : String → (String → ℕ) → List Node → List Event
node_events cid ids [] = []
node_events cid ids (n ∷ ns) =
    wipes cid n ∷ anchors cid n.hostname (ids n.hostname) ∷ node_events cid ids ns

abbrev pub start_events : String → Request → (String → ℕ) → Bool → ℕ → List Event
start_events cid r ids flipped i =
    if has_none r.nodes
    then []
    else (opens cid r ∷ node_events cid ids r.nodes
        ++ grants cid r ∷ (if flipped then boots cid r i else aborts cid i) ∷ [])

-- `NewManager`, over the store of an earlier process, with what the setters plug in.
unfoldable pub new_manager : Store → ℕ → Bool → Bool → Bool → Bool → Manager
new_manager st limit gate sel pxe manual_gate = record {
  store = st;
  skew_limit = limit;
  has_gate = gate;
  has_sel = sel;
  has_pxe = pxe;
  manual_gate = manual_gate;
  deploys = [];
  cancels = [];
  owners = [];
  nodes = [];
  set_ready = [];
  tasks = [];
  ended = [];
  next_run = 0;
  clock = 0;
}
