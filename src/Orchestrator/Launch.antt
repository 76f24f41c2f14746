-- ===== src/Orchestrator/Launch.antt =====
-- internal/orchestrator/manager.go: the start, the cancelling and the status of a deploy. `Start`
-- gives up its lock around the BMCs and the boot server: each of its holds of the lock is a function of
-- its own here, and an event of its own in Orchestrator/Events.
pub mod Cancelled
use cube_cos_driver.Base.{
  ℕ, ◌+◌, String, Bool, true, false, ◌&&◌, not, List, [], ◌∷◌, ◌++◌, Option, none, some, Map,
  if◌then◌else◌, str_eq, keep, map, ◌==◌,
}
use cube_cos_driver.Base.Maps.{lookup, insert, remove}
use cube_cos_driver.Orchestrator.State.{pending}
use cube_cos_driver.Orchestrator.Record.{Node, NodeDeploy, Deploy}
use cube_cos_driver.Orchestrator.Step
use cube_cos_driver.Orchestrator.Gate
use cube_cos_driver.Orchestrator.Nodes.{cancel_node}
use cube_cos_driver.Orchestrator.Manager.{
  clear_log, Manager, drive_node, poll_sel, reconcile, restore_pxe, put_deploy, put_node, persist,
  spawn, load_set_ready, load, delete,
}
use cube_cos_driver.Orchestrator.Ledger.{authorize_gates, flush_gates}
use cube_cos_driver.Orchestrator.Ready.{keep_set_ready}

-- What `Start` is given.
pub record Request : Type 0 where
  pub nodes : List Node
  pub master : String
  pub verify_targets : List String
  pub manual : Bool
  pub opt_out_repair : Bool
  pub simulate_airgap : Bool

abbrev pub fresh_node : ℕ → Node → NodeDeploy
fresh_node now n = record {
  hostname = n.hostname;
  machine_id = n.machine_id;
  state = pending;
  message = "";
  err_code = "";
  preflight = [];
  installer_preflight = none;
  rekick_seq = 0;
  gates = [];
  gate_ack = [];
  sel_anchor = 0;
  updated_at = now;
}

-- The maps by hostname: a later node of a list replaces an earlier one of its name.
unfoldable pub fresh_nodes : ℕ → List Node → Map NodeDeploy → Map NodeDeploy
fresh_nodes now [] acc = acc
fresh_nodes now (n ∷ ns) acc = fresh_nodes now ns (insert n.hostname (fresh_node now n) acc)

unfoldable pub by_host : List Node → Map Node → Map Node
by_host [] acc = acc
by_host (n ∷ ns) acc = by_host ns (insert n.hostname n acc)

unfoldable pub fresh_deploy : String → Request → ℕ → Deploy
unfolding fresh_nodes
fresh_deploy cid r now = record {
  cluster_id = cid;
  started_at = now;
  master = r.master;
  nodes = fresh_nodes now r.nodes [];
  verify_targets = r.verify_targets;
  cluster_ready = false;
  verify = [];
  set_ready_done = false;
  manual = r.manual;
  manual_step = if r.manual then Step.preflight else 0;
  opt_out_repair = r.opt_out_repair;
  simulate_airgap = r.simulate_airgap;
}

-- Ends the context that a cluster's deploy runs under.
unfoldable pub end_run : String → Manager → Manager
end_run cid m = elim (lookup cid m.cancels) [
  | none ↦ m
  | some run ↦ record m { ended = run ∷ m.ended }
]

-- The result of the last run is cleared, its input is kept.
unfoldable pub reset_ready : String → Manager → Manager
unfolding load_set_ready keep_set_ready
reset_ready cid m = elim (load_set_ready cid m.store) [
  | none ↦ m
  | some x ↦ if x.ready then keep_set_ready cid (record x { ready = false; message = "" }) m else m
]

-- The first hold of the lock: the new records, under a new context. The run's number stands for the
-- context and for the pointer to the deploy.
unfoldable pub start_records : String → Request → Manager → Manager
unfolding end_run fresh_deploy by_host reset_ready persist
start_records cid r m =
    let m1 : Manager = end_run cid m in
    let d : Deploy = fresh_deploy cid r m1.clock in
    let m2 : Manager = record m1 {
      nodes = insert cid (by_host r.nodes []) m1.nodes;
      deploys = insert cid d m1.deploys;
    } in
    let m3 : Manager = reset_ready cid m2 in
    persist d (record m3 {
      cancels = insert cid m3.next_run m3.cancels;
      owners = insert cid m3.next_run m3.owners;
      next_run = m3.next_run + 1;
    })

-- The wipe of a node's log; a wipe that fails is logged and passed over.
unfoldable pub clear_node : String → Node → Manager → Manager
unfolding spawn
clear_node cid n m = if m.has_gate then spawn (clear_log cid n ∷ []) m else m

-- The anchor of a node, read from its BMC behind the wipe of its log, and set in the deploy that is
-- then registered.
unfoldable pub set_anchor : String → String → ℕ → Manager → Manager
unfolding put_deploy put_node
set_anchor cid host id m = elim (lookup cid m.deploys) [
  | none ↦ m
  | some d ↦ elim (lookup host d.nodes) [
    | none ↦ put_deploy cid d m
    | some nd ↦ put_deploy cid (put_node host (record nd { sel_anchor = id }) d) m
  ]
]

unfoldable pub anchor_node : String → String → ℕ → Manager → Manager
unfolding set_anchor
anchor_node cid host id m = if m.has_sel then set_anchor cid host id m else m

abbrev pub named : String → List Node → List Node
named host = keep (λ n. str_eq n.hostname host)

-- The gates of an automatic start, granted at once to the deploy that is then registered, and written
-- in one go to each BMC.
unfoldable pub start_gates : String → Request → Manager → Manager
unfolding authorize_gates flush_gates
start_gates cid r m =
    if m.has_gate && not r.manual
    then flush_gates cid r.nodes (
        authorize_gates cid (named r.master r.nodes) Gate.apply
          (authorize_gates cid r.nodes Gate.reboot (authorize_gates cid r.nodes Gate.restore m)))
    else m

-- The boot server refused: the deploy is dropped if the start that made it is the last one.
unfoldable pub abort : String → ℕ → Manager → Manager
unfolding delete
abort cid run m =
    let m1 : Manager = record m { ended = run ∷ m.ended } in
    elim (lookup cid m1.owners) [
      | none ↦ m1
      | some run' ↦
          if run' == run
          then record m1 {
            deploys = remove cid m1.deploys;
            cancels = remove cid m1.cancels;
            owners = remove cid m1.owners;
            store = delete cid m1.store;
          }
          else m1
    ]

abbrev pub when {ℓ} : {A : Type ℓ} → Bool → A → List A
when true a = a ∷ []
when false a = []

-- The background work of a deploy that has started.
unfoldable pub start_tasks : String → Request → ℕ → Manager → Manager
unfolding spawn
start_tasks cid r run m =
    spawn
      (when m.has_pxe (restore_pxe run cid)
        ++ (map (drive_node run cid) r.nodes
            ++ (when m.has_sel (poll_sel run cid r.nodes) ++ when m.has_gate (reconcile run cid))))
      m

abbrev pub has_none {ℓ} : {A : Type ℓ} → List A → Bool
has_none [] = true
has_none (_ ∷ _) = false

unfoldable pub cancel_nodes : ℕ → Map NodeDeploy → Map NodeDeploy
unfolding cancel_node
cancel_nodes now ns = map (λ kv. (kv.0, cancel_node now kv.1)) ns

-- `Cancel`.
unfoldable pub cancel : String → Manager → Manager
unfolding end_run cancel_nodes put_deploy
cancel cid m =
    let m0 : Manager = end_run cid m in
    let m1 : Manager = record m0 { cancels = remove cid m0.cancels } in
    elim (lookup cid m1.deploys) [
      | none ↦ m1
      | some d ↦ put_deploy cid (record d { nodes = cancel_nodes m1.clock d.nodes }) m1
    ]

-- `Status`, without the derived fields: a deploy that is only on disk takes its set-ready result
-- from there.
unfoldable pub status : String → Manager → Option Deploy
unfolding load load_set_ready
status cid m = elim (lookup cid m.deploys) [
  | some d ↦ some d
  | none ↦ elim (load cid m.store) [
    | none ↦ none
    | some d ↦ elim (load_set_ready cid m.store) [
      | none ↦ some d
      | some x ↦ some (record d { set_ready_done = x.ready })
    ]
  ]
]
