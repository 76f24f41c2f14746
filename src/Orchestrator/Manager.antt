-- ===== src/Orchestrator/Manager.antt =====
-- internal/orchestrator/manager.go and store.go: the manager's state, its records in memory and on
-- disk, and the changes that it makes to one node under its lock. The lock makes each operation one
-- step. Work that the source starts in the background is put on the list `tasks`; contexts are
-- numbered, and a cancelled one is on the list `ended`.
pub mod Records
use cube_cos_driver.Base.{
  ℕ, suc, ◌+◌, String, Bool, true, false, ◌&&◌, not, List, [], ◌∷◌, ◌++◌, Option, none, some, Map,
  if◌then◌else◌,
}
use cube_cos_driver.Base.Maps.{lookup, insert, remove}
use cube_cos_driver.Orchestrator.State.{State, other}
use cube_cos_driver.Orchestrator.Record.{Node, NodeDeploy, Deploy, SetReadyInput}

-- What the manager asks of BMCs and goroutines: the wipe of a log, a gate write to one node's BMC, the repeated boot-to-disk of a restored node, the
-- cluster check, the drive of one node, the polls of a deploy.
pub data Task : Type 0 where
  write_gates : String → Node → List ℕ → Task
  clear_log : String → Node → Task
  boot_disk : String → Node → Task
  verify_cluster : String → List String → Task
  drive_node : ℕ → String → Node → Task
  poll_sel : ℕ → String → List Node → Task
  reconcile : ℕ → String → Task
  restore_pxe : ℕ → String → Task

-- The files of the deploy store. A write to a store that is not writable fails, and the manager
-- goes on.
pub record Store : Type 0 where
  pub writable : Bool
  pub deploys : Map Deploy
  pub set_ready : Map SetReadyInput

pub record Manager : Type 0 where
  pub store : Store
  pub skew_limit : ℕ
  pub has_gate : Bool
  pub has_sel : Bool
  pub has_pxe : Bool
  pub manual_gate : Bool
  pub deploys : Map Deploy
  pub cancels : Map ℕ
  pub owners : Map ℕ
  pub nodes : Map (Map Node)
  pub set_ready : Map SetReadyInput
  pub tasks : List Task
  pub ended : List ℕ
  pub next_run : ℕ
  pub clock : ℕ

-- `Store.Save`, `Delete`, `SaveSetReady`, `LoadSetReady` and `Load`.
unfoldable pub save : Deploy → Store → Store
save d st = if st.writable then record st { deploys = insert d.cluster_id d st.deploys } else st

unfoldable pub delete : String → Store → Store
delete cid st = if st.writable then record st { deploys = remove cid st.deploys } else st

unfoldable pub save_set_ready : String → SetReadyInput → Store → Store
save_set_ready cid x st =
    if st.writable then record st { set_ready = insert cid x st.set_ready } else st

unfoldable pub load_set_ready : String → Store → Option SetReadyInput
load_set_ready cid st = lookup cid st.set_ready

unfoldable pub load : String → Store → Option Deploy
load cid st = lookup cid st.deploys

-- `persistLocked`.
unfoldable pub persist : Deploy → Manager → Manager
persist d m = record m { store = save d m.store }

-- The record of a cluster's deploy in memory, changed in place and persisted.
unfoldable pub put_deploy : String → Deploy → Manager → Manager
unfolding persist
put_deploy cid d m =
    let m' : Manager = record m { deploys = insert cid d m.deploys } in persist d m'

unfoldable pub put_node : String → NodeDeploy → Deploy → Deploy
put_node host nd d = record d { nodes = insert host nd d.nodes }

-- A node of a deploy.
unfoldable pub node_of : String → String → Manager → Option NodeDeploy
node_of cid host m = elim (lookup cid m.deploys) [ none ↦ none | some d ↦ lookup host d.nodes ]

-- `set`: runs a change on a node's record, stamps it and persists the deploy. A cluster with no
-- deploy and a host that is no node of it change nothing.
unfoldable pub set_node : String → String → (NodeDeploy → NodeDeploy) → Manager → Manager
unfolding put_deploy put_node
set_node cid host fn m = elim (lookup cid m.deploys) [
  | none ↦ m
  | some d ↦ elim (lookup host d.nodes) [
    | none ↦ m
    | some nd ↦
        let nd' : NodeDeploy = fn nd in
        put_deploy cid (put_node host (record nd' { updated_at = m.clock }) d) m
  ]
]

-- `state`: the empty state of a node that is not there.
unfoldable pub state_of : String → String → Manager → State
unfolding node_of
state_of cid host m = elim (node_of cid host m) [ none ↦ other "" | some nd ↦ nd.state ]

-- `Master`.
unfoldable pub master_of : String → Manager → String
master_of cid m = elim (lookup cid m.deploys) [ none ↦ "" | some d ↦ d.master ]

unfoldable pub opt_out_repair : String → Manager → Bool
opt_out_repair cid m = elim (lookup cid m.deploys) [ none ↦ false | some d ↦ d.opt_out_repair ]

unfoldable pub simulate_airgap : String → Manager → Bool
simulate_airgap cid m = elim (lookup cid m.deploys) [ none ↦ false | some d ↦ d.simulate_airgap ]

unfoldable pub rekick_seq : String → String → Manager → ℕ
unfolding node_of
rekick_seq cid host m = elim (node_of cid host m) [ none ↦ 0 | some nd ↦ nd.rekick_seq ]

-- Puts work on the background list.
unfoldable pub spawn : List Task → Manager → Manager
spawn ts m = record m { tasks = m.tasks ++ ts }
