-- ===== src/Orchestrator/Ledger.antt =====
-- internal/orchestrator/manager.go: the ledger of gates that each node has been granted, its way to
-- the BMCs, and its upkeep.
use cube_cos_driver.Base.{
  ℕ, String, Bool, true, false, not, List, [], ◌∷◌, Option, none, some, Map, if◌then◌else◌, str_eq,
  keep,
}
use cube_cos_driver.Base.Maps.{lookup}
use cube_cos_driver.Orchestrator.Record.{Node, NodeDeploy, Deploy}
use cube_cos_driver.Orchestrator.Gate
use cube_cos_driver.Orchestrator.Nodes.{
  gate_bytes, ack_node, authorize_node, gates_at_risk, is_empty,
}
use cube_cos_driver.Orchestrator.Manager.{
  Manager, Task, write_gates, put_deploy, put_node, set_node, spawn, node_of,
}

-- Grants a stage to one node of a deploy.
unfoldable pub authorize_one : ℕ → String → Deploy → Deploy
unfolding authorize_node put_node
authorize_one stage host d = elim (lookup host d.nodes) [
  | none ↦ d
  | some nd ↦ put_node host (authorize_node stage nd) d
]

unfoldable pub authorize_all : ℕ → List Node → Deploy → Deploy
authorize_all stage [] d = d
authorize_all stage (n ∷ ns) d = authorize_all stage ns (authorize_one stage n.hostname d)

-- `authorizeGatesLocked`.
unfoldable pub authorize_gates : String → List Node → ℕ → Manager → Manager
unfolding put_deploy
authorize_gates cid targets stage m = elim (lookup cid m.deploys) [
  | none ↦ m
  | some d ↦ put_deploy cid (authorize_all stage targets d) m
]

-- The writes that put the ledgers of some nodes on their BMCs, one for each node that has any.
unfoldable pub ledger_writes : String → Deploy → List Node → List Task
unfolding gate_bytes
ledger_writes cid d [] = []
ledger_writes cid d (n ∷ ns) =
    let rest = ledger_writes cid d ns in
    elim (lookup n.hostname d.nodes) [
      | none ↦ rest
      | some nd ↦ if is_empty nd.gates then rest else write_gates cid n (gate_bytes nd.gates) ∷ rest
    ]

-- `flushGatesAsync`.
unfoldable pub flush_gates : String → List Node → Manager → Manager
unfolding ledger_writes spawn
flush_gates cid targets m =
    if m.has_gate
    then (elim (lookup cid m.deploys) [ none ↦ m | some d ↦ spawn (ledger_writes cid d targets) m ])
    else m

-- `writeGosAsync`.
unfoldable pub write_gos : String → List Node → ℕ → Manager → Manager
unfolding authorize_gates flush_gates
write_gos cid targets stage m = flush_gates cid targets (authorize_gates cid targets stage m)

-- Which nodes of a deploy a gate write is for.
pub data Which : Type 0 where
  all_nodes master_only peers_only : Which

unfoldable pub selects : Which → String → String → Bool
selects all_nodes master host = true
selects master_only master host = str_eq host master
selects peers_only master host = not (str_eq host master)

abbrev pub values {ℓ} : {V : Type ℓ} → Map V → List V
values [] = []
values ((k, v) ∷ m) = v ∷ values m

-- `gateTargetsLocked`.
unfoldable pub gate_targets : String → Which → Manager → List Node
unfolding selects
gate_targets cid which m = elim (lookup cid m.nodes) [
  | none ↦ []
  | some by_host ↦ elim (lookup cid m.deploys) [
    | none ↦ []
    | some d ↦ values (keep (λ kv. selects which d.master kv.0) by_host)
  ]
]

-- `ackGates`, behind a write that failed or not.
unfoldable pub ack_gates : String → String → List ℕ → Bool → Manager → Manager
unfolding set_node ack_node
ack_gates cid host stages failed m = set_node cid host (ack_node stages failed) m

-- `gateSetLocked`.
unfoldable pub gate_set : String → String → Manager → List ℕ
unfolding gate_bytes node_of
gate_set cid host m = elim (node_of cid host m) [ none ↦ [] | some nd ↦ gate_bytes nd.gates ]

pub data Release : Type 0 where
  not_in_deploy no_gate_writer : Release
  writes : Node → List ℕ → Release

abbrev pub node_in : String → String → Manager → Option Node
node_in cid host m = elim (lookup cid m.nodes) [ none ↦ none | some by_host ↦ lookup host by_host ]

abbrev pub or_apply : List ℕ → List ℕ
or_apply [] = Gate.apply ∷ []
or_apply (g ∷ gs) = g ∷ gs

-- `ReleaseNode`: the write that the call makes, or why it is refused.
unfoldable pub release_node : String → String → Manager → Release × Manager
unfolding authorize_gates gate_set
release_node cid host m = elim (node_in cid host m) [
  | none ↦ (not_in_deploy, m)
  | some target ↦
      let m' : Manager = authorize_gates cid (target ∷ []) Gate.apply m in
      if m.has_gate
      then (writes target (or_apply (gate_set cid host m')), m')
      else (no_gate_writer, m)
]

-- The nodes of `reconcileGates` that have a gate at risk, with the stages to re-assert.
unfoldable pub at_risk : Bool → Map Node → Map NodeDeploy → List (Node × List ℕ)
unfolding gates_at_risk gate_bytes
at_risk ready by_host [] = []
at_risk ready by_host ((host, nd) ∷ ns) =
    let rest = at_risk ready by_host ns in
    elim (lookup host by_host) [
      | none ↦ rest
      | some n ↦ if gates_at_risk ready nd then (n, gate_bytes nd.gates) ∷ rest else rest
    ]

abbrev pub is_ready : String → Manager → Bool
is_ready cid m = elim (lookup cid m.set_ready) [ none ↦ false | some x ↦ x.ready ]

abbrev pub hosts_of : String → Manager → Map Node
hosts_of cid m = elim (lookup cid m.nodes) [ none ↦ [] | some by_host ↦ by_host ]

unfoldable pub reconcile_targets : String → Manager → List (Node × List ℕ)
unfolding at_risk
reconcile_targets cid m =
    if m.has_gate
    then (elim (lookup cid m.deploys) [
      | none ↦ []
      | some d ↦ at_risk (is_ready cid m) (hosts_of cid m) d.nodes
    ])
    else []

-- The writes of `reconcileGates` in turn; `failed` says of which host the write fails.
unfoldable pub ack_each : (String → Bool) → String → List (Node × List ℕ) → Manager → Manager
unfolding ack_gates
ack_each failed cid [] m = m
ack_each failed cid ((n, stages) ∷ ts) m =
    ack_each failed cid ts (ack_gates cid n.hostname stages (failed n.hostname) m)

unfoldable pub reconcile_gates : (String → Bool) → String → Manager → Manager
unfolding reconcile_targets ack_each
reconcile_gates failed cid m = ack_each failed cid (reconcile_targets cid m) m
