-- ===== src/Orchestrator/Nodes/Forward.antt =====
-- Which way each event moves a node.
use cube_cos_driver.Base.{ℕ, ◌≡◌, ◌≢◌, ◌↔◌, ◌⊎◌, true, false, String, arith, le_int, pos}
use cube_cos_driver.Orchestrator.State.{State, done, error, terminal, state_rank}
use cube_cos_driver.Orchestrator.Record.{NodeDeploy}
use cube_cos_driver.Orchestrator.Nodes.{merge_node, merge_became_done, cancel_node}

-- An out-of-band status takes a node to error, or to a state that is no earlier than the one it had;
-- it leaves a done node as it is; and the merge says "became done" exactly when the node was not
-- done and now is.
pub merge_node_forward :
    (target : State) (detail : String) (nd : NodeDeploy)
    → (((merge_node target detail nd).state ≡ error)
        ⊎ (le_int (state_rank nd.state) (state_rank (merge_node target detail nd).state) ≡ true))
      × ((nd.state ≢ done) ⊎ (merge_node target detail nd ≡ nd))
      × ((merge_became_done target nd ≡ true)
          ↔ ((nd.state ≢ done) × ((merge_node target detail nd).state ≡ done)))
unfolding merge_node merge_became_done
merge_node_forward target detail nd = (ground arith, ground arith, ground arith)

-- A node in error is brought back by any out-of-band status of the deploy progression: it takes the
-- status's state and keeps its error code and its message.
pub merge_node_revives :
    (target : State) (detail : String) (nd : NodeDeploy)
    → nd.state ≡ error
    → le_int (pos 0) (state_rank target) ≡ true
    → merge_node target detail nd ≡ record nd { state = target }
unfolding merge_node
merge_node_revives target detail nd h r = ground arith

-- A cancelled node is terminal, and a node that was terminal before keeps its whole record, so that a
-- second cancel changes nothing.
cancel_node-terminal :
    (now later : ℕ) (nd : NodeDeploy)
    → (terminal (cancel_node now nd).state ≡ true)
      × (cancel_node later (cancel_node now nd) ≡ cancel_node now nd)
      × ((terminal nd.state ≡ false) ⊎ (cancel_node now nd ≡ nd))
unfolding cancel_node
cancel_node-terminal now later nd = ground arith
