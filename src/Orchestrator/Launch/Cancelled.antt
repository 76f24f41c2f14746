-- ===== src/Orchestrator/Launch/Cancelled.antt =====
-- What a cancel leaves behind.
use cube_cos_driver.Base.{
  false, any_of, not, refl, String, ℕ, ◌≡◌, none, arith, Map, [], ◌∷◌, Option-cases, inl, inr,
}
use cube_cos_driver.Base.Maps.{lookup, lookup-insert_same}
use cube_cos_driver.Orchestrator.State.{terminal}
use cube_cos_driver.Orchestrator.Record.{NodeDeploy, Deploy}
use cube_cos_driver.Orchestrator.Nodes.{cancel_node}
use cube_cos_driver.Orchestrator.Manager.{Manager, put_deploy}
use cube_cos_driver.Orchestrator.Steps.{has_active_deploy}
use cube_cos_driver.Orchestrator.Launch.{cancel, cancel_nodes, end_run}

cancel_nodes-terminal :
    (now : ℕ) (ns : Map NodeDeploy)
    → any_of (λ kv. not (terminal kv.1.state)) (cancel_nodes now ns) ≡ false
unfolding cancel_nodes cancel_node
cancel_nodes-terminal now [] = refl
cancel_nodes-terminal now ((h, nd) ∷ ns) = ground (arith, cancel_nodes-terminal now ns)

has_active_deploy-put_deploy :
    (cid : String) (d : Deploy) (m : Manager)
    → any_of (λ kv. not (terminal kv.1.state)) d.nodes ≡ false
    → has_active_deploy cid (put_deploy cid d m) ≡ false
unfolding has_active_deploy put_deploy
has_active_deploy-put_deploy cid d m h = ground (arith, lookup-insert_same cid d m.deploys)

has_active_deploy-gone :
    (cid : String) (m : Manager) → lookup cid m.deploys ≡ none → has_active_deploy cid m ≡ false
unfolding has_active_deploy
has_active_deploy-gone cid m h = ground arith

-- After a cancel the cluster has no active deploy: every node that a deploy of it had is terminal.
has_active_deploy-cancel :
    (cid : String) (m : Manager) → has_active_deploy cid (cancel cid m) ≡ false
unfolding cancel end_run
has_active_deploy-cancel cid m = elim (Option-cases (lookup cid (end_run cid m).deploys)) [
  | inl gone ↦ rw (gone, cancel) (has_active_deploy-gone cid _ gone)
  | inr (d, found) ↦
      rw (found, cancel) (has_active_deploy-put_deploy cid _ _ (cancel_nodes-terminal _ d.nodes))
]
