-- ===== src/Orchestrator/Tests/Runs.antt =====
-- Runs of the whole manager, and the theorems about runs at them.
use cube_cos_driver.Base.{true, false, ◌≡◌, refl, ℕ, List, [], ◌∷◌, ◌++◌}
use cube_cos_driver.Base.Maps.{lookup}
use cube_cos_driver.Orchestrator.Record.{Deploy, NodeDeploy}
use cube_cos_driver.Orchestrator.Gate
use cube_cos_driver.Orchestrator.Manager.{Manager}
use cube_cos_driver.Orchestrator.Events.{Event, opens, grants, start_events, run, new_manager}
use cube_cos_driver.Orchestrator.Policy.{allowed}
use cube_cos_driver.Orchestrator.Policy.Runs.{all_own, run_gates-allowed}
use cube_cos_driver.Orchestrator.Tests.{
  request, opened, empty_store, restoring_events, deploy_or, node_or,
}

abbrev restoring_manager : Manager
restoring_manager = run restoring_events (new_manager empty_store 5000000 true true false false)

abbrev restoring_deploy : Deploy
restoring_deploy = deploy_or (lookup "c" restoring_manager.deploys)

abbrev restoring_peer : NodeDeploy
restoring_peer = node_or (lookup "p1" restoring_deploy.nodes)

-- The peer has the restore gate and no other.
restoring_peer_gates : restoring_peer.gates ≡ Gate.restore ∷ []
unfolding opened
restoring_peer_gates = refl

run_gates-allowed_example : allowed restoring_deploy "p1" Gate.restore ≡ true
unfolding opened all_own
run_gates-allowed_example =
    run_gates-allowed empty_store 5000000 true true false false restoring_events "c" "p1"
      restoring_deploy restoring_peer Gate.restore refl refl refl refl refl

-- An automatic start of the cluster, overtaken by a manual one before it grants its gates: the peer of
-- the manual deploy, whose operator has made no step, has the gates of restore and reboot.
abbrev overtaken : List Event
overtaken =
    opens "c" (record request { manual = false }) ∷ start_events "c" request (λ host. 0) true 1
    ++ grants "c" (record request { manual = false }) ∷ []

abbrev overtaken_deploy : Deploy
overtaken_deploy =
    deploy_or
      (lookup "c" (run overtaken (new_manager empty_store 5000000 true true false false)).deploys)

overtaken_gates :
    (overtaken_deploy.manual ≡ true)
    × (◌≡◌ {A = ℕ} overtaken_deploy.manual_step 1)
    × ((node_or (lookup "p1" overtaken_deploy.nodes)).gates ≡ Gate.restore ∷ Gate.reboot ∷ [])
unfolding opened cube_cos_driver.Orchestrator.Manager.save
overtaken_gates = (refl, refl, refl)
