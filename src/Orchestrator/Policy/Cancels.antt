-- ===== src/Orchestrator/Policy/Cancels.antt =====
-- The cancelling of a deploy keeps the invariant.
use cube_cos_driver.Base.{ℕ, String, ◌≡◌, refl, Map, [], ◌∷◌, arith, Option-cases, inl, inr}
use cube_cos_driver.Base.Maps.{lookup, remove}
use cube_cos_driver.Orchestrator.Record.{NodeDeploy}
use cube_cos_driver.Orchestrator.Nodes.{cancel_node}
use cube_cos_driver.Orchestrator.Manager.{Manager}
use cube_cos_driver.Orchestrator.Manager.Records.{map_option}
use cube_cos_driver.Orchestrator.Launch.{end_run, cancel_nodes, cancel}
use cube_cos_driver.Orchestrator.Policy.Managers.{Inv, put_deploy-Inv}
use cube_cos_driver.Orchestrator.Policy.Launches.{end_run-Inv}

cancel_node-gates : (now : ℕ) (nd : NodeDeploy) → (cancel_node now nd).gates ≡ nd.gates
unfolding cancel_node
cancel_node-gates now nd = ground arith

pub lookup-cancel_nodes :
    (now : ℕ) (host : String) (ns : Map NodeDeploy)
    → lookup host (cancel_nodes now ns) ≡ map_option (cancel_node now) (lookup host ns)
unfolding cancel_nodes lookup
lookup-cancel_nodes now host [] = refl
lookup-cancel_nodes now host ((k, nd) ∷ ns) = ground (arith, lookup-cancel_nodes now host ns)

pub cancel-Inv : (cid : String) (m : Manager) → Inv m → Inv (cancel cid m)
unfolding cancel
cancel-Inv cid m v =
    let m0 : Manager = end_run cid m in
    let m1 : Manager = record m0 { cancels = remove cid m0.cancels } in
    let v0 : Inv m0 = end_run-Inv cid m v in
    let v1 : Inv m1 = record { policed = v0.policed; named = v0.named } in
    elim (Option-cases (lookup cid m0.deploys)) [
      | inl gone ↦ rw (gone, cancel) v1
      | inr (d, e) ↦
          rw (e, cancel)
            (put_deploy-Inv cid (record d { nodes = cancel_nodes m1.clock d.nodes }) m1 v1
              λ is_manual host nd g found c. elim (Option-cases (lookup host d.nodes)) [
                | inl absent ↦ absurd (ground (arith, lookup-cancel_nodes m1.clock host d.nodes))
                | inr (x, f) ↦ v1.policed cid d e is_manual host x g f (
                    ground (
                      arith,
                      lookup-cancel_nodes m1.clock host d.nodes,
                      cancel_node-gates m1.clock x,
                    ))
              ])
    ]
