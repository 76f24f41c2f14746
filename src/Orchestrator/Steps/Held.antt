-- ===== src/Orchestrator/Steps/Held.antt =====
-- What must be true before green light 1 lets a node begin its restore.
use cube_cos_driver.Base.{
  ℕ, String, Bool, true, false, ◌≡◌, ◌≢◌, ◌⊎◌, ◌≤◌, [], ◌∷◌, some, arith, all_of, inl, inr, Map,
  Option-cases,
}
use cube_cos_driver.Base.Maps.{lookup, lookup-insert_same}
use cube_cos_driver.Orchestrator.State.{restoring}
use cube_cos_driver.Orchestrator.Record.{NodePreflight, NodeDeploy, Deploy}
use cube_cos_driver.Orchestrator.Nodes.{skewed, green_light_node, restore_confirmed}
use cube_cos_driver.Orchestrator.Manager.{Manager, node_of, put_deploy, put_node}
use cube_cos_driver.Orchestrator.Steps.{preflight_ready, fabric_ready, green_light1}

-- A test of every value of a map holds at the value of a key.
pub all_of-lookup {ℓ} :
    {V : Type ℓ} (p : V → Bool) (k : String) (kvs : Map V) (v : V)
    → all_of (λ kv. p kv.1) kvs ≡ true
    → lookup k kvs ≡ some v
    → p v ≡ true
unfolding lookup
all_of-lookup p k [] v h e = ground arith
all_of-lookup p k ((j, w) ∷ kvs) v h e = ground (arith, all_of-lookup p k kvs v)

-- A preflight that lets the fleet pass: reported, passed, links up, and the clock inside the limit.
pub record IsReady (limit : ℕ) (nd : NodeDeploy) : Type 0 where
  pub result : NodePreflight
  pub reported : nd.installer_preflight ≡ some result
  pub passed : result.passed ≡ true
  pub carrier : result.carrier_ok ≡ true
  pub in_time : skewed limit result.clock_skew ≡ false

pub preflight_ready-IsReady :
    (limit : ℕ) (nd : NodeDeploy)
    → preflight_ready limit nd.installer_preflight ≡ true
    → IsReady limit nd
unfolding preflight_ready
preflight_ready-IsReady limit nd h = elim (Option-cases nd.installer_preflight) [
  | inl unreported ↦ absurd (ground arith)
  | inr (pf, e) ↦ record {
    result = pf;
    reported = e;
    passed = ground arith;
    carrier = ground arith;
    in_time = ground arith;
  }
]

green_light1-barrier :
    (cid host : String) (m : Manager) (d : Deploy)
    → lookup cid m.deploys ≡ some d
    → (green_light1 cid host m).0 ≡ true
    → (fabric_ready m.skew_limit d ≡ true) × ((d.manual ≡ false) ⊎ (2 ≤ d.manual_step))
unfolding green_light1
green_light1-barrier cid host m d e h = ground arith

-- When green light 1 is given to any node of a deploy, every node of that deploy has reported a
-- preflight that passed, with its links up and its clock inside the limit; and the operator of a
-- manual deploy has entered the restore step.
pub green_light1-IsReady :
    (cid host peer : String) (m : Manager) (d : Deploy) (nd : NodeDeploy)
    → lookup cid m.deploys ≡ some d
    → lookup peer d.nodes ≡ some nd
    → (green_light1 cid host m).0 ≡ true
    → IsReady m.skew_limit nd × ((d.manual ≡ false) ⊎ (2 ≤ d.manual_step))
unfolding fabric_ready
green_light1-IsReady cid host peer m d nd e f h =
    let (ready, entered) = green_light1-barrier cid host m d e h in
    (
      preflight_ready-IsReady m.skew_limit nd (
          all_of-lookup (λ x. preflight_ready m.skew_limit x.installer_preflight) peer d.nodes nd
            ready f),
      entered,
    )

found_some :
    (cid host : String) (nd nd' : NodeDeploy) (d : Deploy) (m : Manager)
    → node_of cid host (put_deploy cid (put_node host nd d) m) ≡ some nd'
    → nd ≡ nd'
unfolding node_of put_deploy put_node
found_some cid host nd nd' d m h = ground (
  arith,
  lookup-insert_same cid (put_node host nd d) m.deploys,
  lookup-insert_same host nd d.nodes,
)

green_light1-found :
    (cid host : String) (m : Manager) (d : Deploy) (nd nd' : NodeDeploy)
    → lookup cid m.deploys ≡ some d
    → lookup host d.nodes ≡ some nd
    → nd.state ≢ restoring
    → node_of cid host (green_light1 cid host m).1 ≡ some nd'
    → nd'.state ≡ restoring
    → ((green_light1 cid host m).0 ≡ true) × (restore_confirmed m.has_gate nd ≡ true)
unfolding green_light1 node_of green_light_node
green_light1-found cid host m d nd nd' e e' ne f s =
    ground (arith, found_some cid host (green_light_node m.has_gate m.clock nd) nd' d m)

-- A node that a check of green light 1 brings to restoring has green light 1, and the restore gate
-- is confirmed on its BMC, if the manager writes gates at all.
pub green_light1-restoring :
    (cid host : String) (m : Manager) (nd nd' : NodeDeploy)
    → node_of cid host m ≡ some nd
    → nd.state ≢ restoring
    → node_of cid host (green_light1 cid host m).1 ≡ some nd'
    → nd'.state ≡ restoring
    → ((green_light1 cid host m).0 ≡ true) × (restore_confirmed m.has_gate nd ≡ true)
unfolding green_light1 node_of put_deploy green_light_node
green_light1-restoring cid host m nd nd' e ne f s = elim (Option-cases (lookup cid m.deploys)) [
  | inl gone ↦ absurd (ground arith)
  | inr (d, found) ↦ green_light1-found cid host m d nd nd' found (ground arith) ne f s
]
