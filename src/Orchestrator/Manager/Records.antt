-- ===== src/Orchestrator/Manager/Records.antt =====
-- What `set` changes and what it leaves alone.
use cube_cos_driver.Base.{
  ◌≡◌, String, Option, none, some, arith, str_eq, eq_iff, if◌then◌else◌, ◌&&◌, Option-cases, inl,
  inr,
}
use cube_cos_driver.Base.Maps.{lookup, lookup-insert}
use cube_cos_driver.Orchestrator.Record.{NodeDeploy, Deploy}
use cube_cos_driver.Orchestrator.Manager.{Manager, node_of, set_node, put_deploy, put_node}

-- The record of a node with the time of its change.
abbrev pub stamp : Manager → (NodeDeploy → NodeDeploy) → NodeDeploy → NodeDeploy
stamp m fn nd = let nd' : NodeDeploy = fn nd in record nd' { updated_at = m.clock }

abbrev pub map_option {ℓ} : {A : Type ℓ} → (A → A) → Option A → Option A
map_option f none = none
map_option f (some a) = some (f a)

pub node_of-some :
    (cid host : String) (m : Manager) (nd : NodeDeploy)
    → node_of cid host m ≡ some nd
    → (d : Deploy) × (lookup cid m.deploys ≡ some d) × (lookup host d.nodes ≡ some nd)
unfolding node_of
node_of-some cid host m nd h = elim (Option-cases (lookup cid m.deploys)) [
  | inl gone ↦ ground arith
  | inr (d, e) ↦ (d, e, ground arith)
]

pub set_node-some :
    (cid host : String) (fn : NodeDeploy → NodeDeploy) (m : Manager) (d : Deploy) (nd : NodeDeploy)
    → lookup cid m.deploys ≡ some d
    → lookup host d.nodes ≡ some nd
    → set_node cid host fn m ≡ put_deploy cid (put_node host (stamp m fn nd) d) m
unfolding set_node
set_node-some cid host fn m d nd e f = rw (e, set_node) (rw (f, set_node))

pub set_node-absent :
    (cid host : String) (fn : NodeDeploy → NodeDeploy) (m : Manager)
    → node_of cid host m ≡ none
    → set_node cid host fn m ≡ m
unfolding set_node node_of
set_node-absent cid host fn m h = elim (Option-cases (lookup cid m.deploys)) [
  | inl gone ↦ rw (gone, set_node)
  | inr (d, e) ↦ elim (Option-cases (lookup host d.nodes)) [
    | inl absent ↦ rw (e, set_node) (rw (absent, set_node))
    | inr (nd, f) ↦ ground arith
  ]
]

node_of-put :
    (cid host c h : String) (d : Deploy) (nd : NodeDeploy) (m : Manager)
    → lookup cid m.deploys ≡ some d
    → node_of c h (put_deploy cid (put_node host nd d) m)
      ≡ (if str_eq cid c && str_eq host h then some nd else node_of c h m)
unfolding node_of put_deploy put_node
node_of-put cid host c h d nd m e = ground (
  arith,
  eq_iff cid c,
  lookup-insert cid c (put_node host nd d) m.deploys,
  lookup-insert host h nd d.nodes,
)

-- After `set`, the node has the changed record with the time of the change, and every other node of
-- every deploy has the record that it had; a node that is not there stays away.
pub node_of-set_node :
    (cid host c h : String) (fn : NodeDeploy → NodeDeploy) (m : Manager)
    → node_of c h (set_node cid host fn m) ≡ (
        if str_eq cid c && str_eq host h
        then map_option (stamp m fn) (node_of c h m)
        else node_of c h m)
node_of-set_node cid host c h fn m = elim (Option-cases (node_of cid host m)) [
  | inl gone ↦
      rw (set_node-absent cid host fn m gone)
        (unfold node_of in ground (arith, eq_iff cid c, eq_iff host h))
  | inr (nd, there) ↦
      let (d, e, f) = node_of-some cid host m nd there in
      rw (set_node-some cid host fn m d nd e f) (
        ground (
          arith,
          there,
          node_of-put cid host c h d (stamp m fn nd) m e,
          eq_iff cid c,
          eq_iff host h,
        ))
]
