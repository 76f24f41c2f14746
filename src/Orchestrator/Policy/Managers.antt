-- ===== src/Orchestrator/Policy/Managers.antt =====
-- The manager's changes that keep every manual deploy policed, and the nodes under their names.
use cube_cos_driver.Base.{
  ℕ, String, Bool, true, false, ◌≡◌, refl, if◌then◌else◌, Map, some, List, [], ◌∷◌, arith, All,
  Option-cases, Bool-cases, inl, inr, sym, ◌∙◌, keep, subst,
}
use cube_cos_driver.Base.Maps.{lookup, lookup-insert-some}
use cube_cos_driver.Orchestrator.Record.{Node, NodeDeploy, Deploy}
use cube_cos_driver.Orchestrator.Manager.{
  Manager, Task, put_node, put_deploy, set_node, node_of, spawn,
}
use cube_cos_driver.Orchestrator.Manager.Records.{
  set_node-some, set_node-absent, node_of-some, stamp,
}
use cube_cos_driver.Orchestrator.Ledger.{
  authorize_one, authorize_all, authorize_gates, flush_gates, write_gos, gate_targets, Which,
  selects, values,
}
use cube_cos_driver.Orchestrator.Policy.{allowed, IsPoliced, ArePoliced, IsNamed, AreNamed}
use cube_cos_driver.Orchestrator.Policy.Deploys.{same_gates-IsPoliced, authorize_all-IsPoliced}

-- What holds of the manager between two operations.
pub record Inv (m : Manager) : Type 0 where
  pub policed : ArePoliced m.deploys
  pub named : AreNamed m.nodes

pub put_deploy-Inv :
    (cid : String) (d : Deploy) (m : Manager)
    → Inv m
    → (d.manual ≡ true → IsPoliced d)
    → Inv (put_deploy cid d m)
unfolding put_deploy
put_deploy-Inv cid d m v fits = record {
  policed = λ c e found is_manual. elim (lookup-insert-some cid c d e m.deploys found) [
    | inl same ↦ subst IsPoliced same (fits (rw same is_manual))
    | inr before ↦ v.policed c e before is_manual
  ];
  named = v.named;
}

-- A change of one node that leaves its gates as they are.
pub set_node-Inv :
    (cid host : String) (fn : NodeDeploy → NodeDeploy) (m : Manager)
    → ((nd : NodeDeploy) → (fn nd).gates ≡ nd.gates)
    → Inv m
    → Inv (set_node cid host fn m)
unfolding put_node
set_node-Inv cid host fn m same v = elim (Option-cases (node_of cid host m)) [
  | inl absent ↦ rw (set_node-absent cid host fn m absent) v
  | inr (nd, there) ↦
      let (d, e, f) = node_of-some cid host m nd there in
      rw (set_node-some cid host fn m d nd e f) (
        put_deploy-Inv cid (put_node host (stamp m fn nd) d) m v λ is_manual.
          same_gates-IsPoliced host nd (stamp m fn nd) d f (same nd) (v.policed cid d e is_manual))
]

pub if-Inv : (b : Bool) (x y : Manager) → Inv x → Inv y → Inv (if b then x else y)
if-Inv true x y p q = p
if-Inv false x y p q = q

pub if_split-Inv :
    (b : Bool) (x y : Manager) → (b ≡ true → Inv x) → (b ≡ false → Inv y) → Inv (if b then x else y)
if_split-Inv true x y p q = p refl
if_split-Inv false x y p q = q refl

pub if_pair-Inv :
    {A : Type 0} (b : Bool) (x y : A × Manager)
    → (b ≡ true → Inv x.1)
    → (b ≡ false → Inv y.1)
    → Inv (if b then x else y).1
if_pair-Inv true x y p q = p refl
if_pair-Inv false x y p q = q refl

-- Work put on the background list changes no record.
pub spawn-Inv : (ts : List Task) (m : Manager) → Inv m → Inv (spawn ts m)
unfolding spawn
spawn-Inv ts m v = record { policed = v.policed; named = v.named }

pub flush_gates-Inv :
    (cid : String) (targets : List Node) (m : Manager) → Inv m → Inv (flush_gates cid targets m)
unfolding flush_gates
flush_gates-Inv cid targets m v =
    if-Inv m.has_gate _ m
      (elim (Option-cases (lookup cid m.deploys)) [
        | inl gone ↦ rw gone v
        | inr (d, e) ↦ rw e (spawn-Inv _ m v)
      ])
      v

authorize_one-manual :
    (stage : ℕ) (host : String) (d : Deploy) → (authorize_one stage host d).manual ≡ d.manual
unfolding authorize_one
authorize_one-manual stage host d = ground arith

pub authorize_all-manual :
    (stage : ℕ) (ns : List Node) (d : Deploy) → (authorize_all stage ns d).manual ≡ d.manual
unfolding authorize_all
authorize_all-manual stage [] d = refl
authorize_all-manual stage (n ∷ ns) d =
    authorize_all-manual stage ns (authorize_one stage n.hostname d)
    ∙ authorize_one-manual stage n.hostname d

-- A stage is granted to nodes of a manual deploy that may have it; an automatic deploy is no matter.
pub authorize_gates-Inv :
    (cid : String) (targets : List Node) (stage : ℕ) (m : Manager)
    → ((d : Deploy)
        → lookup cid m.deploys ≡ some d
        → d.manual ≡ true
        → All (λ n. allowed d n.hostname stage ≡ true) targets)
    → Inv m
    → Inv (authorize_gates cid targets stage m)
unfolding authorize_gates
authorize_gates-Inv cid targets stage m may v = elim (Option-cases (lookup cid m.deploys)) [
  | inl gone ↦ rw (gone, authorize_gates) v
  | inr (d, e) ↦
      rw (e, authorize_gates)
        (put_deploy-Inv cid (authorize_all stage targets d) m v λ is_manual.
          let manual = sym (authorize_all-manual stage targets d) ∙ is_manual in
          authorize_all-IsPoliced stage targets d (may d e manual) (v.policed cid d e manual))
]

pub write_gos-Inv :
    (cid : String) (targets : List Node) (stage : ℕ) (m : Manager)
    → ((d : Deploy)
        → lookup cid m.deploys ≡ some d
        → d.manual ≡ true
        → All (λ n. allowed d n.hostname stage ≡ true) targets)
    → Inv m
    → Inv (write_gos cid targets stage m)
unfolding write_gos
write_gos-Inv cid targets stage m may v =
    flush_gates-Inv cid targets _ (authorize_gates-Inv cid targets stage m may v)

All-values-keep :
    (which : Which) (master : String) (ns : Map Node) (P : Node → Type 0)
    → IsNamed ns
    → ((n : Node) → selects which master n.hostname ≡ true → P n)
    → All P (values (keep (λ kv. selects which master kv.0) ns))
All-values-keep which master [] P named good = tt
All-values-keep which master ((h, n) ∷ ns) P named good =
    elim (Bool-cases (selects which master h)) [
      | inl chosen ↦
          rw chosen (good n (rw named.0 chosen), All-values-keep which master ns P named.1 good)
      | inr left ↦ rw left (All-values-keep which master ns P named.1 good)
    ]

-- What holds of every node that a gate write is for.
pub All-gate_targets :
    (cid : String) (which : Which) (m : Manager) (d : Deploy) (P : Node → Type 0)
    → lookup cid m.deploys ≡ some d
    → Inv m
    → ((n : Node) → selects which d.master n.hostname ≡ true → P n)
    → All P (gate_targets cid which m)
unfolding gate_targets
All-gate_targets cid which m d P e v good = elim (Option-cases (lookup cid m.nodes)) [
  | inl gone ↦ rw (gone, gate_targets) tt
  | inr (ns, f) ↦
      rw (f, gate_targets)
        (rw (e, gate_targets) (All-values-keep which d.master ns P (v.named cid ns f) good))
]
