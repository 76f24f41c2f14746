-- ===== src/Orchestrator/Policy/Launches.antt =====
-- The start of a deploy keeps the invariant.
use cube_cos_driver.Base.{
  ℕ, String, Bool, false, ◌&&◌, not, ◌≡◌, refl, ◌==◌, str_eq, contains-nil, Map, some, List, [],
  ◌∷◌, arith, Option-cases, Bool-cases, inl, inr, ◌∙◌, sym, subst, eq_iff, ap,
}
use cube_cos_driver.Base.Maps.{
  lookup, insert, lookup-insert, lookup-insert-some, lookup-remove-some,
}
use cube_cos_driver.Orchestrator.Record.{Node, NodeDeploy, Deploy}
use cube_cos_driver.Orchestrator.Gate
use cube_cos_driver.Orchestrator.Manager.{Manager, put_deploy, load_set_ready, persist}
use cube_cos_driver.Orchestrator.Ledger.{authorize_gates, authorize_all}
use cube_cos_driver.Orchestrator.Launch.{
  Request, fresh_node, fresh_nodes, by_host, fresh_deploy, end_run, reset_ready, start_records,
  clear_node, set_anchor, anchor_node, named, start_gates, abort, start_tasks,
}
use cube_cos_driver.Orchestrator.Policy.{IsPoliced, IsNamed}
use cube_cos_driver.Orchestrator.Policy.Managers.{
  Inv, put_deploy-Inv, spawn-Inv, flush_gates-Inv, authorize_gates-Inv, authorize_all-manual,
  if-Inv, if_split-Inv,
}
use cube_cos_driver.Orchestrator.Policy.Barriers.{keep_set_ready-Inv}
use cube_cos_driver.Orchestrator.Policy.Stepping.{change_node-Inv}

IsNamed-insert : (n : Node) (ns : Map Node) → IsNamed ns → IsNamed (insert n.hostname n ns)
unfolding insert
IsNamed-insert n [] h = (refl, tt)
IsNamed-insert n ((k, x) ∷ ns) h = elim (Bool-cases (str_eq k n.hostname)) [
  | inl same ↦ rw same (refl, h.1)
  | inr other ↦ rw other (h.0, IsNamed-insert n ns h.1)
]

by_host-IsNamed : (ns : List Node) (acc : Map Node) → IsNamed acc → IsNamed (by_host ns acc)
unfolding by_host
by_host-IsNamed [] acc h = h
by_host-IsNamed (n ∷ ns) acc h =
    by_host-IsNamed ns (insert n.hostname n acc) (IsNamed-insert n acc h)

-- No node has a gate.
abbrev AreBare : Map NodeDeploy → Type 0
AreBare ns = (host : String) (nd : NodeDeploy) → lookup host ns ≡ some nd → nd.gates ≡ []

fresh_nodes-AreBare :
    (now : ℕ) (ns : List Node) (acc : Map NodeDeploy)
    → AreBare acc
    → AreBare (fresh_nodes now ns acc)
unfolding fresh_nodes
fresh_nodes-AreBare now [] acc h = h
fresh_nodes-AreBare now (n ∷ ns) acc h =
    fresh_nodes-AreBare now ns (insert n.hostname (fresh_node now n) acc) λ host nd found.
      elim (lookup-insert-some n.hostname host (fresh_node now n) nd acc found) [
        | inl same ↦ ap (λ x. x.gates) (sym same)
        | inr before ↦ h host nd before
      ]

fresh_deploy-IsPoliced : (cid : String) (r : Request) (now : ℕ) → IsPoliced (fresh_deploy cid r now)
unfolding fresh_deploy
fresh_deploy-IsPoliced cid r now host nd g found c =
    let bare = fresh_nodes-AreBare now r.nodes [] (λ h x e. unfold lookup in cc) host nd found in
    absurd (ground (arith, contains-nil g))

pub end_run-Inv : (cid : String) (m : Manager) → Inv m → Inv (end_run cid m)
unfolding end_run
end_run-Inv cid m v = elim (Option-cases (lookup cid m.cancels)) [
  | inl gone ↦ rw (gone, end_run) v
  | inr (run, e) ↦ rw (e, end_run) (record { policed = v.policed; named = v.named })
]

reset_ready-Inv : (cid : String) (m : Manager) → Inv m → Inv (reset_ready cid m)
unfolding reset_ready
reset_ready-Inv cid m v = elim (Option-cases (load_set_ready cid m.store)) [
  | inl gone ↦ rw (gone, reset_ready) v
  | inr (x, e) ↦ rw (e, reset_ready) (if-Inv x.ready _ m (keep_set_ready-Inv cid _ m v) v)
]

-- The deploy that is registered, if there is one, is manual or not.
abbrev pub HasMode : String → Bool → Manager → Type 0
HasMode cid b m = (d : Deploy) → lookup cid m.deploys ≡ some d → d.manual ≡ b

put_deploy-HasMode :
    (cid : String) (b : Bool) (d : Deploy) (m : Manager)
    → d.manual ≡ b
    → HasMode cid b (put_deploy cid d m)
unfolding put_deploy
put_deploy-HasMode cid b d m h d' found =
    ground (arith, lookup-insert cid cid d m.deploys, eq_iff cid cid)

pub start_records-Inv :
    (cid : String) (r : Request) (m : Manager) → Inv m → Inv (start_records cid r m)
unfolding start_records persist
start_records-Inv cid r m v =
    let m1 : Manager = end_run cid m in
    let d : Deploy = fresh_deploy cid r m1.clock in
    let m2 : Manager = record m1 {
      nodes = insert cid (by_host r.nodes []) m1.nodes;
      deploys = insert cid d m1.deploys;
    } in
    let v1 : Inv m1 = end_run-Inv cid m v in
    let v2 : Inv m2 = record {
      policed = λ c e found is_manual. elim (lookup-insert-some cid c d e m1.deploys found) [
        | inl same ↦ subst IsPoliced same (fresh_deploy-IsPoliced cid r m1.clock)
        | inr before ↦ v1.policed c e before is_manual
      ];
      named = λ c b found. elim (lookup-insert-some cid c (by_host r.nodes []) b m1.nodes found) [
        | inl same ↦ subst IsNamed same (by_host-IsNamed r.nodes [] tt)
        | inr before ↦ v1.named c b before
      ];
    } in
    let v3 = reset_ready-Inv cid m2 v2 in record { policed = v3.policed; named = v3.named }

set_anchor-Inv : (cid host : String) (id : ℕ) (m : Manager) → Inv m → Inv (set_anchor cid host id m)
unfolding set_anchor
set_anchor-Inv cid host id m v = elim (Option-cases (lookup cid m.deploys)) [
  | inl gone ↦ rw (gone, set_anchor) v
  | inr (d, e) ↦ elim (Option-cases (lookup host d.nodes)) [
    | inl absent ↦
        rw (e, set_anchor) (rw (absent, set_anchor) (put_deploy-Inv cid d m v (v.policed cid d e)))
    | inr (nd, f) ↦
        rw (e, set_anchor) (rw (f, set_anchor) (change_node-Inv cid host d nd _ m e f refl v))
  ]
]

authorize_gates-HasMode :
    (cid : String) (targets : List Node) (stage : ℕ) (b : Bool) (m : Manager)
    → HasMode cid b m
    → HasMode cid b (authorize_gates cid targets stage m)
unfolding authorize_gates
authorize_gates-HasMode cid targets stage b m h = elim (Option-cases (lookup cid m.deploys)) [
  | inl gone ↦ rw (gone, authorize_gates) h
  | inr (d, e) ↦
      rw (e, authorize_gates)
        (put_deploy-HasMode cid b (authorize_all stage targets d) m
          (authorize_all-manual stage targets d ∙ h d e))
]

-- A grant to a deploy that is automatic.
grant-Inv :
    (cid : String) (targets : List Node) (stage : ℕ) (m : Manager)
    → Inv m × HasMode cid false m
    → Inv (authorize_gates cid targets stage m)
      × HasMode cid false (authorize_gates cid targets stage m)
grant-Inv cid targets stage m (v, h) = (
  authorize_gates-Inv cid targets stage m (λ d e is_manual. absurd (ground (arith, h d e))) v,
  authorize_gates-HasMode cid targets stage false m h,
)

-- The registered deploy is automatic, or the start is manual and grants nothing.
pub start_gates-Inv :
    (cid : String) (r : Request) (m : Manager)
    → Inv m
    → (r.manual ≡ false → HasMode cid false m)
    → Inv (start_gates cid r m)
unfolding start_gates
start_gates-Inv cid r m v h =
    if_split-Inv (m.has_gate && not r.manual) _ m
      (λ auto.
        let mode : r.manual ≡ false = ground arith in
        flush_gates-Inv cid r.nodes _
          (grant-Inv cid (named r.master r.nodes) Gate.apply _ (
            grant-Inv cid r.nodes Gate.reboot _
              (grant-Inv cid r.nodes Gate.restore m (v, h mode)))).0)
      (λ _. v)

pub abort-Inv : (cid : String) (run : ℕ) (m : Manager) → Inv m → Inv (abort cid run m)
unfolding abort
abort-Inv cid run m v = elim (Option-cases (lookup cid m.owners)) [
  | inl gone ↦ rw (gone, abort) (record { policed = v.policed; named = v.named })
  | inr (run', e) ↦
      rw (e, abort)
        (if-Inv (run' == run) _ _
          (record {
            policed = λ c d found. v.policed c d (lookup-remove-some cid c d m.deploys found);
            named = v.named;
          })
          (record { policed = v.policed; named = v.named }))
]

pub clear_node-Inv : (cid : String) (n : Node) (m : Manager) → Inv m → Inv (clear_node cid n m)
unfolding clear_node
clear_node-Inv cid n m v = if-Inv m.has_gate _ m (spawn-Inv _ m v) v

pub anchor_node-Inv :
    (cid host : String) (id : ℕ) (m : Manager) → Inv m → Inv (anchor_node cid host id m)
unfolding anchor_node
anchor_node-Inv cid host id m v = if-Inv m.has_sel _ m (set_anchor-Inv cid host id m v) v

pub start_tasks-Inv :
    (cid : String) (r : Request) (i : ℕ) (m : Manager) → Inv m → Inv (start_tasks cid r i m)
unfolding start_tasks
start_tasks-Inv cid r i m v = spawn-Inv _ m v
