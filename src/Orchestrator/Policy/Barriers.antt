-- ===== src/Orchestrator/Policy/Barriers.antt =====
-- The operations that grant gates, and those that go with them, keep the invariant.
use cube_cos_driver.Base.{
  ℕ, String, Bool, false, ◌||◌, not, ◌≡◌, refl, str_eq, some, List, arith, Option, Option-cases,
  Bool-cases, inl, inr, keep,
}
use cube_cos_driver.Base.Maps.{lookup}
use cube_cos_driver.Orchestrator.State.{State, is_done}
use cube_cos_driver.Orchestrator.Record.{Node, Deploy, SetReadyInput, PreflightResult}
use cube_cos_driver.Orchestrator.Gate
use cube_cos_driver.Orchestrator.Sel.{SelStatus, sel_state}
use cube_cos_driver.Orchestrator.Nodes.{applied_node, report_node, merge_node}
use cube_cos_driver.Orchestrator.Manager.{load_set_ready, master_of, Manager, set_node, node_of}
use cube_cos_driver.Orchestrator.Ledger.{
  write_gos, gate_targets, master_only, peers_only, selects, values, hosts_of,
}
use cube_cos_driver.Orchestrator.Ready.{
  keep_set_ready, get_set_ready, mark_ready, maybe_auto_set_ready, all_nodes_applied, stamp_ready,
}
use cube_cos_driver.Orchestrator.Reports.{
  verified, report, applied, merge_sel, merge_state, maybe_verify_cluster, release_peers,
  after_done, became_done, is_ready_phase,
}
use cube_cos_driver.Orchestrator.Policy.Managers.{
  Inv, if_split-Inv, put_deploy-Inv, set_node-Inv, spawn-Inv, write_gos-Inv, if-Inv,
}

pub keep_set_ready-Inv :
    (cid : String) (x : SetReadyInput) (m : Manager) → Inv m → Inv (keep_set_ready cid x m)
unfolding keep_set_ready
keep_set_ready-Inv cid x m v = record { policed = v.policed; named = v.named }

pub get_set_ready-Inv : (cid : String) (m : Manager) → Inv m → Inv (get_set_ready cid m).1
unfolding get_set_ready
get_set_ready-Inv cid m v = elim (Option-cases (lookup cid m.set_ready)) [
  | inr (x, e) ↦ rw (e, get_set_ready) v
  | inl gone ↦ elim (Option-cases (load_set_ready cid m.store)) [
    | inl nowhere ↦ rw (gone, nowhere, get_set_ready) v
    | inr (x, e) ↦ rw (gone, e, get_set_ready) (record { policed = v.policed; named = v.named })
  ]
]

stamp_ready-Inv : (cid : String) (ok : Bool) (m : Manager) → Inv m → Inv (stamp_ready cid ok m)
unfolding stamp_ready
stamp_ready-Inv cid ok m v = elim (Option-cases (lookup cid m.deploys)) [
  | inl gone ↦ rw (gone, stamp_ready) v
  | inr (d, e) ↦ rw (e, stamp_ready) (put_deploy-Inv cid _ m v (v.policed cid d e))
]

pub mark_ready-Inv :
    (cid : String) (ok : Bool) (msg : String) (m : Manager) → Inv m → Inv (mark_ready cid ok msg m)
unfolding mark_ready
mark_ready-Inv cid ok msg m v =
    keep_set_ready-Inv cid _ (stamp_ready cid ok m) (stamp_ready-Inv cid ok m v)

pub verified-Inv :
    (cid : String) (results : List PreflightResult) (m : Manager)
    → Inv m
    → Inv (verified cid results m)
unfolding verified
verified-Inv cid results m v = elim (Option-cases (lookup cid m.deploys)) [
  | inl gone ↦ rw (gone, verified) v
  | inr (d, e) ↦ rw (e, verified) (put_deploy-Inv cid _ m v (v.policed cid d e))
]

pub maybe_verify_cluster-Inv :
    (cid : String) (m : Manager) → Inv m → Inv (maybe_verify_cluster cid m)
unfolding maybe_verify_cluster
maybe_verify_cluster-Inv cid m v = elim (Option-cases (lookup cid m.deploys)) [
  | inl gone ↦ rw (gone, maybe_verify_cluster) v
  | inr (d, e) ↦
      rw (e, maybe_verify_cluster) (if-Inv d.cluster_ready m _ v (if-Inv _ _ m (spawn-Inv _ m v) v))
]

-- A grant to a deploy that is not manual.
automatic-Inv :
    (cid : String) (targets : List Node) (stage : ℕ) (m : Manager) (d : Deploy)
    → lookup cid m.deploys ≡ some d
    → d.manual ≡ false
    → Inv m
    → Inv (write_gos cid targets stage m)
automatic-Inv cid targets stage m d e auto v =
    write_gos-Inv cid targets stage m (λ d' e' is_manual. absurd (ground arith)) v

pub maybe_auto_set_ready-Inv :
    (cid : String) (m : Manager) → Inv m → Inv (maybe_auto_set_ready cid m)
unfolding maybe_auto_set_ready
maybe_auto_set_ready-Inv cid m v = elim (Option-cases (lookup cid m.deploys)) [
  | inl gone ↦ rw (gone, maybe_auto_set_ready) v
  | inr (d, e) ↦ elim (Bool-cases (d.manual || not (all_nodes_applied cid m))) [
    | inl held ↦ rw (e, held, maybe_auto_set_ready) v
    | inr free ↦
        rw (e, free, maybe_auto_set_ready)
          (automatic-Inv cid (gate_targets cid master_only m) Gate.set_ready m d e (ground arith) v)
  ]
]

pub release_peers-Inv : (cid host : String) (m : Manager) → Inv m → Inv (release_peers cid host m)
unfolding release_peers
release_peers-Inv cid host m v = elim (Option-cases (lookup cid m.deploys)) [
  | inl gone ↦ rw (gone, release_peers) v
  | inr (d, e) ↦
      rw (e, release_peers)
        (if-Inv (not (str_eq d.master host)) m _ v (
          if_split-Inv (m.manual_gate || d.manual) m _ (λ held. v)
            λ free.
              automatic-Inv cid
                (values (keep (λ kv. selects peers_only d.master kv.0) (hosts_of cid m))) Gate.apply
                m d e (ground arith) v))
]

pub applied-Inv : (cid host : String) (m : Manager) → Inv m → Inv (applied cid host m)
unfolding applied
applied-Inv cid host m v = maybe_auto_set_ready-Inv cid _ (
    release_peers-Inv cid host _
      (set_node-Inv cid host applied_node m (λ nd. unfold applied_node in refl) v))

pub report-Inv :
    (cid host : String) (s : State) (msg : String) (pf : Option (List PreflightResult))
    (m : Manager)
    → Inv m
    → Inv (report cid host s msg pf m)
unfolding report
report-Inv cid host s msg pf m v =
    let m' = set_node cid host (report_node s msg pf) m in
    let moved : Inv m' =
      set_node-Inv cid host (report_node s msg pf) m (λ nd. unfold report_node in refl) v in
    if-Inv (is_done s) (maybe_verify_cluster cid m') m' (maybe_verify_cluster-Inv cid m' moved)
      moved

pub merge_state-Inv :
    (cid host : String) (target : State) (detail : String) (m : Manager)
    → Inv m
    → Inv (merge_state cid host target detail m)
unfolding merge_state after_done
merge_state-Inv cid host target detail m v =
    let m' = set_node cid host (merge_node target detail) m in
    let moved : Inv m' =
      set_node-Inv cid host (merge_node target detail) m (λ nd. unfold merge_node in ground arith)
        v in
    if-Inv (became_done target (node_of cid host m)) (after_done cid host m') m'
      (release_peers-Inv cid host _
        (maybe_auto_set_ready-Inv cid _ (maybe_verify_cluster-Inv cid m' moved)))
      moved

pub merge_sel-Inv :
    (cid host : String) (s : SelStatus) (m : Manager) → Inv m → Inv (merge_sel cid host s m)
unfolding merge_sel
merge_sel-Inv cid host s m v =
    if-Inv (is_ready_phase s.phase) _ _
      (if-Inv (str_eq host (master_of cid m)) _ m (mark_ready-Inv cid _ s.detail m v) v)
      (elim (Option-cases (sel_state s)) [
        | inl nothing ↦ rw nothing v
        | inr (target, e) ↦ rw e (merge_state-Inv cid host target s.detail m v)
      ])
