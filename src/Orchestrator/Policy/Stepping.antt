-- ===== src/Orchestrator/Policy/Stepping.antt =====
-- The barriers and the operator's steps keep the invariant.
use cube_cos_driver.Base.{
  ℕ, ◌+◌, String, true, not, ◌≡◌, refl, ◌==◌, leb, some, arith, Option-cases, Bool-cases, inl, inr,
  ◌∙◌, sym, subst, eq_refl, some_eq,
}
use cube_cos_driver.Base.Maps.{lookup, lookup-insert}
use cube_cos_driver.Orchestrator.Record.{Node, NodeDeploy, Deploy}
use cube_cos_driver.Orchestrator.Step
use cube_cos_driver.Orchestrator.Gate
use cube_cos_driver.Orchestrator.Nodes.{
  rekick_node, check_in_node, green_light_node, may_rekick, may_check_in, may_restore,
}
use cube_cos_driver.Orchestrator.Manager.{Manager, put_node, put_deploy}
use cube_cos_driver.Orchestrator.Ledger.{
  write_gos, gate_targets, all_nodes, master_only, peers_only, selects, Which,
}
use cube_cos_driver.Orchestrator.Steps.{
  advance_step, can_advance, enter_step, green_light1, fabric_ready, preflight_held, check_in,
  rekick_preflight,
}
use cube_cos_driver.Orchestrator.Policy.{allowed}
use cube_cos_driver.Orchestrator.Policy.Deploys.{same_gates-IsPoliced, next_step-IsPoliced}
use cube_cos_driver.Orchestrator.Policy.Managers.{
  Inv, put_deploy-Inv, write_gos-Inv, if-Inv, if_split-Inv, if_pair-Inv, All-gate_targets,
}

-- A change of one node that keeps its gates, written into the deploy at hand.
pub change_node-Inv :
    (cid host : String) (d : Deploy) (nd nd' : NodeDeploy) (m : Manager)
    → lookup cid m.deploys ≡ some d
    → lookup host d.nodes ≡ some nd
    → nd'.gates ≡ nd.gates
    → Inv m
    → Inv (put_deploy cid (put_node host nd' d) m)
unfolding put_node
change_node-Inv cid host d nd nd' m e f same v =
    put_deploy-Inv cid (put_node host nd' d) m v
      λ is_manual. same_gates-IsPoliced host nd nd' d f same (v.policed cid d e is_manual)

pub rekick_preflight-Inv :
    (cid host : String) (m : Manager) → Inv m → Inv (rekick_preflight cid host m).1
unfolding rekick_preflight
rekick_preflight-Inv cid host m v = elim (Option-cases (lookup cid m.deploys)) [
  | inl gone ↦ rw (gone, rekick_preflight) v
  | inr (d, e) ↦ elim (Option-cases (lookup host d.nodes)) [
    | inl absent ↦ rw (e, rekick_preflight) (rw (absent, rekick_preflight) v)
    | inr (nd, f) ↦ elim (Bool-cases (may_rekick nd.state)) [
      | inl may ↦
          rw (e, rekick_preflight)
            (rw (f, rekick_preflight)
              (rw may (
                change_node-Inv cid host d nd (rekick_node m.clock nd) m e f
                  (unfold rekick_node in refl) v)))
      | inr late ↦ rw (e, rekick_preflight) (rw (f, rekick_preflight) (rw late v))
    ]
  ]
]

-- A barrier that may change one node and answers.
pub check_in-Inv : (cid host : String) (m : Manager) → Inv m → Inv (check_in cid host m).1
unfolding check_in
check_in-Inv cid host m v = elim (Option-cases (lookup cid m.deploys)) [
  | inl gone ↦ rw (gone, check_in) v
  | inr (d, e) ↦ elim (Option-cases (lookup host d.nodes)) [
    | inl absent ↦ rw (e, check_in) (rw (absent, check_in) v)
    | inr (nd, f) ↦
        rw (e, check_in)
          (rw (f, check_in)
            (if-Inv (may_check_in nd.state) _ m
              (change_node-Inv cid host d nd (check_in_node _ m.clock nd) m e f
                (unfold check_in_node in refl) v)
              v))
  ]
]

pub green_light1-Inv : (cid host : String) (m : Manager) → Inv m → Inv (green_light1 cid host m).1
unfolding green_light1
green_light1-Inv cid host m v = elim (Option-cases (lookup cid m.deploys)) [
  | inl gone ↦ rw (gone, green_light1) v
  | inr (d, e) ↦ elim (Bool-cases (preflight_held d)) [
    | inl held ↦ rw (e, held, green_light1) v
    | inr free ↦ elim (Bool-cases (fabric_ready m.skew_limit d)) [
      | inr red ↦ rw (e, free, red, green_light1) v
      | inl ready ↦
          rw (e, free, ready, green_light1)
            (elim (Option-cases (lookup host d.nodes)) [
              | inl absent ↦ rw absent v
              | inr (nd, f) ↦ rw f (
                  if-Inv (may_restore nd.state) _ m
                    (change_node-Inv cid host d nd (green_light_node m.has_gate m.clock nd) m e f
                      (unfold green_light_node in ground arith) v)
                    v)
            ])
    ]
  ]
]

-- Entering a step grants what the step allows.
pub enter_step-Inv :
    (cid : String) (d : Deploy) (m : Manager)
    → lookup cid m.deploys ≡ some d
    → Inv m
    → Inv (enter_step cid d.manual_step m)
unfolding enter_step
enter_step-Inv cid d m e v =
    if_split-Inv (d.manual_step == Step.restore) _ _
      (λ at. grant all_nodes Gate.restore (λ n chosen. ground arith))
      λ not1.
        if_split-Inv (d.manual_step == Step.reboot) _ _
          (λ at. grant all_nodes Gate.reboot (λ n chosen. ground arith))
          λ not2.
            if_split-Inv (d.manual_step == Step.apply_master) _ _
              (λ at. grant master_only Gate.apply (λ n chosen. unfold selects in ground arith))
              λ not3.
                if_split-Inv (d.manual_step == Step.apply_rest) _ _
                  (λ at. grant peers_only Gate.apply (λ n chosen. unfold selects in ground arith))
                  λ not4.
                    if_split-Inv (d.manual_step == Step.set_ready) _ m
                      (λ at.
                        grant master_only Gate.set_ready
                          (λ n chosen. unfold selects in ground arith))
                      λ not5. v
  where
    grant :
        (which : Which) (stage : ℕ)
        → ((n : Node)
            → selects which d.master n.hostname ≡ true
            → allowed d n.hostname stage ≡ true)
        → Inv (write_gos cid (gate_targets cid which m) stage m)
    grant which stage may =
        write_gos-Inv cid (gate_targets cid which m) stage m
          (λ d' e' is_manual.
            All-gate_targets cid which m d' (λ n. allowed d' n.hostname stage ≡ true) e' v
              (λ n chosen.
                subst
                  (λ x.
                    selects which x.master n.hostname ≡ true → allowed x n.hostname stage ≡ true)
                  (some_eq (sym e ∙ e')) (may n) chosen))
          v

pub advance_step-Inv : (cid : String) (m : Manager) → Inv m → Inv (advance_step cid m).1
unfolding advance_step
advance_step-Inv cid m v = elim (Option-cases (lookup cid m.deploys)) [
  | inl gone ↦ rw (gone, advance_step) v
  | inr (d, e) ↦
      let d' : Deploy = record d { manual_step = d.manual_step + 1 } in
      rw (e, advance_step)
        (if_pair-Inv (not d.manual) _ _ (λ auto. v)
          λ manual.
            if_pair-Inv (leb Step.set_ready d.manual_step) _ _ (λ last. v)
              λ not_last.
                if_pair-Inv (not (can_advance m.skew_limit d)) _ _ (λ early. v)
                  λ due.
                    enter_step-Inv cid d' (put_deploy cid d' m)
                      (unfold put_deploy in rw (lookup-insert cid cid d' m.deploys, eq_refl cid))
                      (put_deploy-Inv cid d' m v
                        λ is_manual. next_step-IsPoliced d (v.policed cid d e is_manual)))
]
