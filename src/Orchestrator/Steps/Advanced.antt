-- ===== src/Orchestrator/Steps/Advanced.antt =====
-- What an operator's step means: one step at a time, and only when the fleet has done its work.
use cube_cos_driver.Base.{
  ℕ, ◌+◌, String, Bool, true, not, leb, sym, if◌then◌else◌, ◌≡◌, ◌≢◌, ◌⊎◌, ◌≤◌, Option, none, some,
  List, [], ◌∷◌, refl, ap, ◌∙◌, inl, inr, Option-cases, some_eq, arith, eq_iff,
}
use cube_cos_driver.Base.Maps.{lookup, lookup-insert}
use cube_cos_driver.Orchestrator.State.{State, is_done}
use cube_cos_driver.Orchestrator.Record.{Node, NodeDeploy, Deploy}
use cube_cos_driver.Orchestrator.Manager.{Manager, put_deploy, persist, spawn}
use cube_cos_driver.Orchestrator.Steps.{
  preflight_ready, fabric_ready, master_done, step_complete, can_advance, advance_step, stepped,
  not_manual, incomplete, Advance, enter_step,
}
use cube_cos_driver.Orchestrator.Ledger.{
  authorize_one, authorize_all, authorize_gates, flush_gates, write_gos, gate_targets, all_nodes,
  master_only, peers_only,
}
use cube_cos_driver.Orchestrator.Gate
use cube_cos_driver.Orchestrator.Step
use cube_cos_driver.Orchestrator.Policy.Deploys.{authorize_one-step}
use cube_cos_driver.Orchestrator.Steps.Held.{IsReady, preflight_ready-IsReady, all_of-lookup}

-- Where a cluster's cursor is.
abbrev pub cursor : String → Manager → Option ℕ
cursor cid m = elim (lookup cid m.deploys) [ none ↦ none | some d ↦ some d.manual_step ]

authorize_all-step :
    (stage : ℕ) (ns : List Node) (d : Deploy)
    → (authorize_all stage ns d).manual_step ≡ d.manual_step
unfolding authorize_all
authorize_all-step stage [] d = refl
authorize_all-step stage (n ∷ ns) d =
    authorize_all-step stage ns (authorize_one stage n.hostname d)
    ∙ authorize_one-step stage n.hostname d

cursor-put_deploy :
    (cid : String) (d : Deploy) (m : Manager) → cursor cid (put_deploy cid d m) ≡ some d.manual_step
unfolding put_deploy persist
cursor-put_deploy cid d m = ground (arith, lookup-insert cid cid d m.deploys, eq_iff cid cid)

cursor_at :
    (cid : String) (d : Deploy) (m : Manager)
    → lookup cid m.deploys ≡ some d
    → cursor cid m ≡ some d.manual_step
cursor_at cid d m e = ground arith

cursor-flush_gates :
    (cid c : String) (ns : List Node) (m : Manager) → cursor c (flush_gates cid ns m) ≡ cursor c m
unfolding flush_gates spawn
cursor-flush_gates cid c ns m = ground arith

cursor-authorize_gates :
    (cid : String) (ns : List Node) (stage : ℕ) (m : Manager)
    → cursor cid (authorize_gates cid ns stage m) ≡ cursor cid m
unfolding authorize_gates
cursor-authorize_gates cid ns stage m = elim (Option-cases (lookup cid m.deploys)) [
  | inl gone ↦ rw (gone, authorize_gates) refl
  | inr (d, e) ↦
      rw (e, authorize_gates)
        (cursor-put_deploy cid (authorize_all stage ns d) m
          ∙ (ap some (authorize_all-step stage ns d) ∙ sym (cursor_at cid d m e)))
]

cursor-write_gos :
    (cid : String) (ns : List Node) (stage : ℕ) (m : Manager)
    → cursor cid (write_gos cid ns stage m) ≡ cursor cid m
unfolding write_gos
cursor-write_gos cid ns stage m =
    cursor-flush_gates cid cid ns (authorize_gates cid ns stage m)
    ∙ cursor-authorize_gates cid ns stage m

-- The gates that a step writes do not move the cursor.
cursor-enter_step :
    (cid : String) (step : ℕ) (m : Manager) → cursor cid (enter_step cid step m) ≡ cursor cid m
unfolding enter_step
cursor-enter_step cid step m = ground (
  arith,
  cursor-write_gos cid (gate_targets cid all_nodes m) Gate.restore m,
  cursor-write_gos cid (gate_targets cid all_nodes m) Gate.reboot m,
  cursor-write_gos cid (gate_targets cid master_only m) Gate.apply m,
  cursor-write_gos cid (gate_targets cid peers_only m) Gate.apply m,
  cursor-write_gos cid (gate_targets cid master_only m) Gate.set_ready m,
)

-- The deploy at the next step, which is entered.
abbrev moved_by : String → Deploy → Manager → Manager
moved_by cid d m =
    enter_step cid (d.manual_step + 1)
      (put_deploy cid (record d { manual_step = d.manual_step + 1 }) m)

cursor-moved_by :
    (cid : String) (d : Deploy) (m : Manager)
    → cursor cid (moved_by cid d m) ≡ some (d.manual_step + 1)
cursor-moved_by cid d m =
    cursor-enter_step cid (d.manual_step + 1)
      (put_deploy cid (record d { manual_step = d.manual_step + 1 }) m)
    ∙ cursor-put_deploy cid (record d { manual_step = d.manual_step + 1 }) m

-- The step that is answered, and what an answer of the next step leaves.
answer_one :
    (cid : String) (m : Manager) (d : Deploy) (k : ℕ)
    → lookup cid m.deploys ≡ some d
    → d.manual_step ≤ 6
    → (advance_step cid m).0 ≡ stepped k
    → ((k ≡ 6) × (d.manual_step ≡ 6) × ((advance_step cid m).1 ≡ m))
      ⊎ ((k ≡ d.manual_step + 1) × (k ≤ 6) × (step_complete m.skew_limit d ≡ true))
unfolding advance_step can_advance
answer_one cid m d k e bound h = ground arith

-- The branches of AdvanceStep on a deploy, as clauses.
abbrev branches : Bool → Bool → Bool → ℕ → Manager → Manager → Advance × Manager
branches automatic last complete at m moved =
    if automatic
    then (not_manual, m)
    else if last
    then (stepped at, m)
    else if complete
    then (incomplete at, m)
    else (stepped (at + 1), moved)

branches_moved :
    (automatic last complete : Bool) (at k : ℕ) (m moved : Manager)
    → (branches automatic last complete at m moved).0 ≡ stepped k
    → k ≡ at + 1
    → (branches automatic last complete at m moved).1 ≡ moved
branches_moved automatic last complete at k m moved h one = ground arith

-- A deploy that is there, as a search has found it.
abbrev on_deploy : String → Manager → Option Deploy → Advance × Manager
on_deploy cid m none = (Advance.no_deploy, m)
on_deploy cid m (some d) =
    branches (not d.manual) (leb Step.set_ready d.manual_step) (not (can_advance m.skew_limit d))
      d.manual_step m (moved_by cid d m)

advance_step_branches :
    (cid : String) (m : Manager) (d : Deploy)
    → lookup cid m.deploys ≡ some d
    → advance_step cid m ≡ on_deploy cid m (some d)
unfolding advance_step
advance_step_branches cid m d e = go (lookup cid m.deploys) e
  where
    go :
        (o : Option Deploy)
        → o ≡ some d
        → (elim o [ none ↦ on_deploy cid m none | some x ↦ on_deploy cid m (some x) ])
          ≡ on_deploy cid m (some d)
    go none k = absurd (ground arith)
    go (some x) k = ap (λ y. on_deploy cid m (some y)) (some_eq k)

left_moved :
    (cid : String) (m : Manager) (d : Deploy) (k : ℕ)
    → lookup cid m.deploys ≡ some d
    → (advance_step cid m).0 ≡ stepped k
    → k ≡ d.manual_step + 1
    → (advance_step cid m).1 ≡ moved_by cid d m
unfolding advance_step
left_moved cid m d k e h one =
    let split = advance_step_branches cid m d e in
    ap (λ x. x.1) split
    ∙ branches_moved _ _ _ d.manual_step k m (moved_by cid d m) (sym (ap (λ x. x.0) split) ∙ h) one

-- An AdvanceStep that answers with a step, on a deploy whose cursor is within the six steps, has
-- either found the cursor at the last step and changed nothing, or the current step was complete and
-- the cursor of the deploy then stands exactly one step further, at the answered step and at most at
-- the last.
pub advance_step_one :
    (cid : String) (m : Manager) (d : Deploy) (k : ℕ)
    → lookup cid m.deploys ≡ some d
    → d.manual_step ≤ 6
    → (advance_step cid m).0 ≡ stepped k
    → ((k ≡ 6) × (d.manual_step ≡ 6) × ((advance_step cid m).1 ≡ m))
      ⊎ ((k ≡ d.manual_step + 1)
          × (k ≤ 6)
          × (step_complete m.skew_limit d ≡ true)
          × (cursor cid (advance_step cid m).1 ≡ some (d.manual_step + 1)))
advance_step_one cid m d k e bound h = elim (answer_one cid m d k e bound h) [
  | inl last ↦ inl last
  | inr (one, within, complete) ↦ inr (
    one,
    within,
    complete,
    ap (cursor cid) (left_moved cid m d k e h one) ∙ cursor-moved_by cid d m,
  )
]

-- An AdvanceStep that leaves the preflight step finds, for every node of the deploy, a preflight that
-- was reported and passed, with the links up and the clock inside the limit.
advance_step-IsReady :
    (cid host : String) (m : Manager) (d : Deploy) (nd : NodeDeploy)
    → lookup cid m.deploys ≡ some d
    → lookup host d.nodes ≡ some nd
    → d.manual_step ≡ 1
    → (advance_step cid m).0 ≡ stepped 2
    → IsReady m.skew_limit nd
unfolding step_complete fabric_ready
advance_step-IsReady cid host m d nd e f one h = preflight_ready-IsReady m.skew_limit nd (
    ground (
      arith,
      advance_step_one cid m d 2,
      all_of-lookup (λ x. preflight_ready m.skew_limit x.installer_preflight) host d.nodes nd,
    ))

-- An AdvanceStep that lets the peers apply finds the master done.
advance_step-master_done :
    (cid : String) (m : Manager) (d : Deploy) (nd : NodeDeploy)
    → lookup cid m.deploys ≡ some d
    → d.master ≢ ""
    → lookup d.master d.nodes ≡ some nd
    → d.manual_step ≡ 4
    → (advance_step cid m).0 ≡ stepped 5
    → nd.state ≡ State.done
unfolding step_complete master_done is_done
advance_step-master_done cid m d nd e named f four h =
    ground (arith, advance_step_one cid m d 5, eq_iff d.master "")
