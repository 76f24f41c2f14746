-- ===== src/Orchestrator/Policy/Runs.antt =====
-- No gate is granted before the operator's step, over every sequence of events.
use cube_cos_driver.Base.{
  ℕ, String, Bool, true, false, not, ◌&&◌, ◌||◌, &&-true, List, [], ◌∷◌, ◌≡◌, none, some, contains,
  arith,
}
use cube_cos_driver.Base.Maps.{lookup}
use cube_cos_driver.Orchestrator.Record.{NodeDeploy, Deploy}
use cube_cos_driver.Orchestrator.Manager.{Manager, Store}
use cube_cos_driver.Orchestrator.Events.{
  Event, opens, wipes, anchors, grants, aborts, boots, cancels, steps_on, asks_green_light,
  checks_in, rekicks, advances, fails, reports_preflight, fails_preflight, preflights, restores,
  starts_apply, waits_for_master, fails_apply, reports, applies, merges, acks, reconciles, verifies,
  submits, asks_set_ready, marks_ready, ticks, step, run, new_manager,
}
use cube_cos_driver.Orchestrator.Policy.{allowed}
use cube_cos_driver.Orchestrator.Policy.Managers.{Inv}
use cube_cos_driver.Orchestrator.Policy.Grants.{
  advance-Inv, fail-Inv, preflight_report-Inv, preflight_fail-Inv, preflight_progress-Inv,
  restore_done-Inv, apply_started-Inv, wait_for_master-Inv, apply_failed-Inv, ack_gates-Inv,
  reconcile_gates-Inv,
}
use cube_cos_driver.Orchestrator.Policy.Barriers.{
  keep_set_ready-Inv, get_set_ready-Inv, mark_ready-Inv, verified-Inv, applied-Inv, report-Inv,
  merge_sel-Inv,
}
use cube_cos_driver.Orchestrator.Policy.Stepping.{
  rekick_preflight-Inv, check_in-Inv, green_light1-Inv, advance_step-Inv,
}
use cube_cos_driver.Orchestrator.Policy.Launches.{
  HasMode, start_records-Inv, clear_node-Inv, anchor_node-Inv, start_gates-Inv, abort-Inv,
  start_tasks-Inv,
}
use cube_cos_driver.Orchestrator.Policy.Cancels.{cancel-Inv}
use cube_cos_driver.Orchestrator.Ready.{submit_set_ready}

-- The deploy that is registered for a cluster is manual.
abbrev pub is_manual : String → Manager → Bool
is_manual cid m = elim (lookup cid m.deploys) [ none ↦ false | some d ↦ d.manual ]

-- The event does not grant the gates of an automatic start to a manual deploy.
abbrev pub is_own : Event → Manager → Bool
is_own (grants cid r) m = r.manual || not (is_manual cid m)
is_own _ m = true

-- No event of the run does: no automatic start is overtaken by a manual one of its cluster before it
-- grants its gates.
unfoldable pub all_own : List Event → Manager → Bool
all_own [] m = true
all_own (e ∷ es) m = is_own e m && all_own es (step e m)

own-HasMode :
    (cid : String) (manual : Bool) (m : Manager)
    → (manual || not (is_manual cid m)) ≡ true
    → manual ≡ false
    → HasMode cid false m
own-HasMode cid manual m own auto d found = ground arith

pub step-Inv : (e : Event) (m : Manager) → is_own e m ≡ true → Inv m → Inv (step e m)
unfolding step
step-Inv (opens cid r) m own v = start_records-Inv cid r m v
step-Inv (wipes cid n) m own v = clear_node-Inv cid n m v
step-Inv (anchors cid host id) m own v = anchor_node-Inv cid host id m v
step-Inv (grants cid r) m own v = start_gates-Inv cid r m v (own-HasMode cid r.manual m own)
step-Inv (aborts cid i) m own v = abort-Inv cid i m v
step-Inv (boots cid r i) m own v = start_tasks-Inv cid r i m v
step-Inv (cancels cid) m own v = cancel-Inv cid m v
step-Inv (steps_on cid) m own v = advance_step-Inv cid m v
step-Inv (asks_green_light cid host) m own v = green_light1-Inv cid host m v
step-Inv (checks_in cid host) m own v = check_in-Inv cid host m v
step-Inv (rekicks cid host) m own v = rekick_preflight-Inv cid host m v
step-Inv (advances cid host s) m own v = advance-Inv cid host s m v
step-Inv (fails cid host code msg) m own v = fail-Inv cid host code msg m v
step-Inv (reports_preflight cid host pf) m own v = preflight_report-Inv cid host pf m v
step-Inv (fails_preflight cid host code msg) m own v = preflight_fail-Inv cid host code msg m v
step-Inv (preflights cid host) m own v = preflight_progress-Inv cid host m v
step-Inv (restores cid host) m own v = restore_done-Inv cid host m v
step-Inv (starts_apply cid host proceed) m own v = apply_started-Inv cid host proceed m v
step-Inv (waits_for_master cid host) m own v = wait_for_master-Inv cid host m v
step-Inv (fails_apply cid host msg) m own v = apply_failed-Inv cid host msg m v
step-Inv (reports cid host s msg pf) m own v = report-Inv cid host s msg pf m v
step-Inv (applies cid host) m own v = applied-Inv cid host m v
step-Inv (merges cid host s) m own v = merge_sel-Inv cid host s m v
step-Inv (acks cid host stages failed) m own v = ack_gates-Inv cid host stages failed m v
step-Inv (reconciles failed cid) m own v = reconcile_gates-Inv failed cid m v
step-Inv (verifies cid results) m own v = verified-Inv cid results m v
step-Inv (submits cid x) m own v = unfold submit_set_ready in keep_set_ready-Inv cid _ m v
step-Inv (asks_set_ready cid) m own v = get_set_ready-Inv cid m v
step-Inv (marks_ready cid ok msg) m own v = mark_ready-Inv cid ok msg m v
step-Inv (ticks now) m own v = record { policed = v.policed; named = v.named }

run-Inv : (es : List Event) (m : Manager) → all_own es m ≡ true → Inv m → Inv (run es m)
unfolding run all_own
run-Inv [] m own v = v
run-Inv (e ∷ es) m own v =
    let (first, rest) = &&-true _ _ own in run-Inv es (step e m) rest (step-Inv e m first v)

new_manager-Inv :
    (st : Store) (limit : ℕ) (gate sel pxe manual_gate : Bool)
    → Inv (new_manager st limit gate sel pxe manual_gate)
unfolding new_manager lookup
new_manager-Inv st limit gate sel pxe manual_gate = record {
  policed = λ c d found. absurd (ground arith);
  named = λ c b found. absurd (ground arith);
}

-- From a new manager, after any events but an operator's release of a single node, in any order, the
-- parts of different starts among each other included, as long as no automatic start grants its gates
-- to a manual deploy that has taken its cluster over: a gate in the ledger of a node of a manual deploy
-- is one that the operator's step allows. Restore needs step 2, reboot step 3, apply step 4 on the
-- master and step 5 on a peer, and set-ready step 6 and the master.
pub run_gates-allowed :
    (st : Store) (limit : ℕ) (gate sel pxe manual_gate : Bool) (es : List Event) (cid host : String)
    (d : Deploy) (nd : NodeDeploy) (g : ℕ)
    → all_own es (new_manager st limit gate sel pxe manual_gate) ≡ true
    → lookup cid (run es (new_manager st limit gate sel pxe manual_gate)).deploys ≡ some d
    → d.manual ≡ true
    → lookup host d.nodes ≡ some nd
    → contains nd.gates g ≡ true
    → allowed d host g ≡ true
run_gates-allowed st limit gate sel pxe manual_gate es cid host d nd g own found manual there
      granted =
    (run-Inv es _ own (new_manager-Inv st limit gate sel pxe manual_gate)).policed cid d found
      manual host nd g there granted
