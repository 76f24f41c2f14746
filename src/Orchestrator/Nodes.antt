-- ===== src/Orchestrator/Nodes.antt =====
-- internal/orchestrator/manager.go and sel.go: what each report or event does to the record of one
-- node. These are the closures that the manager runs under its lock.
pub mod Forward
pub mod Codes
use cube_cos_driver.Base.{
  ℕ, suc, ◌+◌, String, Bool, true, false, ◌&&◌, ◌||◌, not, List, [], ◌∷◌, Option, none, some, ◌==◌,
  if◌then◌else◌, ℤ, pos, negsuc, lt_int, le_int, neg, ◌++◌, str_eq, contains, map, ◌%◌,
}
use Prim.Native.String.{◌++◌ as text_append}
use cube_cos_driver.Orchestrator.State.{
  State, pending, bmc_preflight, set_boot_pxe, power_cycle, netbooting, preflighting, preflight_ok,
  restoring, rebooting, imaging, imaged, checked_in, net_preflight, waiting, applying, applied,
  done, error, other, agent_driven, is_done, is_error, state_rank, terminal,
}
use cube_cos_driver.Orchestrator.Record.{ErrCode, PreflightResult, NodePreflight, NodeDeploy}
use cube_cos_driver.Orchestrator.Code
use cube_cos_driver.Orchestrator.Gate

-- A node that the agent drives is left alone by the orchestrator.
unfoldable pub advance_node : State → NodeDeploy → NodeDeploy
unfolding agent_driven
advance_node s nd = if agent_driven nd.state then nd else record nd { state = s }

unfoldable pub fail_node : ErrCode → String → NodeDeploy → NodeDeploy
unfolding agent_driven
fail_node code msg nd =
    if agent_driven nd.state
    then nd
    else record nd { state = error; err_code = code; message = msg }

-- The skew lies outside the limit on either side.
unfoldable pub skewed : ℕ → ℤ → Bool
skewed limit skew = lt_int (pos limit) skew || lt_int skew (neg limit)

-- Some target of the matrix did not answer.
unfoldable pub ping_failed : List PreflightResult → Bool
ping_failed [] = false
ping_failed (r ∷ rs) = not r.ok || ping_failed rs

-- The code that says why green light 1 is withheld.
unfoldable pub preflight_code : ℕ → NodePreflight → ErrCode
unfolding skewed ping_failed
preflight_code limit pf =
    if pf.passed
    then ""
    else if not pf.carrier_ok
    then Code.pf_carrier
    else if skewed limit pf.clock_skew
    then Code.pf_skew
    else if ping_failed pf.matrix
    then Code.pf_ping
    else ""

unfoldable pub preflight_report_node : ErrCode → NodePreflight → NodeDeploy → NodeDeploy
preflight_report_node code pf nd =
    if pf.passed
    then record nd {
      installer_preflight = some pf;
      state = preflight_ok;
      err_code = "";
      message = "";
    }
    else record nd { installer_preflight = some pf; state = preflighting; err_code = code }

-- `PreflightFail` and `ApplyFailed`.
unfoldable pub terminal_fail_node : ErrCode → String → NodeDeploy → NodeDeploy
terminal_fail_node code msg nd = record nd { state = error; err_code = code; message = msg }

unfoldable pub progress_starts : State → Bool
progress_starts netbooting = true
progress_starts imaged = true
progress_starts (other s) = str_eq s ""
progress_starts _ = false

unfoldable pub preflight_progress_node : NodeDeploy → NodeDeploy
unfolding progress_starts
preflight_progress_node nd =
    if progress_starts nd.state then record nd { state = preflighting } else nd

unfoldable pub restore_done_node : NodeDeploy → NodeDeploy
unfolding state_rank
restore_done_node nd =
    let r = state_rank nd.state in
    if le_int (state_rank preflight_ok) r && lt_int r (state_rank rebooting)
    then record nd { state = rebooting; message = "" }
    else nd

unfoldable pub may_start_apply : State → Bool
may_start_apply rebooting = true
may_start_apply waiting = true
may_start_apply checked_in = true
may_start_apply _ = false

unfoldable pub apply_started_node : Bool → NodeDeploy → NodeDeploy
unfolding may_start_apply
apply_started_node proceed nd =
    if may_start_apply nd.state
    then record nd { state = if proceed then applying else waiting }
    else nd

unfoldable pub may_wait : State → Bool
may_wait rebooting = true
may_wait checked_in = true
may_wait _ = false

unfoldable pub wait_for_master_node : NodeDeploy → NodeDeploy
unfolding may_wait
wait_for_master_node nd = if may_wait nd.state then record nd { state = waiting } else nd

unfoldable pub applied_node : NodeDeploy → NodeDeploy
applied_node nd = record nd { state = done }

-- `Report`: the agent's word is taken as it is; no preflight list keeps the one that is there.
unfoldable pub report_node :
    State → String → Option (List PreflightResult) → NodeDeploy → NodeDeploy
report_node s msg pf nd = record nd {
  state = s;
  message = msg;
  preflight = elim pf [ none ↦ nd.preflight | some rs ↦ rs ];
}

-- `MergeSEL` on one node.
unfoldable pub merge_node : State → String → NodeDeploy → NodeDeploy
unfolding is_done is_error state_rank
merge_node target detail nd =
    if is_done nd.state
    then nd
    else if is_error target
    then (if is_error nd.state then nd else record nd {
      state = error;
      err_code = Code.apply_failed;
      message = text_append "out-of-band: " detail;
    })
    else if lt_int (state_rank nd.state) (state_rank target)
    then record nd { state = target }
    else nd

-- Whether that merge brought the node to done.
unfoldable pub merge_became_done : State → NodeDeploy → Bool
unfolding is_done state_rank
merge_became_done target nd =
    not (is_done nd.state) && (is_done target && lt_int (state_rank nd.state) (state_rank target))

unfoldable pub cancel_node : ℕ → NodeDeploy → NodeDeploy
unfolding terminal
cancel_node now nd = if terminal nd.state then nd else record nd {
  state = error;
  err_code = Code.cancelled;
  message = "deploy cancelled by operator";
  updated_at = now;
}

unfoldable pub may_check_in : State → Bool
may_check_in restoring = true
may_check_in rebooting = true
may_check_in netbooting = true
may_check_in imaging = true
may_check_in imaged = true
may_check_in waiting = true
may_check_in checked_in = true
may_check_in _ = false

unfoldable pub check_in_node : Bool → ℕ → NodeDeploy → NodeDeploy
check_in_node hold now nd = record nd {
  state = if hold then waiting else checked_in;
  updated_at = now;
}

-- The preflight phase, in which a node may be asked to redo its preflight.
unfoldable pub may_rekick : State → Bool
may_rekick netbooting = true
may_rekick preflighting = true
may_rekick preflight_ok = true
may_rekick _ = false

abbrev pub unpass : Option NodePreflight → Option NodePreflight
unpass none = none
unpass (some pf) = some (record pf { passed = false })

unfoldable pub rekick_node : ℕ → NodeDeploy → NodeDeploy
rekick_node now nd = record nd {
  rekick_seq = nd.rekick_seq + 1;
  installer_preflight = unpass nd.installer_preflight;
  state = preflighting;
  message = "preflight re-run requested";
  updated_at = now;
}

unfoldable pub may_restore : State → Bool
may_restore preflight_ok = true
may_restore preflighting = true
may_restore _ = false

-- The restore gate is confirmed on the BMC, or there is no gate writer and so no gate.
unfoldable pub restore_confirmed : Bool → NodeDeploy → Bool
restore_confirmed has_gate nd = not has_gate || contains nd.gate_ack Gate.restore

unfoldable pub green_light_node : Bool → ℕ → NodeDeploy → NodeDeploy
unfolding restore_confirmed
green_light_node has_gate now nd =
    if restore_confirmed has_gate nd
    then record nd { state = restoring; message = ""; updated_at = now }
    else record nd {
      state = preflight_ok;
      message = "preflight passed — waiting for the restore gate on the BMC";
      updated_at = now;
    }

-- `byte(g)` of each gate of a ledger.
unfoldable pub gate_bytes : List ℕ → List ℕ
gate_bytes gates = map (λ g. g % 256) gates

-- `ackGates`: a failed write keeps the stages that were confirmed before.
unfoldable pub ack_node : List ℕ → Bool → NodeDeploy → NodeDeploy
ack_node stages failed nd = if failed then nd else record nd { gate_ack = stages }

-- Puts a stage in the ledger, once.
unfoldable pub authorize_node : ℕ → NodeDeploy → NodeDeploy
authorize_node stage nd =
    if contains nd.gates stage then nd else record nd { gates = nd.gates ++ stage ∷ [] }

abbrev pub is_empty : List ℕ → Bool
is_empty [] = true
is_empty (_ ∷ _) = false

-- Some stage of a ledger is not confirmed.
unfoldable pub unconfirmed : List ℕ → List ℕ → Bool
unconfirmed [] ack = false
unconfirmed (g ∷ gs) ack = not (contains ack g) || unconfirmed gs ack

unfoldable pub gates_at_risk : Bool → NodeDeploy → Bool
unfolding is_error is_done unconfirmed
gates_at_risk set_ready_done nd =
    if is_empty nd.gates || is_error nd.state
    then false
    else if not (is_done nd.state)
    then true
    else if unconfirmed nd.gates nd.gate_ack
    then true
    else contains nd.gates Gate.set_ready && not set_ready_done
