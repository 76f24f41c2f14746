-- ===== src/Enterprise/Manager/Calls.antt =====
-- internal/enterprise/manager.go: the calls of the manager, each as its parts under the lock. Between two
-- parts of a call other calls may run.
use Prim.Native.String.{String}
use cube_cos_driver.Base.{
  ℕ, suc, leb, Bool, true, false, not, ◌&&◌, ◌||◌, List, [], ◌∷◌, map, length, Option, none, some,
  if◌then◌else◌, Map,
}
use cube_cos_driver.Base.Maps.{lookup, insert, remove}
use cube_cos_driver.Enterprise.Records.{
  Module, pending, running, done, cancelled, Op, InstallParams, Step, Install, PlannedStep,
}
use cube_cos_driver.Enterprise.Manager.{
  Manager, key, put, save, commit, terminate, cleanup, rollback, is_running,
}

-- What `launch` is given.
pub record Request : Type 0 where
  pub cluster_id : String
  pub module_of : Module
  pub vip : String
  pub params : InstallParams
  pub manual : Bool
  pub airgap : Bool
  pub lab : Bool
  pub warnings : List String
  pub manifest : String
  pub op : Op

unfoldable pub new_install : Request → ℕ → Install
new_install q now = record {
  cluster_id = q.cluster_id;
  module_of = q.module_of;
  op = q.op;
  host = q.vip;
  started_at = now;
  manual = q.manual;
  manual_step = 0;
  simulate_airgap = q.airgap;
  params = q.params;
  steps = [];
  current = 0;
  state = running;
  portal = "";
  warnings = q.warnings;
  manifest = q.manifest;
  lab = q.lab;
}

unfoldable pub planned : PlannedStep → Step
planned ps = record {
  name = ps.name;
  title = ps.title;
  state = pending;
  output = "";
  err = "";
  started_at = none;
  finished_at = none;
}

-- The key has a run that goes on.
unfoldable pub is_taken : String → Manager → Bool
is_taken k m = elim (lookup k m.installs) [ none ↦ false | some r ↦ is_running (m.heap r).state ]

-- The first part of `launch`: the key is taken for a new run, or the call is refused.
unfoldable pub reserve : Request → ℕ → Manager → Manager × Option ℕ
unfolding is_taken new_install
reserve q now m =
    let k = key q.cluster_id q.module_of in
    if is_taken k m then (m, none) else (
      record (put m.fresh (new_install q now) m) {
        fresh = suc m.fresh;
        installs = insert k m.fresh m.installs;
      },
      some m.fresh,
    )

-- What becomes of a manual call to go on: an answer, or the step that it takes.
pub data Turn : Type 0 where
  answered : Bool → Turn
  claimed : ℕ → List PlannedStep → ℕ → Turn

module _ (writes : Install → Bool) where
  -- The second part of `launch`, with a connection and the plan: the run is set up and saved, and goes on
  -- by itself unless it is manual. A run that cannot be saved is taken back.
  unfoldable pub set_up : String → ℕ → List PlannedStep → Manager → Manager × Bool
  unfolding planned
  set_up k r plan m =
      let in_ = record (m.heap r) { steps = map planned plan } in
      let m' = record (put r in_ m) {
        clients = insert k r m.clients;
        plans = insert k plan m.plans;
      } in
      if not (writes in_) then (rollback k r true m', false) else (
        record m' {
          files = save writes in_ m'.files;
          cancels = if in_.manual then m'.cancels else insert k r m'.cancels;
        },
        true,
      )

  -- `launch` of a reserved run; `dial` says whether the connection was made.
  unfoldable pub launch : Request → ℕ → Bool → List PlannedStep → Manager → Manager × Bool
  unfolding reserve set_up
  launch q now dial plan m =
      let (m', reserved) = reserve q now m in
      let k = key q.cluster_id q.module_of in
      elim reserved [
        | none ↦ (m', false)
        | some r ↦ if dial then set_up k r plan m' else (rollback k r false m', false)
      ]

-- A flag of a key, a plan of a key.
abbrev pub is_set : String → Map Bool → Bool
is_set k flags = elim (lookup k flags) [ none ↦ false | some b ↦ b ]

abbrev pub plan_of : String → Manager → List PlannedStep
plan_of k m = elim (lookup k m.plans) [ none ↦ [] | some p ↦ p ]

abbrev pub claim_run : String → ℕ → Install → Manager → Manager × Turn
claim_run k r in_ m =
    if not (is_running in_.state)
    then (m, answered true)
    else if not in_.manual || is_set k m.busy
    then (m, answered false)
    else if leb (length (plan_of k m)) in_.current
    then (m, answered true)
    else (record m { busy = insert k true m.busy }, claimed r (plan_of k m) in_.current)

unfoldable pub claim_found : String → Manager → Option ℕ → Manager × Turn
claim_found k m none = (m, answered false)
claim_found k m (some r) = claim_run k r (m.heap r) m

-- The first part of `Next`.
unfoldable pub claim : String → Manager → Manager × Turn
unfolding claim_found
claim k m = claim_found k m (lookup k m.installs)

-- The run has gone one step on.
unfoldable pub advanced : List PlannedStep → Install → Install
advanced plan in_ = record in_ {
  current = suc in_.current;
  state = if leb (length plan) (suc in_.current) then done else in_.state;
}

module _ (writes : Install → Bool) where
  -- The run goes on to its next step, unless it is told to stop, or its step failed or ended it.
  unfoldable pub go_on : ℕ → List PlannedStep → Bool → Bool → Manager → Manager
  unfolding advanced
  go_on r plan stop bad m =
      if not stop && not bad && is_running (m.heap r).state
      then commit writes r (advanced plan (m.heap r)) m
      else m

  unfoldable pub stop_if : Bool → ℕ → Manager → Manager
  stop_if stop r m = if stop then terminate writes r cancelled "cancelled" m else m

  -- The last part of `Next`, after the step; `bad` says that the step gave an error.
  unfoldable pub finish_next : String → ℕ → List PlannedStep → Bool → Manager → Manager
  unfolding go_on stop_if
  finish_next k r plan bad m =
      let stop = is_set k m.cancel_req in
      let m1 = record m { busy = remove k m.busy; cancel_req = remove k m.cancel_req } in
      let m2 = go_on r plan stop bad m1 in
      let m3 = stop_if stop r m2 in
      if stop || not (is_running (m2.heap r).state) then cleanup k r false m3 else m3

  unfoldable pub cancel_run : String → Manager → Option ℕ → Manager
  cancel_run k m none = m
  cancel_run k m (some r) =
      if not (is_running (m.heap r).state)
      then m
      else if is_set k m.busy
      then record m { cancel_req = insert k true m.cancel_req }
      else cleanup k r false (terminate writes r cancelled "cancelled" m)

  unfoldable pub cancel_context : String → Manager → Option ℕ → Manager
  unfolding cancel_run
  cancel_context k m none = cancel_run k m (lookup k m.installs)
  cancel_context k m (some r) = record m { ended = r ∷ m.ended }

  -- `Cancel`: an automatic run's context ends; a step in flight is told; any other run stops here.
  unfoldable pub cancel : String → Manager → Manager
  unfolding cancel_context
  cancel k m = cancel_context k m (lookup k m.cancels)

-- `Status`.
unfoldable pub status : String → Module → Manager → Option Install
status cid mod_ m = elim (lookup (key cid mod_) m.installs) [
  | none ↦ none
  | some r ↦ some (m.heap r)
]
