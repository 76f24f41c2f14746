-- ===== src/Enterprise/Manager/Events.antt =====
-- internal/enterprise/manager.go: the parts of the manager's calls in any order, as other calls come
-- between them, and what no order of them does.
pub mod Over
use Prim.Native.String.{String}
use cube_cos_driver.Base.{
  ℕ, suc, ◌<◌, ◌==◌, ==-cases, Bool, true, false, not, ◌≡◌, refl, ap, sym, subst, ◌∙◌, List, [],
  ◌∷◌, map, Option, none, some, arith, if◌then◌else◌, Bool-cases, inl, inr, ◌⊎◌,
}
use cube_cos_driver.Base.Maps.{lookup}
use cube_cos_driver.Enterprise.Text.{Library}
use cube_cos_driver.Enterprise.Records.{
  RunState, running, done, cancelled, Install, PlannedStep, Module,
}
use cube_cos_driver.Enterprise.Cluster.{Error, Result, ok, failed}
use cube_cos_driver.Enterprise.Manager.{
  Manager, put, commit, terminate, cleanup, rollback, cascade_after_uninstall, is_running, key,
}
use cube_cos_driver.Enterprise.Manager.Steps.{
  begin_step, finish_step, finished, checked, after_error, after_step, output_at,
}
use cube_cos_driver.Enterprise.Manager.Calls.{
  Request, reserve, is_taken, new_install, set_up, planned, claim, claim_run, finish_next, advanced,
  cancel, is_set, plan_of,
}
use cube_cos_driver.Enterprise.Manager.Heap.{cascade-heap, cascade-fresh, stopped}

pub data Event : Type 0 where
  reserving : Request → ℕ → Event
  setting_up : String → ℕ → List PlannedStep → Event
  rolling_back : String → ℕ → Bool → Event
  beginning : ℕ → ℕ → ℕ → Event
  finishing : ℕ → ℕ → PlannedStep → List String → Result Bool → Bool → ℕ → Event
  going_on : ℕ → Event
  finalizing : ℕ → Event
  terminating : ℕ → Event
  cleaning : String → ℕ → Bool → Event
  claiming : String → Event
  advancing : String → ℕ → List PlannedStep → Bool → Event
  cancelling : String → Event

module _ (lib : Library) (writes : Install → Bool) where
  -- What each part does; a run goes on to its next step while it is running.
  unfoldable pub happen : Event → Manager → Manager
  unfolding reserve set_up rollback begin_step finish_step terminate cleanup claim finish_next
      cancel cascade_after_uninstall
  happen (reserving q now) m = (reserve q now m).0
  happen (setting_up k r plan) m = (set_up writes k r plan m).0
  happen (rolling_back k r dialed) m = rollback k r dialed m
  happen (beginning r idx now) m = begin_step lib writes r idx now m
  happen (finishing r idx ps out result ended now) m =
      (finish_step lib writes r idx ps out result ended now m).0
  happen (going_on r) m =
      if is_running (m.heap r).state
      then commit writes r (record (m.heap r) { current = suc (m.heap r).current }) m
      else m
  happen (finalizing r) m =
      cascade_after_uninstall r (commit writes r (record (m.heap r) { state = done }) m)
  happen (terminating r) m = terminate writes r cancelled "cancelled" m
  happen (cleaning k r auto) m = cleanup k r auto m
  happen (claiming k) m = (claim k m).0
  happen (advancing k r plan bad) m = finish_next writes k r plan bad m
  happen (cancelling k) m = cancel writes k m

  unfoldable pub happen_all : List Event → Manager → Manager
  unfolding happen
  happen_all [] m = m
  happen_all (e ∷ es) m = happen_all es (happen e m)
