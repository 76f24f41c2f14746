-- ===== src/Enterprise/Manager/Runner.antt =====
-- internal/enterprise/manager.go: `runAll`, which drives an automatic run, and the whole of a step.
use Prim.Native.String.{String}
use cube_cos_driver.Base.{
  ℕ, zero, suc, Bool, true, false, not, List, get_elem?, Option, none, some, if◌then◌else◌,
}
use cube_cos_driver.Enterprise.Text.{Library}
use cube_cos_driver.Enterprise.Records.{done, cancelled, Install, PlannedStep}
use cube_cos_driver.Enterprise.Cluster.{Client, Error, Result, Action}
use cube_cos_driver.Enterprise.Manager.{
  Manager, commit, terminate, cleanup, cascade_after_uninstall, is_running,
}
use cube_cos_driver.Enterprise.Manager.Steps.{begin_step, finish_step}
use cube_cos_driver.Enterprise.Manager.Calls.{finish_next, claim, answered, claimed}

abbrev pub is_error : Option Error → Bool
is_error none = false
is_error (some _) = true

abbrev pub has_ended : Bool → Option Error → Bool
has_ended auto none = false
has_ended auto (some _) = auto

-- The manager and the cluster, as a run sees them.
module _ (lib : Library) (writes : Install → Bool) (c : Client)
    (work : Install → List PlannedStep → PlannedStep → Action c.S Bool) where
  -- The end of a step whose work left the cluster as it is. The context of an automatic run ends with
  -- the cluster's `cancelled`.
  unfoldable pub after_work :
      ℕ
      → ℕ
      → PlannedStep
      → Bool
      → Manager
      → List String × Result Bool × c.S
      → (Manager × c.S) × Option Error
  after_work r idx ps auto m (out, result, t) =
      let (m', e) =
        finish_step lib writes r idx ps out result (has_ended auto (c.cancelled t)) (c.now t) m in
      ((m', t), e)

  -- `execStep` when nothing comes between its parts.
  unfoldable pub exec_step :
      ℕ → List PlannedStep → ℕ → PlannedStep → Bool → Manager × c.S → (Manager × c.S) × Option Error
  unfolding after_work
  exec_step r plan idx ps auto (m, s) =
      let m1 = begin_step lib writes r idx (c.now s) m in
      after_work r idx ps auto m1 (work (m1.heap r) plan ps s)

  -- All steps have run.
  unfoldable pub finalize : ℕ → Manager → Manager
  finalize r m = cascade_after_uninstall r (commit writes r (record (m.heap r) { state = done }) m)

  -- What the loop does after a step: it ends, or goes on with the next one.
  unfoldable pub after_exec :
      ℕ
      → (Manager × c.S → Option (Manager × c.S))
      → (Manager × c.S) × Option Error
      → Option (Manager × c.S)
  after_exec r again (w, some e) = some w
  after_exec r again ((m, s), none) =
      if not (is_running (m.heap r).state)
      then some (m, s)
      else again (commit writes r (record (m.heap r) { current = suc (m.heap r).current }) m, s)

  -- A round, by the step at the run's place, if there is one.
  unfoldable pub round :
      ℕ
      → List PlannedStep
      → (Manager × c.S → Option (Manager × c.S))
      → Manager
      → c.S
      → Option PlannedStep
      → Option (Manager × c.S)
  unfolding exec_step finalize after_exec
  round r plan again m s none = some (finalize r m, s)
  round r plan again m s (some ps) =
      after_exec r again (exec_step r plan (m.heap r).current ps true (m, s))

  -- The loop of `runAll`; `none` when the fuel is used up.
  unfoldable pub loop : ℕ → ℕ → List PlannedStep → Manager × c.S → Option (Manager × c.S)
  unfolding round
  loop zero r plan w = none
  loop (suc fuel) r plan (m, s) = elim (c.cancelled s) [
    | some _ ↦ some (terminate writes r cancelled "cancelled" m, s)
    | none ↦ round r plan (loop fuel r plan) m s (get_elem? plan (m.heap r).current)
  ]

  -- However the loop ends, what the run held is released.
  abbrev pub released : String → ℕ → Option (Manager × c.S) → Option (Manager × c.S)
  released k r none = none
  released k r (some (m, s)) = some (cleanup k r true m, s)

  -- `runAll` of the run at a key.
  unfoldable pub run_all :
      ℕ → String → ℕ → List PlannedStep → Manager × c.S → Option (Manager × c.S)
  unfolding loop
  run_all fuel k r plan w = released k r (loop fuel r plan w)

  -- `Next` when nothing comes between its parts.
  unfoldable pub next : String → Manager × c.S → (Manager × c.S) × Bool
  unfolding exec_step
  next k (m, s) =
      let (m1, turn) = claim k m in
      elim turn [
        | answered good ↦ ((m1, s), good)
        | claimed r plan idx ↦ elim (get_elem? plan idx) [
          | none ↦ ((m1, s), true)
          | some ps ↦
              (let (w, e) = exec_step r plan idx ps false (m1, s) in
                ((finish_next writes k r plan (is_error e) w.0, w.1), not (is_error e)))
        ]
      ]
