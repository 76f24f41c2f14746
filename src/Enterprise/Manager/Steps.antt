-- ===== src/Enterprise/Manager/Steps.antt =====
-- internal/enterprise/manager.go: `execStep`, as the part before the step's work and the part after it,
-- each under the lock.
use Prim.Native.String.{String}
use cube_cos_driver.Base.{
  ℕ, zero, suc, Bool, true, false, not, ◌&&◌, List, [], ◌∷◌, Option, none, some, str_eq,
  if◌then◌else◌,
}
use cube_cos_driver.Enterprise.Text.{Library, sprint}
use cube_cos_driver.Enterprise.Records.{
  advisor, active, error, done, skipped, cancelled, Step, Install, Kind, run, scp_run, airgap,
  framework, complete, PlannedStep,
}
use cube_cos_driver.Enterprise.Plan.{advisor_base_url}
use cube_cos_driver.Enterprise.Cluster.{Error, Result, ok, failed}
use cube_cos_driver.Enterprise.Cluster.Probe.{cli_failure_marker}
use cube_cos_driver.Enterprise.Manager.{Manager, commit, cascade_after_uninstall, is_install}

-- Changes the step at an index.
unfoldable pub on_step : ℕ → (Step → Step) → List Step → List Step
on_step i f [] = []
on_step zero f (s ∷ ss) = f s ∷ ss
on_step (suc i) f (s ∷ ss) = s ∷ on_step i f ss

abbrev pub is_command : Kind → Bool
is_command run = true
is_command scp_run = true
is_command _ = false

abbrev pub is_narrated : Kind → Bool
is_narrated airgap = true
is_narrated framework = true
is_narrated k = is_command k

abbrev pub is_complete : Kind → Bool
is_complete complete = true
is_complete _ = false

-- The lines that a step prints, after what it printed before.
abbrev pub printed : String → List String → String
printed output [] = output
printed output (l ∷ ls) = printed (sprint (output ∷ l ∷ "\n" ∷ [])) ls

-- The step's own result, unless a command of it printed a failure.
unfoldable pub checked : Kind → String → Result Bool → Result Bool
checked kind output (failed e) = failed e
checked kind output (ok was_skipped) =
    let marker : String = cli_failure_marker output in
    if not was_skipped && is_command kind && not (str_eq marker "")
    then failed (record { message = sprint (marker ∷ " (see output)" ∷ []); lost = false })
    else ok was_skipped

-- What the operator is told of an error.
unfoldable pub told : Bool → Error → String
told ended e =
    if ended
    then "cancelled"
    else if e.lost
    then sprint (
        e.message ∷ " -- the command may have finished, or still be running on the cluster; "
        ∷ "check there before re-running this step" ∷ [])
    else e.message

abbrev pub portal_of : Library → Install → String
portal_of lib in_ = elim in_.module_of [
  | advisor ↦ sprint (advisor_base_url lib in_.params ∷ "/" ∷ [])
  | _ ↦ sprint ("https://" ∷ in_.params.lb_ip ∷ "/portal" ∷ [])
]

module _ (lib : Library) where
  -- The install after a step that failed, and after one that did not.
  unfoldable pub after_error : ℕ → List String → Bool → ℕ → Error → Install → Install
  unfolding on_step told
  after_error idx out ended now e in_ = record in_ {
    state = if ended then cancelled else error;
    steps =
        on_step idx
          (λ s. record s {
            output = printed s.output out;
            state = error;
            err = told ended e;
            finished_at = some now;
          })
          in_.steps;
  }

  unfoldable pub after_step : ℕ → PlannedStep → List String → ℕ → Bool → Install → Install
  unfolding on_step
  after_step idx ps out now was_skipped in_ = record in_ {
    steps =
        on_step idx
          (λ s. record s {
            state = if was_skipped then skipped else done;
            output =
                if not was_skipped && is_narrated ps.kind
                then sprint (printed s.output out ∷ "✓ " ∷ s.title ∷ " — done.\n" ∷ [])
                else printed s.output out;
            finished_at = some now;
          })
          in_.steps;
    portal = if is_complete ps.kind && is_install in_.op then portal_of lib in_ else in_.portal;
    state = if is_complete ps.kind then done else in_.state;
  }

  -- What a step has printed in all, when its work is over.
  abbrev pub output_at : ℕ → List String → List Step → String
  output_at i out [] = ""
  output_at zero out (s ∷ ss) = printed s.output out
  output_at (suc i) out (s ∷ ss) = output_at i out ss

  module _ (writes : Install → Bool) where
    -- `execStep`, up to its work.
    unfoldable pub begin_step : ℕ → ℕ → ℕ → Manager → Manager
    unfolding on_step
    begin_step r idx now m =
        let in_ = m.heap r in
        commit writes r
          (record in_ {
            steps = on_step idx (λ s. record s { state = active; started_at = some now }) in_.steps;
          })
          m

    unfoldable pub finished :
        ℕ
        → ℕ
        → PlannedStep
        → List String
        → Bool
        → ℕ
        → Manager
        → Result Bool
        → Manager × Option Error
    unfolding after_error after_step
    finished r idx ps out ended now m (failed e) =
        (commit writes r (after_error idx out ended now e (m.heap r)) m, some e)
    finished r idx ps out ended now m (ok was_skipped) = (
      cascade_after_uninstall r
          (commit writes r (after_step idx ps out now was_skipped (m.heap r)) m),
      none,
    )

    -- `execStep`, after its work: its lines, its result, and whether the run's context has ended.
    unfoldable pub finish_step :
        ℕ
        → ℕ
        → PlannedStep
        → List String
        → Result Bool
        → Bool
        → ℕ
        → Manager
        → Manager × Option Error
    unfolding checked finished
    finish_step r idx ps out result ended now m =
        finished r idx ps out ended now m
          (checked ps.kind (output_at idx out (m.heap r).steps) result)
