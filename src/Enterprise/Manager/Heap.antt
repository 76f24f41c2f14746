-- ===== src/Enterprise/Manager/Heap.antt =====
-- What the parts of the manager do to the run at an address.
use Prim.Native.String.{String}
use cube_cos_driver.Base.{
  ℕ, ap, ◌∙◌, ◌==◌, Bool, true, false, ◌≡◌, refl, List, [], ◌∷◌, arith, Map, if◌then◌else◌,
}
use cube_cos_driver.Enterprise.Text.{Library}
use cube_cos_driver.Enterprise.Records.{cancelled, error, Install, PlannedStep}
use cube_cos_driver.Enterprise.Cluster.{Result, ok, failed}
use cube_cos_driver.Enterprise.Manager.{
  Manager, drop, commit, cleanup, drop_all, cascade_after_uninstall, is_running,
}
use cube_cos_driver.Enterprise.Manager.Steps.{begin_step, finished, after_error, after_step}
use cube_cos_driver.Enterprise.Manager.Runner.{is_error}

drop-heap :
    (in_ : Install) (k : String) (r i : ℕ) (m : Manager) → (drop in_ k r m).heap i ≡ m.heap i
unfolding drop
drop-heap in_ k r i m = ground arith

pub drop_all-heap :
    (in_ : Install) (ms : Map ℕ) (i : ℕ) (m : Manager) → (drop_all in_ ms m).heap i ≡ m.heap i
unfolding drop_all
drop_all-heap in_ [] i m = refl
drop_all-heap in_ ((k, r) ∷ ms) i m =
    drop_all-heap in_ ms i (drop in_ k r m) ∙ drop-heap in_ k r i m

pub cascade-heap : (r i : ℕ) (m : Manager) → (cascade_after_uninstall r m).heap i ≡ m.heap i
unfolding cascade_after_uninstall
cascade-heap r i m = ground (arith, drop_all-heap (m.heap r) m.installs i m)

drop_all-fresh : (in_ : Install) (ms : Map ℕ) (m : Manager) → (drop_all in_ ms m).fresh ≡ m.fresh
unfolding drop_all drop
drop_all-fresh in_ [] m = refl
drop_all-fresh in_ ((k, r) ∷ ms) m = ground (arith, drop_all-fresh in_ ms (drop in_ k r m))

pub cascade-fresh : (r : ℕ) (m : Manager) → (cascade_after_uninstall r m).fresh ≡ m.fresh
unfolding cascade_after_uninstall
cascade-fresh r m = ground (arith, drop_all-fresh (m.heap r) m.installs m)

pub cleanup-heap :
    (k : String) (r i : ℕ) (auto : Bool) (m : Manager) → (cleanup k r auto m).heap i ≡ m.heap i
unfolding cleanup
cleanup-heap k r i auto m = refl

module _ (writes : Install → Bool) where
  pub commit-heap :
      (r i : ℕ) (in_ : Install) (m : Manager)
      → (commit writes r in_ m).heap i ≡ (if i == r then in_ else m.heap i)
  unfolding commit
  commit-heap r i in_ m = refl

  pub commit-heap_same :
      (r : ℕ) (in_ : Install) (m : Manager) → (commit writes r in_ m).heap r ≡ in_
  commit-heap_same r in_ m = ground (arith, commit-heap r r in_ m)

pub stopped : (b : Bool) → is_running (if b then cancelled else error) ≡ false
stopped true = refl
stopped false = refl

-- A step's work over, its run is at the same step, and has ended if the step failed.
module _ (lib : Library) (writes : Install → Bool) where
  abbrev pub Kept : ℕ → Manager → Manager → Type 0
  Kept r m m' = (m'.heap r).current ≡ (m.heap r).current

  pub begin_step-current :
      (r idx now : ℕ) (m : Manager) → Kept r m (begin_step lib writes r idx now m)
  unfolding begin_step
  begin_step-current r idx now m = ap (λ x. x.current) (commit-heap_same writes r _ m)

  -- What every end of a step does to its run.
  module _ (r idx : ℕ) (ps : PlannedStep) (out : List String) (ended : Bool) (now : ℕ)
      (m : Manager) where
    pub finished-current :
        (result : Result Bool) → Kept r m (finished lib writes r idx ps out ended now m result).0
    unfolding finished after_error after_step
    finished-current (failed e) = ap (λ x. x.current) (commit-heap_same writes r _ m)
    finished-current (ok b) =
        ap (λ x. x.current) (cascade-heap r r _ ∙ commit-heap_same writes r _ m)

    pub finished-failed :
        (result : Result Bool)
        → is_error (finished lib writes r idx ps out ended now m result).1 ≡ true
        → is_running ((finished lib writes r idx ps out ended now m result).0.heap r).state ≡ false
    unfolding finished after_error
    finished-failed (failed e) h =
        ap (λ x. is_running x.state) (commit-heap_same writes r _ m) ∙ stopped ended
    finished-failed (ok b) h = ground arith
