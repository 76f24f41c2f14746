-- ===== src/Enterprise/Tests/Runs.antt =====
-- The theorems about the manager of installations at concrete values.
use cube_cos_driver.Base.{ℕ, Bool, true, false, ◌≡◌, ◌⊎◌, refl, arith, List, [], ◌∷◌, none, some}
use cube_cos_driver.Base.Maps.{lookup}
use cube_cos_driver.Enterprise.Records.{
  is_appfw, appfw, cmp, install, uninstall, running, done, run, Install, PlannedStep,
}
use cube_cos_driver.Enterprise.Cluster.{Action, say, give, ◌>>◌}
use cube_cos_driver.Enterprise.Manager.{Manager, is_running, cascade_after_uninstall, file_name}
use cube_cos_driver.Enterprise.Manager.Runner.{run_all}
use cube_cos_driver.Enterprise.Manager.Ended.{run_all-ends}
use cube_cos_driver.Enterprise.Manager.Events.{
  Event, happen_all, beginning, cancelling, going_on, claiming,
}
use cube_cos_driver.Enterprise.Manager.Events.Over.{happen_all-over}
use cube_cos_driver.Enterprise.Manager.Dropped.{cascade-drops}
use cube_cos_driver.Enterprise.Tests.{lib, planned, installed, manager, idle}

abbrev writes : Install → Bool
writes in_ = true

abbrev works : Install → List PlannedStep → PlannedStep → Action ℕ Bool
works in_ plan ps = do say "working"; give false

abbrev plan : List PlannedStep
plan = planned "a" run ∷ planned "b" run ∷ []

abbrev going : Manager
going = manager (installed appfw install running)

abbrev removing : Manager
removing = manager (installed appfw uninstall done)

run_all-ends_example :
    (v : Manager × ℕ) × (run_all lib writes idle works 3 "c/appfw" 0 plan (going, 7) ≡ some v)
    × (is_running (v.0.heap 0).state ≡ false)
run_all-ends_example = run_all-ends lib writes idle works "c/appfw" 0 plan going 7

abbrev calls : List Event
calls = claiming "c/cmp" ∷ beginning 1 0 5 ∷ going_on 1 ∷ cancelling "c/cmp" ∷ []

happen_all-over_example : is_running ((happen_all lib writes calls going).heap 1).state ≡ false
happen_all-over_example = happen_all-over lib writes 1 calls going (omega arith) refl

at_other : lookup "c/cmp" removing.installs ≡ some 1
unfolding lookup
at_other = refl

cascade-drops_example :
    (lookup "c/cmp" (cascade_after_uninstall 0 removing).installs ≡ none)
    × ((removing.stuck (file_name "c" cmp) ≡ true)
        ⊎ (lookup (file_name "c" cmp) (cascade_after_uninstall 0 removing).files ≡ none))
unfolding is_appfw
cascade-drops_example = cascade-drops 0 1 "c/cmp" removing refl refl refl at_other refl
