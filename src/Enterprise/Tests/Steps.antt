-- ===== src/Enterprise/Tests/Steps.antt =====
-- The theorems about plans, texts, steps and manifests at concrete values.
use Prim.Native.String
use Prim.Native.String.{String}
use cube_cos_driver.Base.{
  true, false, ◌&&◌, ◌≡◌, ◌≢◌, arith, List, [], ◌∷◌, All, Option, none, some,
}
use cube_cos_driver.Enterprise.Text.{shell_quote}
use cube_cos_driver.Enterprise.Text.Quoting.{first_word, bare, prefix, first_word-shell_quote}
use cube_cos_driver.Enterprise.Records.{cmp, scp_run as copying, framework as making, Manifest}
use cube_cos_driver.Enterprise.Plan.{build_plan}
use cube_cos_driver.Enterprise.Plan.Order.{in_order, names, install_order, build_plan-in_order}
use cube_cos_driver.Enterprise.Cluster.{ok}
use cube_cos_driver.Enterprise.Cluster.Copy.{scp_run}
use cube_cos_driver.Enterprise.Cluster.Framework.Clock.{Clock}
use cube_cos_driver.Enterprise.Cluster.Framework.Poll.{run_framework}
use cube_cos_driver.Enterprise.Cluster.Framework.Waits.{run_framework-returns}
use cube_cos_driver.Enterprise.Manifests.{
  match_manifest, check_module, artifact_version, constrains, entry, is_gated,
}
use cube_cos_driver.Enterprise.Manifests.Nearest.{beats, has_version, match_manifest-best}
use cube_cos_driver.Enterprise.Preflight.Matrix.{is_refused, rejects_file, check_module-refused}
use cube_cos_driver.Enterprise.Tests.{lib, params, planned, idle, manifest}

build_plan-in_order_example :
    in_order (names (build_plan lib (λ f. true) "kc" cmp params true "dir" none)) install_order
    ≡ true
build_plan-in_order_example = build_plan-in_order lib (λ f. true) "kc" cmp params true "dir" none

first_word-shell_quote_example :
    first_word bare (String.◌++◌ (shell_quote "it's; $x") " end")
    ≡ prefix "it's; $x" (first_word bare " end")
first_word-shell_quote_example = first_word-shell_quote "it's; $x" " end"

idle-Clock : Clock idle
idle-Clock = record { run_time = λ cmd s. omega arith; pause_time = λ n s h. omega arith }

run_framework-returns_example :
    (run_framework lib idle 21 121 (planned "framework_create" making) 5).1 ≢ ok none
run_framework-returns_example =
    run_framework-returns lib idle idle-Clock 20 120 (planned "framework_create" making) 5
      (omega arith) (omega arith)

abbrev two_manifests : List Manifest
two_manifests = manifest "old" "20260101" ∷ manifest "new" "20260313" ∷ []

match_manifest-best_example :
    (has_version lib "3.1.0" "20260313" "other"
        (match_manifest lib two_manifests "3.1.0" "20260313" "other")
      ≡ true)
    × All
        (λ m.
          beats lib "3.1.0" "20260313" "other"
            (match_manifest lib two_manifests "3.1.0" "20260313" "other")
            m
          ≡ false)
        two_manifests
match_manifest-best_example = match_manifest-best lib "3.1.0" "20260313" "other" two_manifests

abbrev finds : String → String → Option String
finds re file = some "2.1.0"

check_module-refused_example :
    is_refused (check_module lib finds (manifest "new" "b") cmp "cube-portal-2.1.0.pigz" true) ≡ (
      is_gated cmp
      && (constrains (manifest "new" "b") cmp
          && rejects_file
              (entry (manifest "new" "b") cmp)
              true
              (artifact_version lib finds cmp "cube-portal-2.1.0.pigz")))
check_module-refused_example =
    check_module-refused lib finds (manifest "new" "b") cmp "cube-portal-2.1.0.pigz" true
