-- ===== src/Enterprise/Cluster/Framework.antt =====
-- internal/enterprise/manager.go: `runFramework`, which makes an app-framework and waits for it. A
-- loop runs on fuel; what it gives is `none` when the fuel is used up.
pub mod Poll
pub mod Clock
pub mod Waits
use Prim.Native.String.{String}
use cube_cos_driver.Base.{
  ℕ, zero, suc, ◌-◌, leb, Bool, true, false, not, ◌&&◌, ◌||◌, List, [], ◌∷◌, map, Option, none,
  some, str_eq, if◌then◌else◌,
}
use cube_cos_driver.Enterprise.Text.{Library, sprint, join}
use cube_cos_driver.Enterprise.Records.{PlannedStep}
use cube_cos_driver.Enterprise.Cluster.{
  Client, Error, Result, ok, failed, Action, ◌>>=◌, ◌>>◌, give, fail, say, refuse, collected, teed,
  outcome,
}
use cube_cos_driver.Enterprise.Cluster.Probe.{
  cli_failure_marker, ensure_amphora_tag, registry_probe, slice_has, trimmed,
}
use cube_cos_driver.Enterprise.Cluster.Progress.{framework_progress, status_label}

-- In seconds.
abbrev pub framework_ready_timeout : ℕ
framework_ready_timeout = 3600

abbrev pub framework_poll_interval : ℕ
framework_poll_interval = 30

abbrev pub framework_register_grace : ℕ
framework_register_grace = 120

abbrev pub registry_ready_timeout : ℕ
registry_ready_timeout = 300

abbrev pub registry_poll_interval : ℕ
registry_poll_interval = 15

-- `frameworkStates`.
pub data Class : Type 0 where
  ready working broken : Class

unfoldable pub framework_states : String → Option Class
framework_states st =
    if str_eq st "active"
    then some ready
    else if slice_has
        ("updating" ∷ "provisioning" ∷ "creating" ∷ "reconciling" ∷ "pending" ∷ "waiting" ∷ []) st
    then some working
    else if slice_has ("error" ∷ "failed" ∷ "unavailable" ∷ "removing" ∷ []) st
    then some broken
    else none

unfoldable pub is_broken : String → Bool
unfolding framework_states
is_broken st = elim (framework_states st) [ some broken ↦ true | _ ↦ false ]

abbrev pub is_active : Option String → Bool
is_active none = false
is_active (some st) = str_eq st "active"

abbrev pub has_error : Option String → Bool
has_error none = false
has_error (some st) = is_broken st

abbrev pub state_of : Option String → String
state_of none = ""
state_of (some st) = st

abbrev pub is_found : Option String → Bool
is_found none = false
is_found (some _) = true

module _ (lib : Library) where
  first_state : List String → String
  unfolding framework_states
  first_state [] = ""
  first_state (f ∷ fs) = elim (framework_states (lib.to_lower f)) [
    | none ↦ first_state fs
    | some _ ↦ lib.to_lower f
  ]

  -- The state in the first row that names the framework.
  unfoldable pub row_state : String → List String → Option String
  unfolding first_state
  row_state name [] = none
  row_state name (l ∷ ls) =
      if slice_has (lib.fields l) name then some (first_state (lib.fields l)) else row_state name ls

module _ (lib : Library) (c : Client) where
  -- `frameworkStatus`: nothing when the framework is not listed.
  unfoldable pub framework_status : String → Action c.S (Option String)
  unfolding row_state
  framework_status name = do
    lines ← collected c "hex_cli -c app -c framework_list"
    give (row_state lib name lines)

  -- `appctlLastError`.
  unfoldable pub appctl_last_error : Action c.S String
  appctl_last_error = do
    out ← collected c (
        sprint (
          "grep -aiE 'erro|error|failed|conflict|[0-9]{3} instead' /var/log/appctl/appctl.log 2>/dev/null | "
          ∷ "sed 's/\\x1b\\[[0-9;]*m//g' | tail -n 2" ∷ []))
    give (elim (trimmed lib out) [
      | [] ↦ "(see /var/log/appctl/appctl.log on the cluster)"
      | (l ∷ ls) ↦ join " | " (l ∷ ls)
    ])

  abbrev pub now : Action c.S ℕ
  now s = ([], ok (c.now s), s)

  abbrev pub paused : ℕ → Action c.S (Unit {0})
  paused n s = let (e, s') = c.pause n s in ([], outcome e, s')

  -- After an answer of the registry: an end, or another round.
  unfoldable pub after_answer :
      String → String → String → ℕ → Action c.S (Option (Unit {0})) → Action c.S (Option (Unit {0}))
  after_answer name lbip code elapsed again =
      if str_eq code "200"
      then (do say "App-framework registry reachable."; give (some tt))
      else if leb registry_ready_timeout elapsed
      then refuse (
          sprint (
            "app-framework registry (Harbor at "
            ∷ name
            ∷ ".registry.cubecos.com → "
            ∷ lbip
            ∷ ":443) not reachable after "
            ∷ lib.duration registry_ready_timeout
            ∷ " (last HTTP "
            ∷ lib.quote code
            ∷ "); appctl's registry setup did not complete, so app_register will produce broken image refs — "
            ∷ "check the ingress Octavia LB (openstack loadbalancer list) and the amphora image tag"
            ∷ []))
      else (do
        say (
            sprint (
              "Registry not serving yet (HTTP "
              ∷ lib.quote code
              ∷ ") — ingress LB + Harbor still starting; retrying…"
              ∷ []))
        paused registry_poll_interval
        again)

  -- The rounds of `verifyFrameworkRegistry`.
  unfoldable pub verify_round : String → String → ℕ → ℕ → Action c.S (Option (Unit {0}))
  unfolding registry_probe after_answer
  verify_round name lbip start zero = give none
  verify_round name lbip start (suc fuel) = do
    code ← registry_probe lib c name lbip
    t ← now
    after_answer name lbip code (t - start) (verify_round name lbip start fuel)

  -- `verifyFrameworkRegistry`.
  unfoldable pub verify_framework_registry : ℕ → String → String → Action c.S (Option (Unit {0}))
  verify_framework_registry fuel name lbip = if str_eq lbip "" then give (some tt) else (do
    say "Verifying the app-framework registry (Harbor) is reachable…"
    start ← now
    verify_round name lbip start fuel)
