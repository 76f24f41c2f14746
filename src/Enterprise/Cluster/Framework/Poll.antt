-- ===== src/Enterprise/Cluster/Framework/Poll.antt =====
-- internal/enterprise/manager.go: the creation of a framework and the rounds of its polling.
use Prim.Native.String.{String}
use cube_cos_driver.Base.{
  ℕ, zero, suc, ◌-◌, leb, Bool, true, false, not, ◌&&◌, ◌||◌, [], ◌∷◌, Option, none, some, str_eq,
  if◌then◌else◌,
}
use cube_cos_driver.Enterprise.Text.{Library, sprint, join}
use cube_cos_driver.Enterprise.Records.{PlannedStep}
use cube_cos_driver.Enterprise.Cluster.{Client, Action, ◌>>=◌, ◌>>◌, give, say, refuse, teed}
use cube_cos_driver.Enterprise.Cluster.Probe.{cli_failure_marker, ensure_amphora_tag}
use cube_cos_driver.Enterprise.Cluster.Progress.{framework_progress, status_label}
use cube_cos_driver.Enterprise.Cluster.Framework.{
  framework_status, verify_framework_registry, appctl_last_error, now, paused, is_active, has_error,
  is_found, state_of, framework_ready_timeout, framework_register_grace, framework_poll_interval,
}

-- A finished verification gives whether the step was skipped.
abbrev pub skipped_as : Bool → Option (Unit {0}) → Option Bool
skipped_as b none = none
skipped_as b (some _) = some b

module _ (lib : Library) (c : Client) where
  -- An active framework is verified; how many rounds that has is `inner`.
  unfoldable pub verified : ℕ → String → String → Bool → Action c.S (Option Bool)
  verified inner name lbip skipped = do
    done ← verify_framework_registry lib c inner name lbip
    give (skipped_as skipped done)

  -- What is said of a framework that never registers, and of one that is not ready in time.
  unfoldable pub not_registered : String → String → Action c.S (Option Bool)
  not_registered name last = refuse (
      sprint (
        "app-framework "
        ∷ lib.quote name
        ∷ " was not created: framework_create returned but the framework never "
        ∷ "registered within "
        ∷ lib.duration framework_register_grace
        ∷ " — it failed silently. Last appctl error: "
        ∷ last
        ∷ []))

  unfoldable pub not_ready : String → Option String → String → Action c.S (Option Bool)
  not_ready name st progress = refuse (
      sprint (
        "WARNING: app-framework "
        ∷ lib.quote name
        ∷ " not active after "
        ∷ lib.duration framework_ready_timeout
        ∷ " (last state: "
        ∷ status_label (state_of st)
        ∷ ")"
        ∷ (if str_eq progress "" then "" else sprint (" [" ∷ progress ∷ "]" ∷ []))
        ∷ "; provisioning may still be in progress — verify with `hex_cli -c app -c framework_list` and "
        ∷ "inspect the RKE2 nodes (kubectl get machines -A), then re-run to resume or delete the framework "
        ∷ "to start over"
        ∷ []))

  unfoldable pub keep_waiting :
      String → Option String → ℕ → Action c.S (Option Bool) → String → Action c.S (Option Bool)
  unfolding not_ready
  keep_waiting name st elapsed again progress =
      if leb framework_ready_timeout elapsed then not_ready name st progress else (do
        say (
            sprint (
              "Waiting for app-framework "
              ∷ lib.quote name
              ∷ " to become active — state: "
              ∷ status_label (state_of st)
              ∷ ", "
              ∷ lib.duration elapsed
              ∷ " elapsed"
              ∷ (if str_eq progress "" then "" else sprint ("; " ∷ progress ∷ []))
              ∷ "…"
              ∷ []))
        paused lib c framework_poll_interval
        again)

  -- After a look that found the framework neither active nor broken: an end, or another round.
  unfoldable pub wait_on :
      String
      → String
      → Bool
      → Bool
      → Option String
      → ℕ
      → Action c.S (Option Bool)
      → Action c.S (Option Bool)
  unfolding not_registered keep_waiting
  wait_on name lbip just_created ever_found st elapsed again =
      if just_created && not ever_found && leb framework_register_grace elapsed
      then appctl_last_error lib c >>= not_registered name
      else framework_progress lib c name lbip >>= keep_waiting name st elapsed again

  unfoldable pub entered : String → Option String → Action c.S (Option Bool)
  entered name st = refuse (
      sprint (
        "app-framework "
        ∷ lib.quote name
        ∷ " entered state "
        ∷ lib.quote (state_of st)
        ∷ " — check `hex_cli -c app -c framework_list` and the Rancher cluster"
        ∷ []))

  unfoldable pub after_look :
      ℕ
      → String
      → String
      → ℕ
      → Bool
      → Bool
      → Action c.S (Option Bool)
      → Option String
      → Action c.S (Option Bool)
  unfolding verified wait_on entered
  after_look inner name lbip start just_created ever_found again st =
      if is_active st
      then (do
        say (sprint ("App-framework " ∷ lib.quote name ∷ " is active." ∷ []))
        verified inner name lbip false)
      else if has_error st
      then entered name st
      else (do t ← now lib c; wait_on name lbip just_created ever_found st (t - start) again)

  -- The loop of `runFramework`.
  unfoldable pub poll : ℕ → String → String → ℕ → Bool → ℕ → Bool → Action c.S (Option Bool)
  unfolding after_look
  poll inner name lbip start just_created zero ever_found = give none
  poll inner name lbip start just_created (suc fuel) ever_found = do
    st ← framework_status lib c name
    after_look inner name lbip start just_created (is_found st || ever_found)
        (poll inner name lbip start just_created fuel (is_found st || ever_found)) st

  -- The command that creates the framework. What is told meanwhile of the nodes is left out.
  unfoldable pub create : PlannedStep → Action c.S (Unit {0})
  create ps = do
    say (
        sprint (
          "Creating app-framework "
          ∷ lib.quote ps.framework
          ∷ " (this provisions an RKE2 cluster and can take many minutes)…"
          ∷ []))
    out ← teed c ps.cmd
    if str_eq (cli_failure_marker (join "\n" out)) ""
        then give tt
        else refuse (sprint (cli_failure_marker (join "\n" out) ∷ " (see output)" ∷ []))

  -- Makes the framework unless it is there, and waits for it.
  unfoldable pub make : ℕ → ℕ → PlannedStep → Option String → Action c.S (Option Bool)
  unfolding create poll
  make inner outer ps st = do
    (if is_found st
        then say (
            sprint (
              "App-framework "
              ∷ lib.quote ps.framework
              ∷ " already exists (state: "
              ∷ status_label (state_of st)
              ∷ ") — not recreating; waiting for it to become active."
              ∷ []))
        else create ps)
    start ← now lib c
    poll inner ps.framework ps.lb_ip start (not (is_found st)) outer (is_found st)

  unfoldable pub after_first_look : ℕ → ℕ → PlannedStep → Option String → Action c.S (Option Bool)
  unfolding make verified
  after_first_look inner outer ps st =
      if is_active st
      then (do
        say (
            sprint (
              "App-framework "
              ∷ lib.quote ps.framework
              ∷ " is already active — skipping creation."
              ∷ []))
        verified inner ps.framework ps.lb_ip true)
      else make inner outer ps st

  -- `runFramework`, which gives whether the step was skipped.
  unfoldable pub run_framework : ℕ → ℕ → PlannedStep → Action c.S (Option Bool)
  unfolding after_first_look
  run_framework inner outer ps = do
    ensure_amphora_tag lib c
    st ← framework_status lib c ps.framework
    after_first_look inner outer ps st
