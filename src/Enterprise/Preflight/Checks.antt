-- ===== src/Enterprise/Preflight/Checks.antt =====
-- internal/enterprise/manager.go: `enforceMatrix`, `preflight`, and the work of a step by its kind.
use Prim.Native.String.{String}
use cube_cos_driver.Base.{
  Bool, true, false, not, ◌&&◌, ◌||◌, List, [], ◌∷◌, map, Option, none, some, str_eq, if◌then◌else◌,
}
use cube_cos_driver.Enterprise.Text.{Library, sprint, join}
use cube_cos_driver.Enterprise.Records.{
  is_appfw, is_cmp, is_advisor, InstallParams, Install, run, scp_run, airgap, framework, detect,
  complete, PlannedStep, Manifest,
}
use cube_cos_driver.Enterprise.Scripts.Probes.{lb_ip_taken_probe, advisor_console_addr_probe}
use cube_cos_driver.Enterprise.Cluster.{
  Client, Result, ok, failed, Action, ◌>>=◌, ◌>>◌, give, fail, say, refuse, shown, collected, teed,
}
use cube_cos_driver.Enterprise.Cluster.Probe.{
  list_has_name, plan_has_step, slice_has, ssh_list, trimmed,
}
use cube_cos_driver.Enterprise.Cluster.Copy.{scp_run as copy_and_run}
use cube_cos_driver.Enterprise.Cluster.Framework.Poll.{run_framework}
use cube_cos_driver.Enterprise.Manifests.{
  parse_version, match_manifest, Verdict, allowed, warned, refused, check_module,
}
use cube_cos_driver.Enterprise.Preflight.{
  Disk, is_install, check_artifacts, check_console, check_advisor,
}

module _ (lib : Library) (find : String → String → Option String)
    (verify : String → String → Result (List String)) (manifests : List Manifest) (dir : String)
    (disk : Disk) (c : Client) where
  abbrev pub no_refusal : Verdict → Action c.S (Unit {0})
  no_refusal allowed = give tt
  no_refusal (warned w) = say (sprint ("⚠ " ∷ w ∷ []))
  no_refusal (refused why) = refuse why

  -- The signature of an advisor's bundle.
  unfoldable pub check_signature : InstallParams → Manifest → Action c.S (Unit {0})
  check_signature p mf = elim mf.advisor_release_key [
    | none ↦ say (
        sprint (
          "⚠ advisor bundle signature not checked: no trusted release key for manifest \"" ∷ mf.name
          ∷ "\"" ∷ []))
    | some k ↦ (do
      say (
          sprint
            ("Verifying the advisor bundle is signed with " ∷ mf.name ∷ "'s release key…" ∷ []))
      elim (verify (lib.join_path dir "advisor" p.advisor_file) k) [
        | failed e ↦ fail e
        | ok vs ↦ say (sprint ("  ✓ agent release(s) " ∷ join ", " vs ∷ " verify" ∷ []))
      ])
  ]

  -- The manifest that was asked for is the cluster's own, or the install is a lab's.
  unfoldable pub check_requested : Install → Manifest → Action c.S (Unit {0})
  check_requested in_ mf =
      let msg : String = sprint (
        "requested manifest "
        ∷ lib.quote in_.manifest
        ∷ " differs from "
        ∷ lib.quote mf.name
        ∷ ", the one matching this cluster"
        ∷ []) in
      if str_eq in_.manifest "" || str_eq in_.manifest mf.name
      then give tt
      else if in_.lab
      then say (sprint ("⚠ " ∷ msg ∷ " (lab install, continuing)" ∷ []))
      else refuse (sprint (msg ∷ " (tick Lab install to override)" ∷ []))

  unfoldable pub enforce_on : Install → Option Manifest → Action c.S (Unit {0})
  unfolding check_requested check_signature
  enforce_on in_ none =
      if is_advisor in_.module_of
      then say
          "⚠ advisor bundle signature not checked: no support-matrix manifest matches this cluster's version"
      else give tt
  enforce_on in_ (some mf) = do
    check_requested in_ mf
    no_refusal (
        check_module lib find mf in_.module_of
          (if is_advisor in_.module_of then in_.params.advisor_file else in_.params.app_file)
          in_.lab)
    if is_advisor in_.module_of then check_signature in_.params mf else give tt

  abbrev pub unreadable : String → String
  unreadable reason =
      sprint (
        "cannot read the cluster version (/etc/version) to apply the support matrix: " ∷ reason
        ∷ [])

  unfoldable pub version_read : Install → Result (List String) → Action c.S (Unit {0})
  unfolding enforce_on
  version_read in_ (failed e) = refuse (unreadable e.message)
  version_read in_ (ok []) = refuse (unreadable "empty")
  version_read in_ (ok (v ∷ vs)) =
      let (version, build, commit) = parse_version lib v in
      enforce_on in_ (match_manifest lib manifests version build commit)

  -- `enforceMatrix`.
  unfoldable pub enforce_matrix : Install → Action c.S (Unit {0})
  unfolding version_read
  enforce_matrix in_ s =
      let (out, r, t) = ssh_list lib c "cat /etc/version" s in version_read in_ r t

  unfoldable pub say_all : List String → Action c.S (Unit {0})
  say_all [] = give tt
  say_all (w ∷ ws) = do say (sprint ("⚠ " ∷ w ∷ [])); say_all ws

  -- What the plan needs of the frameworks that are there.
  unfoldable pub check_present : Install → List PlannedStep → List String → Action c.S (Unit {0})
  check_present in_ plan fw =
      let name : String =
        if str_eq in_.params.framework "" then in_.params.project else in_.params.framework in
      if not (plan_has_step plan "framework_create")
        && (not (is_appfw in_.module_of) && is_install in_.op)
      then (if str_eq name "" || not (list_has_name lib fw name)
          then refuse (
              sprint (
                "App-framework "
                ∷ lib.quote name
                ∷ " is not on this cluster — install App-Framework first, or pick an "
                ∷ "OS image to create it as part of this install"
                ∷ []))
          else say
              (sprint ("App-framework " ∷ lib.quote name ∷ " present — installing onto it." ∷ [])))
      else give tt

  -- The framework's own address, before it is made; a probe that fails refuses nothing.
  unfoldable pub check_lb_ip : Install → Action c.S (Unit {0})
  check_lb_ip in_ s =
      let addr = in_.params.lb_ip in
      let (out, e, t) = c.run (lb_ip_taken_probe addr) s in
      let free : Bool = elim e [
        | some _ ↦ true
        | none ↦ not (slice_has (map lib.trim_space out) "taken")
      ] in
      (do
        say (sprint ("Checking LB IP " ∷ addr ∷ " is free…" ∷ []))
        if free
            then give tt
            else refuse (
                sprint (
                  "LB IP " ∷ addr
                  ∷ " is already in use (a port or floating IP on this cluster holds it, or it answers "
                  ∷ "ARP on the provider network — e.g. another cluster's load balancer) — pick a free address in the "
                  ∷ "external range" ∷ [])))
        t

  unfoldable pub check_created : Install → List PlannedStep → List String → Action c.S (Unit {0})
  unfolding check_lb_ip
  check_created in_ plan fw =
      if not (plan_has_step plan "framework_create")
      then give tt
      else if not (str_eq in_.params.project "") && list_has_name lib fw in_.params.project
      then say (
          sprint (
            "App-framework "
            ∷ lib.quote in_.params.project
            ∷ " already present — the create step will verify it's active (or wait), not recreate it."
            ∷ []))
      else if str_eq in_.params.lb_ip ""
      then give tt
      else check_lb_ip in_

  -- `preflight`.
  unfoldable pub preflight : Install → List PlannedStep → Action c.S (Unit {0})
  unfolding enforce_matrix say_all check_present check_created
  preflight in_ plan = do
    say_all in_.warnings
    (if (is_cmp in_.module_of || is_advisor in_.module_of) && is_install in_.op
        then enforce_matrix in_
        else give tt)
    say "Checking cluster reachability…"
    shown c "cubectl node exec -p 'hostname'"
    say "Listing existing app frameworks…"
    fw ← teed c "hex_cli -c app -c framework_list"
    check_present in_ plan fw
    check_created in_ plan fw
    (if is_advisor in_.module_of && is_install in_.op
        then check_advisor lib disk c in_.params
        else give tt)
    mine ← elim in_.params.advisor_pool [
      | [] ↦ give []
      | (_ ∷ _) ↦ collected c advisor_console_addr_probe
    ]
    check_console lib disk c (trimmed lib mine) in_.params.advisor_pool
    say "Verifying staged artifacts…"
    check_artifacts lib disk c plan
    say "Preflight checks passed."

  -- The work of a step; 21 and 121 are enough rounds for a framework.
  unfoldable pub work : Install → List PlannedStep → PlannedStep → Action c.S Bool
  unfolding preflight
  work in_ plan ps = elim ps.kind [
    | detect ↦ (do preflight in_ plan; give false)
    | airgap ↦ (do say "Applying air-gap simulation…"; shown c ps.cmd; give false)
    | run ↦ (do say (sprint (ps.title ∷ "…" ∷ [])); shown c ps.cmd; give false)
    | scp_run ↦ copy_and_run lib disk.size c ps
    | framework ↦ run_framework lib c 21 121 ps >>= ended
    | complete ↦ give false
  ]
    where
      -- The rounds are never used up.
      ended : Option Bool → Action c.S Bool
      ended none = refuse "no rounds left"
      ended (some skipped) = give skipped
