-- ===== src/Enterprise/Preflight.antt =====
-- internal/enterprise/manager.go: the checks before an installation. The driver's own disk is the record
-- `Disk`; `manifests` are those that `LoadManifests` gives, and `verify` is `VerifyAdvisorBundle`.
pub mod Checks
pub mod Matrix
use Prim.Native.String.{String}
use cube_cos_driver.Base.{
  ℕ, zero, suc, ◌==◌, Bool, true, false, not, ◌&&◌, ◌||◌, List, [], ◌∷◌, map, keep, Option, none,
  some, str_eq, if◌then◌else◌,
}
use cube_cos_driver.Enterprise.Text.{Library, sprint, join}
use cube_cos_driver.Enterprise.Records.{
  Module, is_appfw, is_cmp, is_advisor, Op, install, uninstall, InstallParams, Install, Kind,
  scp_run, PlannedStep, Manifest,
}
use cube_cos_driver.Enterprise.Scripts.Probes.{lb_ip_taken_probe, advisor_console_addr_probe}
use cube_cos_driver.Enterprise.Cluster.{
  Client, Error, Result, ok, failed, Action, ◌>>=◌, ◌>>◌, give, fail, say, refuse, shown, collected,
  teed, succeeds,
}
use cube_cos_driver.Enterprise.Cluster.Probe.{
  list_has_name, plan_has_step, probe_taken, slice_has, ssh_list, trimmed,
}
use cube_cos_driver.Enterprise.Cluster.Copy.{show_image}
use cube_cos_driver.Enterprise.Manifests.{
  parse_version, match_manifest, Verdict, allowed, warned, refused, check_module,
}
use cube_cos_driver.Enterprise.Addresses.{
  advisor_lb_addr_probe, parse_own_lb_addrs, check_advisor_addrs,
}

-- `os.Stat`, `os.ReadFile` and the md5 of a file; a size as `humanSize` writes it.
pub record Disk : Type 0 where
  pub size : String → Option ℕ
  pub content : String → Option String
  pub md5 : String → Option String
  pub human_size : ℕ → String

abbrev pub is_install : Op → Bool
is_install install = true
is_install uninstall = false

abbrev pub no_error : {S : Type 0} → Option String → Action S (Unit {0})
no_error none = give tt
no_error (some why) = refuse why

module _ (lib : Library) (disk : Disk) (c : Client) where
  -- `readMD5Sidecar`.
  unfoldable pub read_md5_sidecar : String → Option String
  read_md5_sidecar path = elim (disk.content path) [
    | none ↦ none
    | some text ↦ elim (lib.fields text) [ [] ↦ none | (f ∷ fs) ↦ some (lib.to_lower f) ]
  ]

  -- An artifact with a sidecar is of the sum that it names.
  unfoldable pub check_sum : String → String → ℕ → Action c.S (Unit {0})
  unfolding read_md5_sidecar
  check_sum name path size = elim (disk.size (sprint (path ∷ ".md5" ∷ []))) [
    | none ↦ say (sprint ("  ✓ " ∷ name ∷ " (" ∷ disk.human_size size ∷ ")" ∷ []))
    | some _ ↦ elim (read_md5_sidecar (sprint (path ∷ ".md5" ∷ []))) [
      | none ↦ refuse (sprint ("cannot read " ∷ name ∷ ".md5" ∷ []))
      | some want ↦ (do
        say (sprint ("  checking integrity of " ∷ name ∷ " (" ∷ disk.human_size size ∷ ")…" ∷ []))
        elim (disk.md5 path) [
          | none ↦ refuse (sprint ("cannot hash " ∷ name ∷ []))
          | some got ↦
              if lib.equal_fold got want
              then say (sprint ("  ✓ " ∷ name ∷ " (" ∷ disk.human_size size ∷ ", md5 ok)" ∷ []))
              else refuse (
                  sprint (
                    "artifact " ∷ name ∷ " failed integrity check (md5 " ∷ got ∷ ", expected "
                    ∷ want
                    ∷ ") — the staged file is truncated or corrupt; re-copy it from the source"
                    ∷ []))
        ])
    ]
  ]

  -- A file that is not staged: what it carries is on the cluster already, or it is missed.
  unfoldable pub check_missing : PlannedStep → String → Action c.S (Unit {0})
  check_missing ps name =
      if not (str_eq ps.present "")
      then (do
        there ← succeeds c ps.present
        if there
            then say (sprint ("  ✓ " ∷ name ∷ " already imported — not needed" ∷ []))
            else refuse (sprint ("missing artifact: " ∷ name ∷ [])))
      else if not (str_eq ps.image_name "")
      then (do
        there ← succeeds c (show_image ps.image_name)
        if there
            then say (
                sprint (
                  "  ✓ " ∷ ps.image_name ∷ " already in glance (extpack) — " ∷ name ∷ " not needed"
                  ∷ []))
            else refuse (
                sprint (
                  "missing artifact: " ∷ name
                  ∷ " (stage it, or import the extpack first: hex_cli -c iaas -c image "
                  ∷ "-c import_extpack local <file>)" ∷ [])))
      else refuse (sprint ("missing artifact: " ∷ name ∷ []))

  abbrev pub has_file : PlannedStep → Bool
  has_file ps = elim ps.kind [ scp_run ↦ not (str_eq ps.local_path "") | _ ↦ false ]

  unfoldable pub check_size : PlannedStep → String → Option ℕ → Action c.S (Unit {0})
  unfolding check_sum check_missing
  check_size ps name none = check_missing ps name
  check_size ps name (some size) =
      if size == 0
      then refuse (sprint ("artifact is empty (0 bytes): " ∷ name ∷ []))
      else check_sum name ps.local_path size

  -- The loop over the files that the plan pushes.
  unfoldable pub check_artifacts : List PlannedStep → Action c.S (Unit {0})
  unfolding check_size
  check_artifacts [] = give tt
  check_artifacts (ps ∷ plan) =
      if has_file ps
      then (do
        check_size ps (lib.base_name ps.local_path) (disk.size ps.local_path)
        check_artifacts plan)
      else check_artifacts plan

  -- An address that must be free; the kind of address it is.
  unfoldable pub must_be_free : String → String → String → Action c.S (Unit {0})
  must_be_free asked what addr = do
    say (sprint ("Checking " ∷ asked ∷ " " ∷ addr ∷ " is free…" ∷ []))
    taken ← probe_taken lib c addr
    if taken
        then refuse (
            sprint (
              what ∷ " " ∷ addr
              ∷ " is already in use (a port or floating IP on this cluster holds it, or it answers "
              ∷ "ARP on the provider network) — pick a free address in the external range" ∷ []))
        else give tt

  -- The console addresses, less those that the advisor holds itself.
  unfoldable pub check_console : List String → List String → Action c.S (Unit {0})
  unfolding must_be_free
  check_console mine [] = give tt
  check_console mine (addr ∷ pool) =
      if str_eq addr ""
      then check_console mine pool
      else if slice_has mine addr
      then (do
        say (
            sprint (
              "Web-console address " ∷ addr ∷ " is already this advisor's own — not probing it."
              ∷ []))
        check_console mine pool)
      else (do
        must_be_free "web-console address" "web-console address" addr
        check_console mine pool)

  -- The advisor's own address.
  unfoldable pub check_advisor : InstallParams → Action c.S (Unit {0})
  unfolding must_be_free
  check_advisor p = do
    no_error (check_advisor_addrs lib p)
    if str_eq p.advisor_lb_ip "" then give tt else (do
      lines ←
          collected c
            (advisor_lb_addr_probe lib (if str_eq p.framework "" then p.project else p.framework))
      if slice_has (parse_own_lb_addrs lib lines).0 p.advisor_lb_ip
          then say (
              sprint (
                "Advisor LB IP " ∷ p.advisor_lb_ip
                ∷ " is already this advisor's own — not probing it." ∷ []))
          else must_be_free "Advisor LB IP" "Advisor LB IP" p.advisor_lb_ip)
