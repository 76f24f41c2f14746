-- ===== src/Enterprise/Cluster/Probe.antt =====
-- internal/enterprise/manager.go: the questions that an installation asks a cluster.
use Prim.Native.String.{String}
use cube_cos_driver.Base.{
  ℤ, negsuc, Bool, false, not, List, [], ◌∷◌, keep, map, any_of, Option, none, some, str_eq,
  if◌then◌else◌,
}
use cube_cos_driver.Enterprise.Text.{Library, sprint, join, contains_text}
use cube_cos_driver.Enterprise.Records.{PlannedStep}
use cube_cos_driver.Enterprise.Scripts.Probes.{lb_ip_taken_probe}
use cube_cos_driver.Enterprise.Cluster.{
  Client, ok, failed, Action, ◌>>=◌, ◌>>◌, give, say, collected, shown,
}

-- `cliFailureMarker`: a failure that a command prints although it ends well.
unfoldable pub cli_failure_marker : String → String
cli_failure_marker output =
    if contains_text output "Invalid arguments."
    then "cluster rejected the command (invalid arguments)"
    else if contains_text output "openpgp: key expired"
    then "app-framework tooling failed: signing key expired on the cluster"
    else if contains_text output "failed to init"
    then "app-framework failed to initialize on the cluster"
    else ""

-- `planHasStep` and `sliceHas`.
unfoldable pub plan_has_step : List PlannedStep → String → Bool
plan_has_step plan name = any_of (λ ps. str_eq ps.name name) plan

abbrev pub slice_has : List String → String → Bool
slice_has xs v = any_of (λ x. str_eq x v) xs

-- The trimmed lines that are not empty.
abbrev pub trimmed : Library → List String → List String
trimmed lib lines = keep (λ l. not (str_eq l "")) (map lib.trim_space lines)

abbrev pub first_of : List String → Option String
first_of [] = none
first_of (x ∷ xs) = some x

module _ (lib : Library) where
  -- `listHasName`.
  unfoldable pub list_has_name : List String → String → Bool
  list_has_name lines name = any_of (λ l. slice_has (lib.fields l) name) lines

module _ (lib : Library) (c : Client) where
  -- `remoteFileSize`: minus one when the file is not there.
  unfoldable pub remote_file_size : String → Action c.S ℤ
  remote_file_size path = do
    out ← collected c (sprint ("stat -c %s " ∷ lib.quote path ∷ " 2>/dev/null || true" ∷ []))
    give (elim (first_of (trimmed lib out)) [
      | none ↦ negsuc 0
      | some x ↦ if lib.parses x then lib.int_value x else negsuc 0
    ])

  -- `probeTaken`: a probe that fails counts as free.
  unfoldable pub probe_taken : String → Action c.S Bool
  probe_taken addr s =
      let (out, e, s') = c.run (lb_ip_taken_probe addr) s in
      ([], ok (elim e [ some _ ↦ false | none ↦ slice_has (map lib.trim_space out) "taken" ]), s')

  -- `sshList`.
  unfoldable pub ssh_list : String → Action c.S (List String)
  ssh_list cmd s =
      let (out, e, s') = c.run cmd s in
      ([], elim e [ some x ↦ failed x | none ↦ ok (trimmed lib out) ], s')

  -- `registryProbe`.
  unfoldable pub registry_probe : String → String → Action c.S String
  registry_probe name lbip = do
    out ← collected c (
        sprint (
          "curl -sk -o /dev/null -w '%{http_code}' --resolve " ∷ name ∷ ".registry.cubecos.com:443:"
          ∷ lbip ∷ " --max-time 15 https://" ∷ name
          ∷ ".registry.cubecos.com/api/v2.0/systeminfo 2>/dev/null" ∷ []))
    give (join "" (map lib.trim_space out))

  -- `ensureAmphoraTag`.
  unfoldable pub ensure_amphora_tag : Action c.S (Unit {0})
  ensure_amphora_tag = do
    out ←
        collected c
          "source /etc/admin-openrc.sh && openstack image show amphora-x64-haproxy -f value -c tags 2>/dev/null"
    if contains_text (join " " out) "amphora" then give tt else (do
      say "Amphora image is missing the 'amphora' tag Octavia requires — tagging it…"
      shown c
          "source /etc/admin-openrc.sh && openstack image set --tag amphora amphora-x64-haproxy")
