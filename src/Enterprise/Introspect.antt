-- ===== src/Enterprise/Introspect.antt =====
-- internal/enterprise/manager.go: `Introspect`, which fills in the form of an installation.
use Prim.Native.String.{String}
use cube_cos_driver.Base.{ℕ, Bool, false, List, [], ◌∷◌, Option, none, some, str_eq, if◌then◌else◌}
use cube_cos_driver.Enterprise.Text.{Library}
use cube_cos_driver.Enterprise.Records.{Manifest}
use cube_cos_driver.Enterprise.Scripts.Probes.{
  lb_ip_pool_probe, advisor_console_addr_probe, storage_probe, existing_framework_lb_probe,
}
use cube_cos_driver.Enterprise.Manifests.{manifest_names, parse_version, match_manifest}
use cube_cos_driver.Enterprise.Cluster.{Client, Action, ◌>>=◌, give, collected}
use cube_cos_driver.Enterprise.Cluster.Probe.{ssh_list, trimmed}
use cube_cos_driver.Enterprise.Addresses.{advisor_lb_addr_probe, parse_own_lb_addrs, suggest_addrs}

-- `ClusterQuery`.
pub record ClusterQuery : Type 0 where
  pub projects : List String
  pub networks : List String
  pub airgap_supported : Bool
  pub suggested_lb_ip : String
  pub suggested_storage : String
  pub version : String
  pub manifest : String
  pub manifest_os_image : String
  pub manifests : List String
  pub suggested_advisor_lb_ip : String
  pub suggested_advisor_pool : List String

-- `advisorPoolSize`, and the numbers of addresses that are asked for, as they are printed.
abbrev pub advisor_pool_size : ℕ
advisor_pool_size = 3

abbrev pub wanted : String → String
wanted lb_ip = if str_eq lb_ip "" then "4" else "3"

abbrev pub first_or : String → List String → String
first_or fallback [] = fallback
first_or fallback (x ∷ xs) = x

abbrev pub is_yes : List String → Bool
is_yes [] = false
is_yes (x ∷ xs) = str_eq x "yes"

-- What the cluster's own manifest adds; only an explicit value overrides the probe.
abbrev pub or_probed : Option Bool → Bool → Bool
or_probed none probed = probed
or_probed (some b) probed = b

abbrev pub or_empty : Option String → String
or_empty none = ""
or_empty (some s) = s

unfoldable pub with_manifest : Option Manifest → ClusterQuery → ClusterQuery
with_manifest none q = q
with_manifest (some mf) q = record q {
  manifest = mf.name;
  manifest_os_image = or_empty mf.os_image;
  airgap_supported = or_probed mf.airgap_supported q.airgap_supported;
}

module _ (lib : Library) (manifests : List Manifest) where
  unfoldable pub with_version : List String → ClusterQuery → ClusterQuery
  unfolding with_manifest
  with_version [] q = q
  with_version (v ∷ vs) q =
      let (version, build, commit) = parse_version lib v in
      with_manifest (match_manifest lib manifests version build commit)
        (record q { version = version })

module _ (lib : Library) (manifests : List Manifest) (c : Client) where
  -- `sshList`, its error passed over.
  abbrev pub read : String → Action c.S (List String)
  read cmd = do lines ← collected c cmd; give (trimmed lib lines)

  -- The address of a framework that is there already.
  unfoldable pub framework_address : String → Action c.S String
  framework_address framework =
      if str_eq framework ""
      then give ""
      else (do ip ← read (existing_framework_lb_probe framework); give (first_or "" ip))

  -- `Introspect`, once the connection is made.
  unfoldable pub introspect : String → Action c.S ClusterQuery
  unfolding framework_address with_version
  introspect framework = do
    projects ← ssh_list lib c "hex_sdk os_list_project_by_domain_basic default"
    networks ←
        ssh_list lib c "source /etc/admin-openrc.sh && openstack network list -f value -c Name"
    airgap ← read "grep -rlqw airgap_sim_apply /usr/lib/hex_sdk/modules/ && echo yes || echo no"
    lb_ip ← framework_address framework
    own_lb ← read (advisor_lb_addr_probe lib framework)
    own_console ← read advisor_console_addr_probe
    free ← read (lb_ip_pool_probe (wanted lb_ip))
    storage ← read storage_probe
    etc_version ← read "cat /etc/version"
    give (answer projects networks airgap lb_ip own_lb own_console free storage etc_version)
    where
      answer :
          List String
          → List String
          → List String
          → String
          → List String
          → List String
          → List String
          → List String
          → List String
          → ClusterQuery
      answer projects networks airgap lb_ip own_lb own_console free storage etc_version =
          let (fw, own, pool) =
            suggest_addrs free lb_ip (parse_own_lb_addrs lib own_lb).1 own_console 2 in
          with_version lib manifests etc_version (record {
            projects = projects;
            networks = networks;
            airgap_supported = is_yes airgap;
            suggested_lb_ip = fw;
            suggested_storage = first_or "" storage;
            version = "";
            manifest = "";
            manifest_os_image = "";
            manifests = manifest_names manifests;
            suggested_advisor_lb_ip = own;
            suggested_advisor_pool = pool;
          })
