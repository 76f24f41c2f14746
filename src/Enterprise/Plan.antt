-- ===== src/Enterprise/Plan.antt =====
-- internal/enterprise/plan.go: the steps of an installation and of a removal. What is asked of the
-- driver's own disk is the parameter `exists`; the keycloak script, an embedded file, is `keycloak`.
pub mod Order
use Prim.Native.String.{String}
use cube_cos_driver.Base.{
  Bool, true, false, ◌&&◌, ◌||◌, not, List, [], ◌∷◌, ◌++◌, Option, none, some, str_eq,
  if◌then◌else◌,
}
use cube_cos_driver.Enterprise.Text.{Library, sprint, join, shell_quote}
use cube_cos_driver.Enterprise.Records.{
  Module, appfw, cmp, advisor, is_appfw, is_cmp, is_advisor, InstallParams, Kind, run, scp_run,
  airgap, framework, detect, complete, PlannedStep, Manifest, ImportSettings,
}
use cube_cos_driver.Enterprise.Scripts.{
  framework_lb_sweep, advisor_lb_sweep_script, extpack_present,
}

abbrev pub cephfs_glance : String
cephfs_glance = "/mnt/cephfs/glance"

abbrev pub cephfs_update : String
cephfs_update = "/mnt/cephfs/update"

abbrev pub portal_install_script : String
portal_install_script = "cube-portal-install.sh"

abbrev pub portal_uninstall_script : String
portal_uninstall_script = "cube-portal-uninstall.sh"

abbrev pub advisor_install_script : String
advisor_install_script = "cube-advisor-install.sh"

abbrev pub advisor_uninstall_script : String
advisor_uninstall_script = "cube-advisor-uninstall.sh"

-- A step of the kind, with nothing else set.
abbrev pub step : String → String → Kind → PlannedStep
step name title kind = record {
  name = name;
  title = title;
  kind = kind;
  cmd = "";
  local_path = "";
  remote_path = "";
  image_name = "";
  present = "";
  framework = "";
  lb_ip = "";
}

abbrev pub text_or : String → String → String
text_or s fallback = if str_eq s "" then fallback else s

abbrev pub default_settings : ImportSettings
default_settings = record {
  tenant = "admin";
  visibility = "public";
  storage_backend = "CubeStorage";
  os = "Others";
}

-- `importDefaults`.
unfoldable pub import_defaults : Option Manifest → ImportSettings
import_defaults none = default_settings
import_defaults (some m) = record {
  tenant = text_or m.import.tenant "admin";
  visibility = text_or m.import.visibility "public";
  storage_backend = text_or m.import.storage_backend "CubeStorage";
  os = text_or m.import.os "Others";
}

abbrev pub when_step : Bool → List PlannedStep → List PlannedStep
when_step true steps = steps
when_step false steps = []

abbrev pub appctl_of : Option Manifest → String
appctl_of none = ""
appctl_of (some m) = m.appctl

abbrev pub name_of : Option Manifest → String
name_of none = ""
name_of (some m) = m.name

module _ (lib : Library) where
  -- `advisorBaseURL`.
  unfoldable pub advisor_base_url : InstallParams → String
  advisor_base_url p =
      let s : String = lib.trim_space p.advisor_base_url in
      if str_eq s "" then sprint ("https://" ∷ p.advisor_lb_ip ∷ []) else lib.trim_slashes s

module _ (lib : Library) (exists : String → Bool) (keycloak : String) where
  open lib use {join_path, base_name, trim_suffix, trim_prefix, encode}

  airgap_steps : List PlannedStep
  airgap_steps =
      record (step "airgap-apply" "Apply air-gap simulation" airgap) {
        cmd = sprint (
            "cubectl node exec -p 'if grep -rqw airgap_sim_apply /usr/lib/hex_sdk/modules/; then "
            ∷ "hex_sdk airgap_sim_apply; else echo \"airgap_sim_apply not on this image — "
            ∷ "air-gap simulation skipped\"; fi'" ∷ []);
      }
      ∷ []

  appctl_steps : String → Option Manifest → List PlannedStep
  appctl_steps dir m =
      let path : String = join_path dir "appfw" (appctl_of m) in
      when_step (not (str_eq (appctl_of m) "") && exists path) (
        record (step "update_appctl"
          (sprint ("Update appctl (" ∷ name_of m ∷ " signing-key fix)" ∷ [])) scp_run) {
            cmd = "chmod +x /usr/local/bin/appctl && hex_cli -c app -c framework_list";
            local_path = path;
            remote_path = "/usr/local/bin";
          }
        ∷ [])

  extpack_steps : InstallParams → String → List PlannedStep
  extpack_steps p dir =
      record (step "import_extpack" "Import App-Framework images (extpack)" scp_run) {
        cmd =
            sprint (
              "hex_cli -c iaas -c image -c import_extpack local "
              ∷ shell_quote p.extpack_file
              ∷ []);
        local_path = join_path dir "appfw" p.extpack_file;
        remote_path = cephfs_glance;
        present = extpack_present (shell_quote (trim_suffix p.os_image ".raw"));
      }
      ∷ []

  image_steps : InstallParams → ImportSettings → String → List PlannedStep
  image_steps p i dir =
      let os_image_name : String = trim_suffix p.os_image ".raw" in
      record (step "import_fs" "Import Manila filesystem image" scp_run) {
        cmd = sprint ("hex_cli -c iaas -c image -c import_fs local " ∷ p.fs_image ∷ []);
        local_path = join_path dir "appfw" p.fs_image;
        remote_path = cephfs_glance;
        image_name = "manila-service-image";
      }
      ∷ record (step "import_lb" "Import Amphora load balancer image" scp_run) {
        cmd = sprint ("hex_cli -c iaas -c image -c import_lb local " ∷ p.lb_image ∷ []);
        local_path = join_path dir "appfw" p.lb_image;
        remote_path = cephfs_glance;
        image_name = "amphora-x64-haproxy";
      }
      ∷ record (step "import" "Import Rancher cluster image" scp_run) {
        cmd = sprint (
            "hex_cli -c iaas -c image -c import local "
            ∷ p.os_image
            ∷ " "
            ∷ os_image_name
            ∷ " default "
            ∷ i.tenant
            ∷ " 'from Bigstack' "
            ∷ i.visibility
            ∷ " "
            ∷ text_or p.storage_backend i.storage_backend
            ∷ " "
            ∷ i.os
            ∷ []);
        local_path = join_path dir "appfw" p.os_image;
        remote_path = cephfs_glance;
        image_name = os_image_name;
      }
      ∷ []

  create_steps : InstallParams → List PlannedStep
  create_steps p =
      record (step "framework_create" "Create app framework" framework) {
        framework = p.project;
        lb_ip = p.lb_ip;
        cmd = sprint (
            "hex_cli -c app -c framework_create "
            ∷ p.project
            ∷ " "
            ∷ p.public_net
            ∷ " "
            ∷ p.mgmt_net
            ∷ " "
            ∷ p.lb_ip
            ∷ " "
            ∷ trim_suffix p.os_image ".raw"
            ∷ []);
      }
      ∷ []

  -- The framework's images and its creation, when there is an OS image to create it from.
  framework_steps : Module → InstallParams → String → Option Manifest → List PlannedStep
  unfolding extpack_steps image_steps create_steps
  framework_steps m p dir mf = when_step (is_appfw m || not (str_eq p.os_image "")) (
      (if not (str_eq p.extpack_file "")
        then extpack_steps p dir
        else image_steps p (import_defaults mf) dir)
      ++ create_steps p)

  cmp_steps : InstallParams → String → List PlannedStep
  cmp_steps p dir =
      let chart_ver : String = trim_suffix (trim_prefix p.app_file "cube-portal-") ".pigz" in
      let kc : String = sprint ("keycloak-extensions-" ∷ chart_ver ∷ ".tgz" ∷ []) in
      record (step "app_register" "Register CubeCMP application" scp_run) {
        cmd = sprint (
            "hex_cli -c app -c app_register " ∷ cephfs_update ∷ "/" ∷ p.app_file ∷ " " ∷ p.framework
            ∷ " skip_flavor" ∷ []);
        local_path = join_path dir "cubecmp" p.app_file;
        remote_path = cephfs_update;
      }
        ∷ when_step (exists (join_path dir "cubecmp" kc)) (
            record (step "keycloak_extensions" "Add CubeCMP Keycloak extensions" scp_run) {
              cmd = sprint (
                  "echo "
                  ∷ encode keycloak
                  ∷ " | base64 -d | bash -s -- "
                  ∷ shell_quote (sprint ("/tmp/" ∷ kc ∷ []))
                  ∷ []);
              local_path = join_path dir "cubecmp" kc;
              remote_path = "/tmp";
            }
            ∷ [])
      ++ record (step "install_portal" "Deploy + verify CubeCMP portal" scp_run) {
        cmd = sprint (
            "bash /tmp/" ∷ portal_install_script ∷ " " ∷ p.project ∷ " " ∷ p.lb_ip ∷ " " ∷ chart_ver
            ∷ []);
        local_path = join_path dir "cubecmp" portal_install_script;
        remote_path = "/tmp";
      }
        ∷ step "complete" "Installation complete" complete
        ∷ []

  -- Where the provider's key is staged, if there is one.
  abbrev remote_key : InstallParams → String
  remote_key p =
      if str_eq p.advisor_provider_key_file ""
      then ""
      else sprint ("/tmp/" ∷ base_name p.advisor_provider_key_file ∷ [])

  advisor_steps : InstallParams → String → List PlannedStep
  unfolding advisor_base_url
  advisor_steps p dir =
      let chart_ver : String = trim_suffix (trim_prefix p.advisor_file "cube-advisor-") ".pigz" in
      record (step "advisor_register" "Register Cube AI Advisor application" scp_run) {
        cmd = sprint (
            "hex_sdk app_import " ∷ cephfs_update ∷ "/" ∷ p.advisor_file ∷ " " ∷ p.framework
            ∷ " skip_flavor" ∷ []);
        local_path = join_path dir "advisor" p.advisor_file;
        remote_path = cephfs_update;
      }
        ∷ when_step (not (str_eq p.advisor_provider_key_file "")) (
            record (step "advisor_provider_key" "Stage the inference provider key" scp_run) {
              cmd = sprint ("chmod 0600 " ∷ shell_quote (remote_key p) ∷ []);
              local_path = p.advisor_provider_key_file;
              remote_path = "/tmp";
            }
            ∷ [])
      ++ record (step "install_advisor" "Deploy + verify Cube AI Advisor" scp_run) {
        cmd = sprint (
            "bash /tmp/"
            ∷ advisor_install_script
            ∷ " "
            ∷ p.project
            ∷ " "
            ∷ p.advisor_lb_ip
            ∷ " "
            ∷ chart_ver
            ∷ " "
            ∷ advisor_base_url lib p
            ∷ " "
            ∷ shell_quote (join "," p.advisor_pool)
            ∷ " "
            ∷ shell_quote "advisor"
            ∷ " "
            ∷ shell_quote (remote_key p)
            ∷ " "
            ∷ shell_quote p.advisor_provider_url
            ∷ " "
            ∷ shell_quote p.advisor_provider_model
            ∷ []);
        local_path = join_path dir "advisor" advisor_install_script;
        remote_path = "/tmp";
      }
        ∷ step "complete" "Installation complete" complete
        ∷ []

  -- `BuildPlan`.
  unfoldable pub build_plan :
      Module → InstallParams → Bool → String → Option Manifest → List PlannedStep
  unfolding airgap_steps appctl_steps framework_steps cmp_steps advisor_steps
  build_plan m p simulate dir mf =
      step "preflight" "Preflight checks" detect ∷ when_step simulate airgap_steps
      ++ (appctl_steps dir mf
          ++ (framework_steps m p dir mf
              ++ (when_step (is_cmp m) (cmp_steps p dir)
                  ++ when_step (is_advisor m) (advisor_steps p dir))))

  -- The steps that remove a module, between the first and the last.
  removal_steps : Module → InstallParams → String → List PlannedStep
  removal_steps cmp p dir =
      record (step "uninstall_portal" "Uninstall CubeCMP portal" scp_run) {
        cmd =
            sprint
              ("bash /tmp/" ∷ portal_uninstall_script ∷ " " ∷ text_or p.framework p.project ∷ []);
        local_path = join_path dir "cubecmp" portal_uninstall_script;
        remote_path = "/tmp";
      }
      ∷ []
  removal_steps advisor p dir =
      record (step "uninstall_advisor" "Uninstall Cube AI Advisor" scp_run) {
        cmd =
            sprint
              ("bash /tmp/" ∷ advisor_uninstall_script ∷ " " ∷ text_or p.framework p.project ∷ []);
        local_path = join_path dir "advisor" advisor_uninstall_script;
        remote_path = "/tmp";
      }
      ∷ record (step "advisor_lb_sweep" "Reap the advisor's leaked load balancer" run) {
        cmd = advisor_lb_sweep_script (text_or p.framework p.project);
      }
      ∷ []
  removal_steps appfw p dir =
      record (step "framework_delete" "Delete app framework (removes all apps on it)" run) {
        cmd = sprint ("hex_cli -c app -c framework_delete " ∷ text_or p.project p.framework ∷ []);
      }
      ∷ record (step "lb_sweep" "Reap orphaned ingress load balancers" run) {
        cmd = framework_lb_sweep (text_or p.project p.framework);
      }
      ∷ []
  removal_steps _ p dir = []

  -- `BuildUninstallPlan`.
  unfoldable pub build_uninstall_plan : Module → InstallParams → String → List PlannedStep
  unfolding removal_steps
  build_uninstall_plan m p dir =
      step "preflight" "Preflight checks" detect ∷ removal_steps m p dir
      ++ step "complete" "Uninstall complete" complete ∷ []
