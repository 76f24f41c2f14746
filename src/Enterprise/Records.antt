-- ===== src/Enterprise/Records.antt =====
-- internal/enterprise/model.go and manifest.go: the records of an installation and of a manifest.
use cube_cos_driver.Base.{ℕ, String, Bool, true, false, List, Option, Map}

-- A module is named by a text; the known texts are constructors of their own.
pub data Module : Type 0 where
  appfw cmp advisor : Module
  unknown_module : String → Module

unfoldable pub module_name : Module → String
module_name appfw = "appfw"
module_name cmp = "cmp"
module_name advisor = "advisor"
module_name (unknown_module s) = s

unfoldable pub is_appfw : Module → Bool
is_appfw appfw = true
is_appfw _ = false

unfoldable pub is_cmp : Module → Bool
is_cmp cmp = true
is_cmp _ = false

unfoldable pub is_advisor : Module → Bool
is_advisor advisor = true
is_advisor _ = false

pub data StepState : Type 0 where
  pending active done error skipped : StepState

pub data RunState : Type 0 where
  running done error cancelled : RunState

pub data Op : Type 0 where
  install uninstall : Op

pub record InstallParams : Type 0 where
  pub project : String
  pub public_net : String
  pub mgmt_net : String
  pub lb_ip : String
  pub os_image : String
  pub extpack_file : String
  pub framework : String
  pub app_file : String
  pub fs_image : String
  pub lb_image : String
  pub advisor_file : String
  pub advisor_lb_ip : String
  pub advisor_pool : List String
  pub advisor_base_url : String
  pub advisor_provider_url : String
  pub advisor_provider_model : String
  pub advisor_provider_key_file : String
  pub storage_backend : String

pub record Step : Type 0 where
  pub name : String
  pub title : String
  pub state : StepState
  pub output : String
  pub err : String
  pub started_at : Option ℕ
  pub finished_at : Option ℕ

pub record Install : Type 0 where
  pub cluster_id : String
  pub module_of : Module
  pub op : Op
  pub host : String
  pub started_at : ℕ
  pub manual : Bool
  pub manual_step : ℕ
  pub simulate_airgap : Bool
  pub params : InstallParams
  pub steps : List Step
  pub current : ℕ
  pub state : RunState
  pub portal : String
  pub warnings : List String
  pub manifest : String
  pub lab : Bool

pub data Kind : Type 0 where
  run scp_run airgap framework detect complete : Kind

pub record PlannedStep : Type 0 where
  pub name : String
  pub title : String
  pub kind : Kind
  pub cmd : String
  pub local_path : String
  pub remote_path : String
  pub image_name : String
  pub present : String
  pub framework : String
  pub lb_ip : String

-- The status of a module's version on a release.
pub record ModuleEntry : Type 0 where
  pub version : String
  pub status : String
  pub reason : String
  pub link : String

pub record ImportSettings : Type 0 where
  pub tenant : String
  pub visibility : String
  pub storage_backend : String
  pub os : String

-- A manifest: `os_image` is that of its `Appfw`, and `advisor_release_key` that of its `Trust`, when
-- there is one.
pub record Manifest : Type 0 where
  pub name : String
  pub version : String
  pub commit : String
  pub build : String
  pub appctl : String
  pub airgap_supported : Option Bool
  pub os_image : Option String
  pub import : ImportSettings
  pub schema : ℕ
  pub advisor_release_key : Option String
  pub modules : Map (List ModuleEntry)
