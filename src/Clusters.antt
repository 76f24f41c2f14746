-- ===== src/Clusters.antt =====
-- internal/model/model.go: the description of a cluster. Numbers and texts as in the source; JSON names
-- are dropped.
pub mod Bundles
pub mod Checks
pub mod Networks
pub mod Validate
use Prim.Native.String.{String}
use cube_cos_driver.Enterprise.Text.{sprint}
use cube_cos_driver.Base.{
  ℕ, ℤ, Bool, true, false, ◌||◌, List, [], ◌∷◌, ◌++◌, Option, none, some, any_of, str_eq,
  if◌then◌else◌,
}

pub record If : Type 0 where
  pub id : String
  pub kind : String
  pub name : String
  pub enabled : Bool
  pub ip_addr : String
  pub ip_mask : String
  pub master : String
  pub slaves : List String

pub record IfInfo : Type 0 where
  pub id : String
  pub kind : String

-- `Empty`.
abbrev pub is_empty : IfInfo → Bool
is_empty i = str_eq i.id ""

pub record NodeRoleSettings : Type 0 where
  pub mgmt_if : IfInfo
  pub provider_if : IfInfo
  pub overlay_if : IfInfo
  pub stor_if : IfInfo
  pub stor_if_backend : IfInfo

pub record NodeConfig : Type 0 where
  pub id : String
  pub hostname : String
  pub init_ifs : List If
  pub bond_ifs : List If
  pub vlan_ifs : List If
  pub default_if : IfInfo
  pub default_gateway : String
  pub role : String
  pub role_settings : NodeRoleSettings

pub record Timezone : Type 0 where
  pub name : String
  pub offset : ℤ

pub record ClusterRoleSettings : Type 0 where
  pub ext_ip : String
  pub region : String
  pub secret_seed : String
  pub mgmt_cidr : String

pub record HaSettings : Type 0 where
  pub virtual_ip : String
  pub virtual_hostname : String

pub record SetReadySettings : Type 0 where
  pub create_external : Bool
  pub cidr : String
  pub gateway : String
  pub ip_range : String

pub record ClusterConfig : Type 0 where
  pub dns : List String
  pub timezone : Timezone
  pub role_settings : ClusterRoleSettings
  pub ha : Bool
  pub ha_settings : HaSettings
  pub set_ready : Option SetReadySettings

pub record ClusterInfo : Type 0 where
  pub id : String
  pub name : String

pub record ClusterDetail : Type 0 where
  pub cluster_info : ClusterInfo
  pub cluster_config : ClusterConfig
  pub node_data : List NodeConfig

abbrev pub roles : List String
roles = "control" ∷ "compute" ∷ "storage" ∷ "control-converged" ∷ "edge-core" ∷ "moderator" ∷ []

abbrev pub is_one_of : String → List String → Bool
is_one_of s = any_of (λ r. str_eq r s)

-- `RoleNodeIFs`.
unfoldable pub role_node_ifs : String → List String
role_node_ifs role =
    if is_one_of role ("control" ∷ "storage" ∷ "moderator" ∷ [])
    then "mgmtIF" ∷ "storIF" ∷ []
    else if is_one_of role ("compute" ∷ "control-converged" ∷ "edge-core" ∷ [])
    then "mgmtIF" ∷ "providerIF" ∷ "overlayIF" ∷ "storIF" ∷ []
    else []

-- `HasControlFunc` and `ValidRole`.
unfoldable pub has_control_func : String → Bool
has_control_func role =
    is_one_of role ("control" ∷ "control-converged" ∷ "edge-core" ∷ "moderator" ∷ [])

unfoldable pub valid_role : String → Bool
valid_role role = is_one_of role roles

unfoldable pub all_ifs : NodeConfig → List If
all_ifs n = n.init_ifs ++ (n.bond_ifs ++ n.vlan_ifs)

abbrev pub label : String → List If → String
label id [] = "None"
label id (f ∷ fs) = if str_eq f.id id then f.name else label id fs

-- `IFName`.
unfoldable pub if_name : NodeConfig → String → String
unfolding all_ifs
if_name n id = label id (all_ifs n)

-- `roleIF`.
unfoldable pub role_if : NodeConfig → String → IfInfo
role_if n key =
    if str_eq key "mgmtIF"
    then n.role_settings.mgmt_if
    else if str_eq key "providerIF"
    then n.role_settings.provider_if
    else if str_eq key "overlayIF"
    then n.role_settings.overlay_if
    else if str_eq key "storIF"
    then n.role_settings.stor_if
    else record { id = ""; kind = "" }

-- `invalidf`.
abbrev pub invalid : List String → Option String
invalid parts = some (sprint ("invalid clusterDetail: " ∷ parts))

-- The first error of two checks.
abbrev pub or_then : Option String → Option String → Option String
or_then none next = next
or_then (some e) next = some e
