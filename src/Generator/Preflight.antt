-- ===== src/Generator/Preflight.antt =====
-- internal/generator/preflight.go: the links that a node sets up before it is restored, and the peers that
-- it pings over them.
pub mod Peers
pub mod Symmetric
pub mod Prefixes
use Prim.Native.String.{String}
use cube_cos_driver.Base.{
  ℕ, ℤ, pos, Bool, true, false, not, ◌&&◌, List, [], ◌∷◌, ◌++◌, map, Option, none, some, str_eq,
  if◌then◌else◌, Map,
}
use cube_cos_driver.Base.Maps.{lookup, insert}
use cube_cos_driver.Enterprise.Text.{sprint}
use cube_cos_driver.Clusters.{If, NodeConfig, ClusterDetail, all_ifs, if_name}
use cube_cos_driver.Clusters.Bundles.{PfLink, PfPeer, PreflightBundle}
use cube_cos_driver.Generator.{Net}
use cube_cos_driver.Generator.Masks.{mask_to_prefix}

-- `preflightRoles`.
abbrev pub preflight_roles : List String
preflight_roles = "mgmt" ∷ "provider" ∷ "overlay" ∷ "storage" ∷ []

-- `roleIFIDs`.
unfoldable pub role_if_ids : NodeConfig → Map String
role_if_ids n =
    let rs = n.role_settings in
    ("mgmt", rs.mgmt_if.id)
    ∷ ("provider", rs.provider_if.id)
    ∷ ("overlay", rs.overlay_if.id)
    ∷ ("storage", rs.stor_if.id)
    ∷ []

-- `m[key]`, whose zero value is the empty text or list.
abbrev pub text_or_empty : Option String → String
text_or_empty none = ""
text_or_empty (some s) = s

abbrev pub list_or_empty : Option (List String) → List String
list_or_empty none = []
list_or_empty (some xs) = xs

abbrev pub ip_of : String → List If → String
ip_of id [] = ""
ip_of id (f ∷ fs) = if str_eq f.id id then f.ip_addr else ip_of id fs

-- `roleIP`.
unfoldable pub role_ip : NodeConfig → String → String
unfolding role_if_ids all_ifs lookup
role_ip n role =
    let id = text_or_empty (lookup role (role_if_ids n)) in
    if str_eq id "" then "" else ip_of id (all_ifs n)

-- `buildPeers`: for one role and for all.
unfoldable pub peers_on : NodeConfig → String → List NodeConfig → List PfPeer
unfolding role_ip
peers_on self role [] = []
peers_on self role (other ∷ others) =
    let rest = peers_on self role others in
    if str_eq other.hostname self.hostname
    then rest
    else if not (str_eq (role_ip other role) "")
    then record { hostname = other.hostname; role = role; ip = role_ip other role } ∷ rest
    else rest

unfoldable pub peers_of : NodeConfig → List NodeConfig → List String → List PfPeer
unfolding peers_on role_ip
peers_of self all [] = []
peers_of self all (role ∷ roles) =
    let rest = peers_of self all roles in
    if str_eq (role_ip self role) "" then rest else peers_on self role all ++ rest

unfoldable pub build_peers : NodeConfig → List NodeConfig → List PfPeer
unfolding peers_of
build_peers self all = peers_of self all preflight_roles

-- `rolesByIF`.
unfoldable pub roles_by_if : Map String → List String → Map (List String) → Map (List String)
unfolding lookup insert
roles_by_if ids [] by = by
roles_by_if ids (role ∷ roles) by =
    let id = text_or_empty (lookup role ids) in
    roles_by_if ids roles
      (if not (str_eq id "") then insert id (list_or_empty (lookup id by) ++ role ∷ []) by else by)

module _ (net : Net) where
  -- `cidr`.
  abbrev pub with_prefix : String → Option ℕ → String
  with_prefix ip none = ip
  with_prefix ip (some p) = sprint (ip ∷ "/" ∷ net.decimal p ∷ [])

  unfoldable pub cidr : String → String → String
  unfolding mask_to_prefix
  cidr ip mask = if str_eq ip "" then "" else with_prefix ip (mask_to_prefix net mask)

  -- `vlanTag`.
  abbrev pub tag_or_zero : Option ℤ → ℤ
  tag_or_zero none = pos 0
  tag_or_zero (some tag) = tag

  abbrev pub tag_of : Option String → ℤ
  tag_of none = pos 0
  tag_of (some text) = tag_or_zero (net.atoi text)

  unfoldable pub vlan_tag : String → ℤ
  vlan_tag name = tag_of (net.after_dot name)

  -- `buildLinks`: one link, and the enabled ones.
  unfoldable pub build_link : NodeConfig → Map (List String) → If → PfLink
  unfolding cidr vlan_tag if_name lookup
  build_link n by f =
      let is_bond = str_eq f.kind "bond" in
      let is_vlan = str_eq f.kind "vlan" in
      record {
        name = f.name;
        kind = f.kind;
        members = if is_bond then map (if_name n) f.slaves else [];
        parent = if is_vlan && not (str_eq f.master "") then if_name n f.master else "";
        vlan_id = if is_vlan then vlan_tag f.name else pos 0;
        ip = cidr f.ip_addr f.ip_mask;
        roles = list_or_empty (lookup f.id by);
        gateway = if str_eq f.id n.default_if.id then n.default_gateway else "";
      }

  unfoldable pub links_of : NodeConfig → Map (List String) → List If → List PfLink
  unfolding build_link
  links_of n by [] = []
  links_of n by (f ∷ fs) =
      let rest = links_of n by fs in if f.enabled then build_link n by f ∷ rest else rest

  unfoldable pub build_links : NodeConfig → List PfLink
  unfolding links_of roles_by_if role_if_ids all_ifs
  build_links n = links_of n (roles_by_if (role_if_ids n) preflight_roles []) (all_ifs n)

  -- `BuildPreflightBundles`.
  unfoldable pub bundles_of :
      List NodeConfig → List NodeConfig → Map PreflightBundle → Map PreflightBundle
  unfolding build_links build_peers insert
  bundles_of all [] out = out
  bundles_of all (n ∷ ns) out = bundles_of all ns (
      insert n.hostname
        (record { hostname = n.hostname; links = build_links n; peers = build_peers n all }) out)

  unfoldable pub build_preflight_bundles : ClusterDetail → Map PreflightBundle
  unfolding bundles_of
  build_preflight_bundles d = bundles_of d.node_data d.node_data []
