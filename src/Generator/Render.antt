-- ===== src/Generator/Render.antt =====
-- internal/generator/render.go: the policy files of a node.
pub mod Controllers
use Prim.Native.String.{String}
use cube_cos_driver.Base.{true, false, not, ◌&&◌, List, [], ◌∷◌, ◌++◌, str_eq, if◌then◌else◌}
use cube_cos_driver.Enterprise.Text.{sprint, join}
use cube_cos_driver.Clusters.{
  If, NodeConfig, ClusterConfig, is_empty, all_ifs, if_name, has_control_func, is_one_of,
  role_node_ifs,
}
use cube_cos_driver.Generator.Yaml.{Value, nil, text, flag, header, kv, raw, written}

-- `ControlInfo`.
pub record ControlInfo : Type 0 where
  pub hostnames : List String
  pub ips : List String

-- The first address on the interface.
abbrev pub mgmt_ip : String → List If → String
mgmt_ip id [] = "None"
mgmt_ip id (f ∷ fs) =
    let rest = mgmt_ip id fs in
    if str_eq f.id id && not (str_eq f.ip_addr "") then f.ip_addr else rest

-- `GetControlInfo`.
unfoldable pub get_control_info : List NodeConfig → ControlInfo
unfolding has_control_func all_ifs
get_control_info [] = record { hostnames = []; ips = [] }
get_control_info (n ∷ ns) =
    let rest = get_control_info ns in
    if has_control_func n.role
    then record {
      hostnames = n.hostname ∷ rest.hostnames;
      ips = mgmt_ip n.role_settings.mgmt_if.id (all_ifs n) ∷ rest.ips;
    }
    else rest

-- `clusterOptions`.
unfoldable pub cluster_options : String → List String
cluster_options role =
    if is_one_of role ("control" ∷ "control-converged" ∷ "edge-core" ∷ "moderator" ∷ [])
    then "extIP" ∷ "region" ∷ "secretSeed" ∷ "mgmtCIDR" ∷ []
    else if str_eq role "compute"
    then "ctrlHostname" ∷ "ctrlIP" ∷ "extIP" ∷ "region" ∷ "secretSeed" ∷ []
    else if str_eq role "storage"
    then "ctrlHostname" ∷ "ctrlIP" ∷ "region" ∷ "secretSeed" ∷ []
    else []

-- `nodeOptions`, the same table as RoleNodeIFs.
abbrev pub node_options : String → List String
node_options = role_node_ifs

abbrev pub first_or : Value → List String → Value
first_or v [] = v
first_or v (x ∷ xs) = text x

-- The controller, which an option ctrlHostname may overwrite.
unfoldable pub controller : ClusterConfig → ControlInfo → Value → List String → Value
controller cc ctl v [] = v
controller cc ctl v (opt ∷ opts) =
    controller cc ctl
      (if str_eq opt "ctrlHostname"
        then (if cc.ha then text cc.ha_settings.virtual_hostname else first_or v ctl.hostnames)
        else v)
      opts

abbrev pub cluster_option : ClusterConfig → ControlInfo → String → List String
cluster_option cc ctl opt =
    if str_eq opt "ctrlIP"
    then (if cc.ha
        then kv 0 "controller-ip" (text cc.ha_settings.virtual_ip) ∷ []
        else kv 0 "controller-ip" (first_or nil ctl.ips) ∷ [])
    else if str_eq opt "extIP"
    then kv 0 "external" (text cc.role_settings.ext_ip) ∷ []
    else if str_eq opt "region"
    then kv 0 "region" (text cc.role_settings.region) ∷ []
    else if str_eq opt "secretSeed"
    then kv 0 "secret-seed" (text cc.role_settings.secret_seed) ∷ []
    else if str_eq opt "mgmtCIDR"
    then kv 0 "mgmt-cidr" (text cc.role_settings.mgmt_cidr) ∷ []
    else []

-- The storage network, with its backend when it has one.
abbrev pub storage_of : NodeConfig → String
storage_of n =
    let rs = n.role_settings in
    let storage = if_name n rs.stor_if.id in
    if not (is_empty rs.stor_if_backend)
    then sprint (storage ∷ "," ∷ if_name n rs.stor_if_backend.id ∷ [])
    else storage

abbrev pub node_option : NodeConfig → String → List String
node_option n opt =
    let rs = n.role_settings in
    if str_eq opt "mgmtIF"
    then kv 0 "management" (text (if_name n rs.mgmt_if.id)) ∷ []
    else if str_eq opt "providerIF"
    then kv 0 "provider" (text (if_name n rs.provider_if.id)) ∷ []
    else if str_eq opt "overlayIF"
    then kv 0 "overlay" (text (if_name n rs.overlay_if.id)) ∷ []
    else if str_eq opt "storIF"
    then kv 0 "storage" (text (storage_of n)) ∷ []
    else []

abbrev pub each : (String → List String) → List String → List String
each f [] = []
each f (x ∷ xs) = f x ++ each f xs

-- `RenderCubesys`, line by line and as a text.
unfoldable pub after_controller : NodeConfig → ClusterConfig → ControlInfo → List String
unfolding kv cluster_options role_node_ifs if_name has_control_func
after_controller n cc ctl =
    each (cluster_option cc ctl) (cluster_options n.role)
    ++ each (node_option n) (node_options n.role)
    ++ (if cc.ha
        then ((if has_control_func n.role
              then kv 0 "control-vip" (text cc.ha_settings.virtual_ip) ∷ []
              else [])
            ++ (kv 0 "control-hosts" (text (join "," ctl.hostnames))
                ∷ kv 0 "control-addrs" (text (join "," ctl.ips))
                ∷ []))
        else [])

unfoldable pub cubesys_lines : NodeConfig → ClusterConfig → ControlInfo → List String
unfolding kv controller cluster_options after_controller
cubesys_lines n cc ctl =
    header "cubesys/cubesys1_0.yml"
    ++ (kv 0 "name" (text "cubesys")
        ∷ kv 0 "version" (text "1.0")
        ∷ kv 0 "role" (text n.role)
        ∷ kv 0 "domain" (text "default")
        ∷ kv 0 "ha" (flag cc.ha)
        ∷ kv 0 "saltkey" (flag true)
        ∷ kv 0 "controller" (
            controller cc ctl (if cc.ha then text cc.ha_settings.virtual_hostname else nil)
              (cluster_options n.role))
        ∷ [])
    ++ after_controller n cc ctl

unfoldable pub render_cubesys : NodeConfig → ClusterConfig → ControlInfo → String
unfolding cubesys_lines written
render_cubesys n cc ctl = written (cubesys_lines n cc ctl)

-- `ifType`.
unfoldable pub if_type : If → String
if_type f =
    if str_eq f.kind "vlan"
    then "3"
    else if str_eq f.kind "bond"
    then "1"
    else if str_eq f.kind "init" && str_eq f.master ""
    then "0"
    else "2"

-- `orDefault`.
abbrev pub or_default : String → String → String
or_default s def = if str_eq s "" then def else s

-- What RenderNetwork writes for one interface, and for the DNS servers.
unfoldable pub if_lines : NodeConfig → If → List String
unfolding kv raw if_type if_name
if_lines n f =
    (raw 2 (sprint ("- type: " ∷ if_type f ∷ []))
      ∷ kv 4 "enabled" (flag f.enabled)
      ∷ kv 4 "label" (text f.name)
      ∷ [])
    ++ (if not (str_eq f.master "") then kv 4 "master" (text (if_name n f.master)) ∷ [] else [])
    ++ (kv 4 "speed-duplex" (text "auto") ∷ raw 4 "ipv4:" ∷ kv 6 "dhcp" (flag (not f.enabled)) ∷ [])
    ++ (if f.enabled
        then kv 6 "ipaddr" (text (or_default f.ip_addr "0.0.0.0"))
          ∷ kv 6 "netmask" (text (or_default f.ip_mask "0.0.0.0"))
          ∷ kv 6 "gateway" (if str_eq f.id n.default_if.id then text n.default_gateway else nil)
          ∷ []
        else [])
    ++ (raw 4 "ipv6:" ∷ kv 6 "enabled" (flag true) ∷ kv 6 "dhcp" (flag true) ∷ [])

abbrev pub dns_lines : List String → List String
dns_lines [] = kv 2 "primary" nil ∷ []
dns_lines (a ∷ []) = kv 2 "primary" (text a) ∷ []
dns_lines (a ∷ b ∷ rest) = kv 2 "primary" (text a) ∷ kv 2 "secondary" (text b) ∷ []

abbrev pub each_if : NodeConfig → List If → List String
each_if n [] = []
each_if n (f ∷ fs) = if_lines n f ++ each_if n fs

-- `RenderNetwork`.
unfoldable pub network_lines : NodeConfig → ClusterConfig → List String
unfolding kv raw if_lines if_name all_ifs
network_lines n cc =
    header "network/network1_0.yml"
    ++ (kv 0 "name" (text "network")
        ∷ kv 0 "version" (text "1.0")
        ∷ kv 0 "hostname" (text n.hostname)
        ∷ kv 0 "default-interface" (text (if_name n n.default_if.id))
        ∷ raw 0 "dns:"
        ∷ kv 2 "auto" (flag false)
        ∷ [])
    ++ dns_lines cc.dns
    ++ raw 0 "interfaces:" ∷ each_if n (all_ifs n)

unfoldable pub render_network : NodeConfig → ClusterConfig → String
unfolding network_lines written
render_network n cc = written (network_lines n cc)

-- `RenderTime`.
unfoldable pub render_time : ClusterConfig → String
unfolding kv written
render_time cc = written (
    header "time/time1_0.yml"
    ++ (kv 0 "name" (text "time")
        ∷ kv 0 "version" (text "1.0")
        ∷ kv 0 "timezone" (text cc.timezone.name)
        ∷ []))
