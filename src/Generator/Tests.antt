-- ===== src/Generator/Tests.antt =====
-- The theorems on the generated files at concrete inputs: two nodes on the management network.
pub mod Whole
use Prim.Native.String.{String}
use cube_cos_driver.Base.{
  get_elem?, some, ℕ, ◌≤◌, true, not, ◌&&◌, any_of, ◌≡◌, refl, List, [], ◌∷◌, none, some, str_eq,
  if◌then◌else◌,
}
use cube_cos_driver.Enterprise.Text.{sprint}
use cube_cos_driver.Clusters.{If, IfInfo, NodeConfig, all_ifs}
use cube_cos_driver.Generator.{Octets, Net}
use cube_cos_driver.Generator.Masks.{size, bytes, valid_ipv4_mask}
use cube_cos_driver.Generator.Masks.Bounds.{Leads, valid_ipv4_mask-Leads}
use cube_cos_driver.Generator.Validate.{validate_node_network}
use cube_cos_driver.Generator.Preflight.{preflight_roles, build_peers, cidr}
use cube_cos_driver.Generator.Preflight.Peers.{lists, is_on, has_node, build_peers-lists}
use cube_cos_driver.Clusters.Bundles.{PfLink}
use cube_cos_driver.Generator.Preflight.{build_links}
use cube_cos_driver.Generator.Preflight.Prefixes.{build_links-validate_node_network}

-- A library that knows two masks and takes everything else for an address.
abbrev pub net : Net
net = record {
  trim_space = λ s. s;
  parse_v4 = λ s.
      if str_eq s "255.255.0.0"
      then some (record { first = 255; second = 255; third = 0; fourth = 0 })
      else if str_eq s ""
      then none
      else some (record { first = 10; second = 0; third = 0; fourth = 1 });
  quote = λ s. s;
  decimal = λ n. "16";
  after_dot = λ s. none;
  atoi = λ s. none;
}

abbrev pub no_if : IfInfo
no_if = record { id = ""; kind = "" }

abbrev pub nic : String → If
nic ip = record {
  id = "if1";
  kind = "init";
  name = "IF.1";
  enabled = true;
  ip_addr = ip;
  ip_mask = "255.255.0.0";
  master = "";
  slaves = [];
}

abbrev pub node : String → String → NodeConfig
node name ip = record {
  id = name;
  hostname = name;
  init_ifs = nic ip ∷ [];
  bond_ifs = [];
  vlan_ifs = [];
  default_if = no_if;
  default_gateway = "";
  role = "control";
  role_settings = record {
    mgmt_if = record { id = "if1"; kind = "init" };
    provider_if = no_if;
    overlay_if = no_if;
    stor_if = no_if;
    stor_if_backend = no_if;
  };
}

abbrev pub nodes : List NodeConfig
nodes = node "n1" "10.0.0.1" ∷ node "n2" "10.0.0.2" ∷ []

build_peers-lists_example :
    lists "n2" "mgmt" "10.0.0.2" (build_peers (node "n1" "10.0.0.1") nodes) ≡ (
      (any_of (λ r. str_eq r "mgmt") preflight_roles && is_on (node "n1" "10.0.0.1") "mgmt")
      && (not (str_eq "n2" "n1") && has_node "n2" "mgmt" "10.0.0.2" nodes))
build_peers-lists_example = build_peers-lists (node "n1" "10.0.0.1") nodes "n2" "mgmt" "10.0.0.2"

valid_ipv4_mask-Leads_example :
    (o : Octets) × ((net.parse_v4 "255.255.0.0" ≡ some o)
      × ((1 ≤ size o) × (size o ≤ 32) × Leads (size o) (bytes o)))
unfolding valid_ipv4_mask
valid_ipv4_mask-Leads_example = valid_ipv4_mask-Leads net "255.255.0.0" refl

build_links-validate_node_network_example :
    (j : ℕ) × (l : PfLink) × (p : ℕ) × ((get_elem? (build_links net (node "n1" "10.0.0.1")) j
        ≡ some l)
      × ((l.name ≡ (nic "10.0.0.1").name) × (l.ip ≡ sprint ("10.0.0.1" ∷ "/" ∷ net.decimal p ∷ [])))
      × ((1 ≤ p) × (p ≤ 32)))
unfolding validate_node_network all_ifs
build_links-validate_node_network_example =
    build_links-validate_node_network net (node "n1" "10.0.0.1") 0 (nic "10.0.0.1") refl refl refl
      refl refl
