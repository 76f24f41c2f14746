-- ===== src/Generator/Tests/Whole.antt =====
-- The theorems on a whole description, at one with a control node and a compute node.
use Prim.Native.String.{String}
use cube_cos_driver.Base.{
  ℕ, ◌≤◌, true, false, not, ◌&&◌, ◌||◌, all_of, any_of, ◌≡◌, refl, ◌⊎◌, List, [], ◌∷◌, ◌++◌, none,
  some, str_eq, if◌then◌else◌, pos,
}
use cube_cos_driver.Clusters.{NodeConfig, ClusterDetail, has_control_func, all_ifs}
use cube_cos_driver.Clusters.Networks.{
  Network, Cidr, Networks, cidr_mask, contains, validate_mgmt_cidr,
}
use cube_cos_driver.Clusters.Networks.Apart.{is_zero, leads}
use cube_cos_driver.Clusters.Networks.Apart.Passed.{real_networks, node_nets, if_nets}
use cube_cos_driver.Clusters.Networks.Apart.Ranges.{validate_mgmt_cidr-apart}
use cube_cos_driver.Clusters.Validate.{is_none, validate}
use cube_cos_driver.Clusters.Validate.Accepted.{is_complete, are_distinct, validate-accepted}
use cube_cos_driver.Generator.Yaml.{text, flag, header, kv, written}
use cube_cos_driver.Generator.Render.{get_control_info, render_cubesys}
use cube_cos_driver.Generator.Render.Controllers.{controller_name, render_cubesys-validate}
use cube_cos_driver.Generator.Tests.{no_if, nic}

abbrev full_node : String → String → NodeConfig
full_node name role = record {
  id = name;
  hostname = name;
  init_ifs = nic "10.0.0.1" ∷ [];
  bond_ifs = [];
  vlan_ifs = [];
  default_if = no_if;
  default_gateway = "10.0.0.9";
  role = role;
  role_settings = record {
    mgmt_if = record { id = "if1"; kind = "init" };
    provider_if = record { id = "if1"; kind = "init" };
    overlay_if = record { id = "if1"; kind = "init" };
    stor_if = record { id = "if1"; kind = "init" };
    stor_if_backend = no_if;
  };
}

abbrev pub cluster : ClusterDetail
cluster = record {
  cluster_info = record { id = "0123456789ab"; name = "lab" };
  cluster_config = record {
    dns = "10.0.0.3" ∷ [];
    timezone = record { name = "UTC"; offset = pos 0 };
    role_settings = record {
      ext_ip = "10.0.0.4";
      region = "r";
      secret_seed = "s";
      mgmt_cidr = "255.255.0.0/16";
    };
    ha = false;
    ha_settings = record { virtual_ip = ""; virtual_hostname = "" };
    set_ready = none;
  };
  node_data = full_node "n1" "control" ∷ full_node "n2" "compute" ∷ [];
}

abbrev range : Cidr
range = record { base = cidr_mask 32 16; ones = 16 }

-- A library that reads one mask, no address from the empty text, and one address from every other.
abbrev pub networks : Networks
networks = record {
  parse_v4 = λ s.
      if str_eq s "255.255.0.0"
      then some (cidr_mask 32 16)
      else if str_eq s ""
      then none
      else some (cidr_mask 32 8);
  parse_cidr = λ s. some range;
  show = λ n. "";
}

abbrev subnet : Network
subnet = record { addr = cidr_mask 32 8; mask = cidr_mask 32 16 }

validate_mgmt_cidr-apart_example :
    (◌≡◌ {A = ℕ} 16 16 ⊎ (◌≡◌ {A = ℕ} 16 8)) × (contains subnet (cidr_mask 32 32) ≡ false)
unfolding validate_mgmt_cidr real_networks node_nets if_nets leads is_zero contains all_ifs
validate_mgmt_cidr-apart_example =
    validate_mgmt_cidr-apart (λ s. s) networks cluster range 0 subnet (cidr_mask 32 32) refl refl
      refl refl refl refl

validate-accepted_example :
    (12 ≤ 12)
    × ((is_none cluster.node_data ≡ false)
        × (all_of is_complete cluster.node_data ≡ true)
        × (are_distinct cluster.node_data ≡ true))
    × ((not (any_of (λ n. not (has_control_func n.role)) cluster.node_data)
          || any_of (λ n. has_control_func n.role) cluster.node_data)
        ≡ true)
    × ((cluster.cluster_config.ha
          && (str_eq cluster.cluster_config.ha_settings.virtual_ip ""
              || str_eq cluster.cluster_config.ha_settings.virtual_hostname ""))
        ≡ false)
    × (validate_mgmt_cidr (λ s. s) networks cluster ≡ none)
unfolding validate all_ifs
validate-accepted_example = validate-accepted (λ s. s) (λ s. 12) (λ s. true) networks cluster refl

render_cubesys-validate_example :
    (str_eq (controller_name cluster) "" ≡ false)
    × (rest : List String) × (render_cubesys
          (full_node "n2" "compute")
          cluster.cluster_config
          (get_control_info cluster.node_data)
        ≡ written (
            header "cubesys/cubesys1_0.yml"
            ++ (kv 0 "name" (text "cubesys")
                ∷ kv 0 "version" (text "1.0")
                ∷ kv 0 "role" (text "compute")
                ∷ kv 0 "domain" (text "default")
                ∷ kv 0 "ha" (flag cluster.cluster_config.ha)
                ∷ kv 0 "saltkey" (flag true)
                ∷ kv 0 "controller" (text (controller_name cluster))
                ∷ rest)))
unfolding validate all_ifs has_control_func
render_cubesys-validate_example =
    render_cubesys-validate (λ s. s) (λ s. 12) (λ s. true) networks cluster 1
      (full_node "n2" "compute") refl refl refl
