-- ===== src/Clusters/Validate.antt =====
-- internal/model/model.go: `Validate`. It gives an error or nothing; what Go's library says of texts is a
-- parameter.
pub mod Accepted
use Prim.Native.String.{String}
use cube_cos_driver.Base.{
  ℕ, ltb, Bool, true, false, not, ◌&&◌, ◌||◌, List, [], ◌∷◌, any_of, Option, none, str_eq,
  if◌then◌else◌,
}
use cube_cos_driver.Clusters.Networks.{Networks, validate_mgmt_cidr}
use cube_cos_driver.Clusters.{
  invalid, or_then, ClusterDetail, NodeConfig, is_empty, role_node_ifs, has_control_func,
  valid_role, if_name, role_if,
}

abbrev pub has_dns : List String → Bool
has_dns [] = false
has_dns (d ∷ ds) = not (str_eq d "")

abbrev pub is_none : List NodeConfig → Bool
is_none [] = true
is_none (n ∷ ns) = false

module _ (quote : String → String) (byte_length : String → ℕ) (parse_ip : String → Bool)
    (nets : Networks) where
  unfoldable pub check_dns : List String → Option String
  check_dns [] = none
  check_dns (d ∷ ds) =
      if not (parse_ip d)
      then invalid ("DNS " ∷ quote d ∷ " is not a valid IP" ∷ [])
      else check_dns ds

  -- The interfaces that a node's role wants.
  unfoldable pub check_ifs : NodeConfig → List String → Option String
  unfolding role_if if_name
  check_ifs n [] = none
  check_ifs n (key ∷ keys) =
      if is_empty (role_if n key) || str_eq (if_name n (role_if n key).id) "None"
      then invalid ("node " ∷ n.hostname ∷ ": " ∷ key ∷ " does not resolve to an interface" ∷ [])
      else check_ifs n keys

  unfoldable pub check_node : List String → NodeConfig → Option String
  unfolding check_ifs valid_role role_node_ifs
  check_node seen n =
      let backend = n.role_settings.stor_if_backend in
      if str_eq n.hostname ""
      then invalid ("node with empty hostname" ∷ [])
      else if any_of (λ h. str_eq h n.hostname) seen
      then invalid ("duplicate hostname " ∷ quote n.hostname ∷ [])
      else if not (valid_role n.role)
      then invalid ("node " ∷ n.hostname ∷ ": unknown role " ∷ quote n.role ∷ [])
      else or_then (check_ifs n (role_node_ifs n.role)) (
          if not (is_empty backend) && str_eq (if_name n backend.id) "None"
          then invalid
              ("node " ∷ n.hostname ∷ ": storIFBackend does not resolve to an interface" ∷ [])
          else none)

  unfoldable pub check_nodes : List String → List NodeConfig → Option String
  unfolding check_node
  check_nodes seen [] = none
  check_nodes seen (n ∷ ns) = or_then (check_node seen n) (check_nodes (n.hostname ∷ seen) ns)

  -- `Validate`.
  unfoldable pub validate : ClusterDetail → Option String
  unfolding check_dns check_nodes has_control_func validate_mgmt_cidr
  validate c =
      let ha = c.cluster_config.ha_settings in
      let controls = any_of (λ n. has_control_func n.role) c.node_data in
      let others = any_of (λ n. not (has_control_func n.role)) c.node_data in
      if ltb (byte_length c.cluster_info.id) 12
      then invalid
          ("cluster id " ∷ quote c.cluster_info.id ∷ " must be at least 12 characters" ∷ [])
      else if str_eq c.cluster_info.name ""
      then invalid ("cluster name is empty" ∷ [])
      else if not (has_dns c.cluster_config.dns)
      then invalid ("at least one DNS server is required" ∷ [])
      else or_then (check_dns c.cluster_config.dns) (
          if c.cluster_config.ha && (str_eq ha.virtual_ip "" || str_eq ha.virtual_hostname "")
          then invalid ("HA requires virtualIP and virtualHostname" ∷ [])
          else if is_none c.node_data
          then invalid ("cluster has no nodes" ∷ [])
          else or_then (check_nodes [] c.node_data) (
              if others && not controls
              then invalid ("compute/storage nodes present but no control-function node" ∷ [])
              else validate_mgmt_cidr quote nets c))
