-- ===== src/Clusters/Validate/Accepted.antt =====
-- What a description of a cluster is when Validate accepts it.
use Prim.Native.String.{String}
use cube_cos_driver.Base.{
  ℕ, ◌≤◌, ltb, Bool, true, false, not, ◌&&◌, ◌||◌, all_of, any_of, ◌≡◌, refl, List, [], ◌∷◌, none,
  arith, &&-true, str_eq, eq_iff,
}
use cube_cos_driver.Clusters.{
  ClusterDetail, NodeConfig, is_empty, role_node_ifs, has_control_func, valid_role, if_name,
  role_if,
}
use cube_cos_driver.Clusters.Checks.{or_then-none, refuse-none, is_true}
use cube_cos_driver.Clusters.Networks.{Networks, validate_mgmt_cidr}
use cube_cos_driver.Clusters.Validate.{
  check_dns, check_ifs, check_node, check_nodes, has_dns, is_none, validate,
}

-- The interface of a role is named and is one of the node's.
unfoldable pub resolves : NodeConfig → String → Bool
resolves n key =
    not (is_empty (role_if n key)) && not (str_eq (if_name n (role_if n key).id) "None")

-- A node with a name, a role, and every interface that the role wants.
unfoldable pub is_complete : NodeConfig → Bool
is_complete n =
    not (str_eq n.hostname "") && (valid_role n.role && all_of (resolves n) (role_node_ifs n.role))

-- No name stands twice.
unfoldable pub is_named : String → List NodeConfig → Bool
is_named host [] = false
is_named host (n ∷ ns) = str_eq n.hostname host || is_named host ns

unfoldable pub are_distinct : List NodeConfig → Bool
are_distinct [] = true
are_distinct (n ∷ ns) = not (is_named n.hostname ns) && are_distinct ns

-- The names seen before stand in none of the nodes.
unfoldable none_seen : List String → List NodeConfig → Bool
none_seen [] ns = true
none_seen (h ∷ hs) ns = not (is_named h ns) && none_seen hs ns

none_seen-nil : (seen : List String) → none_seen seen [] ≡ true
unfolding none_seen is_named
none_seen-nil [] = refl
none_seen-nil (h ∷ hs) = none_seen-nil hs

none_seen-cons :
    (seen : List String) (n : NodeConfig) (ns : List NodeConfig)
    → any_of (λ h. str_eq h n.hostname) seen ≡ false
    → none_seen seen ns ≡ true
    → none_seen seen (n ∷ ns) ≡ true
unfolding none_seen is_named
none_seen-cons [] n ns h k = refl
none_seen-cons (s ∷ seen) n ns h k =
    ground (arith, none_seen-cons seen n ns, eq_iff s n.hostname, eq_iff n.hostname s)

long_enough : (n : ℕ) → ltb n 12 ≡ false → 12 ≤ n
long_enough n h = ground arith

led : (others controls : Bool) → (others && not controls) ≡ false → (not others || controls) ≡ true
led others controls h = ground arith

resolves-all :
    (a b rest : Bool) → (a || b) ≡ false → rest ≡ true → ((not a && not b) && rest) ≡ true
resolves-all a b rest h k = ground arith

all_three : (a b c : Bool) → a ≡ false → b ≡ true → c ≡ true → (not a && (b && c)) ≡ true
all_three a b c h k l = rw (h, k, l) refl

module _ (quote : String → String) (byte_length : String → ℕ) (parse_ip : String → Bool)
    (nets : Networks) where
  check_ifs-resolves :
      (n : NodeConfig) (keys : List String)
      → check_ifs quote byte_length parse_ip nets n keys ≡ none
      → all_of (resolves n) keys ≡ true
  unfolding check_ifs resolves
  check_ifs-resolves n [] h = refl
  check_ifs-resolves n (key ∷ keys) h =
      let unset = is_empty (role_if n key) in
      let unknown = str_eq (if_name n (role_if n key).id) "None" in
      let (found, rest) =
        refuse-none (unset || unknown) _ (check_ifs quote byte_length parse_ip nets n keys) h in
      resolves-all unset unknown _ found (check_ifs-resolves n keys rest)

  check_node_complete :
      (seen : List String) (n : NodeConfig)
      → check_node quote byte_length parse_ip nets seen n ≡ none
      → (is_complete n ≡ true) × (any_of (λ h. str_eq h n.hostname) seen ≡ false)
  unfolding check_node is_complete
  check_node_complete seen n h =
      let (named, r1) = refuse-none (str_eq n.hostname "") _ _ h in
      let (fresh, r2) = refuse-none (any_of (λ h. str_eq h n.hostname) seen) _ _ r1 in
      let (role_ok, r3) = refuse-none (not (valid_role n.role)) _ _ r2 in
      let (ifs, r4) =
        or_then-none (check_ifs quote byte_length parse_ip nets n (role_node_ifs n.role)) _ r3 in
      (
        all_three (str_eq n.hostname "") (valid_role n.role) _ named
            (is_true (valid_role n.role) role_ok) (check_ifs-resolves n (role_node_ifs n.role) ifs),
        fresh,
      )

  check_nodes_complete :
      (seen : List String) (ns : List NodeConfig)
      → check_nodes quote byte_length parse_ip nets seen ns ≡ none
      → (all_of is_complete ns ≡ true) × (are_distinct ns ≡ true) × (none_seen seen ns ≡ true)
  unfolding check_nodes are_distinct none_seen is_named
  check_nodes_complete seen [] h = (refl, refl, none_seen-nil seen)
  check_nodes_complete seen (n ∷ ns) h =
      let (first, rest) = or_then-none (check_node quote byte_length parse_ip nets seen n) _ h in
      let (complete, fresh) = check_node_complete seen n first in
      let (others, distinct, unseen) = check_nodes_complete (n.hostname ∷ seen) ns rest in
      let (alone, still) = &&-true (not (is_named n.hostname ns)) (none_seen seen ns) unseen in
      (rw (complete, others) refl, rw (alone, distinct) refl, none_seen-cons seen n ns fresh still)

  -- A description that Validate accepts has an id of 12 bytes or more; its nodes are there, each has a name
  -- of its own, a role, and every interface that the role wants; a node without the control function has one
  -- with it beside it; a HA cluster has a virtual address and name; and the management range passes its own check.
  pub validate-accepted :
      (c : ClusterDetail)
      → validate quote byte_length parse_ip nets c ≡ none
      → (12 ≤ byte_length c.cluster_info.id)
        × ((is_none c.node_data ≡ false)
            × (all_of is_complete c.node_data ≡ true)
            × (are_distinct c.node_data ≡ true))
        × ((not (any_of (λ n. not (has_control_func n.role)) c.node_data)
              || any_of (λ n. has_control_func n.role) c.node_data)
            ≡ true)
        × ((c.cluster_config.ha
              && (str_eq c.cluster_config.ha_settings.virtual_ip ""
                  || str_eq c.cluster_config.ha_settings.virtual_hostname ""))
            ≡ false)
        × (validate_mgmt_cidr quote nets c ≡ none)
  unfolding validate
  validate-accepted c h =
      let ha = c.cluster_config.ha_settings in
      let controls = any_of (λ n. has_control_func n.role) c.node_data in
      let others = any_of (λ n. not (has_control_func n.role)) c.node_data in
      let (long, r1) = refuse-none (ltb (byte_length c.cluster_info.id) 12) _ _ h in
      let (named, r2) = refuse-none (str_eq c.cluster_info.name "") _ _ r1 in
      let (dns, r3) = refuse-none (not (has_dns c.cluster_config.dns)) _ _ r2 in
      let (dns_ok, r4) =
        or_then-none (check_dns quote byte_length parse_ip nets c.cluster_config.dns) _ r3 in
      let (virtual, r5) =
        refuse-none
          (c.cluster_config.ha && (str_eq ha.virtual_ip "" || str_eq ha.virtual_hostname "")) _ _
          r4 in
      let (some_node, r6) = refuse-none (is_none c.node_data) _ _ r5 in
      let (nodes_ok, r7) =
        or_then-none (check_nodes quote byte_length parse_ip nets [] c.node_data) _ r6 in
      let (control, mgmt) =
        refuse-none (others && not controls) _ (validate_mgmt_cidr quote nets c) r7 in
      let (complete, distinct, unseen) = check_nodes_complete [] c.node_data nodes_ok in
      (
        long_enough _ long,
        (some_node, complete, distinct),
        led others controls control,
        virtual,
        mgmt,
      )
