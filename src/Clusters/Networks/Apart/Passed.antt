-- ===== src/Clusters/Networks/Apart/Passed.antt =====
-- The networks of a cluster, and what a management range that passes has to do with them.
use Prim.Native.String.{String}
use cube_cos_driver.Base.{
  ◌≡◌, refl, Bool, true, false, not, ◌&&◌, all_of, List, [], ◌∷◌, ◌++◌, Option, none, some, arith,
  str_eq, if◌then◌else◌,
}
use cube_cos_driver.Clusters.{If, NodeConfig, SetReadySettings, ClusterDetail, all_ifs, or_then}
use cube_cos_driver.Clusters.Networks.{
  Network, Networks, overlaps, check, host, subnet, check_subnets, check_each_node, check_each_dns,
  network_of, check_external, check_networks,
}
use cube_cos_driver.Clusters.Checks.{or_then-none, refuse-none, not-false}

all_of-append :
    {A : Type 0} (p : A → Bool) (xs ys : List A)
    → all_of p xs ≡ true
    → all_of p ys ≡ true
    → all_of p (xs ++ ys) ≡ true
all_of-append p [] ys h k = k
all_of-append p (x ∷ xs) ys h k = ground (arith, all_of-append p xs ys)

-- The networks that are real: the subnets of the interfaces with an address, the gateways, the DNS
-- servers, the external and the virtual address, and the external network.
module _ (nets : Networks) where
  unfoldable pub if_nets : List If → List (Option Network)
  if_nets [] = []
  if_nets (f ∷ fs) =
      let rest = if_nets fs in if str_eq f.ip_addr "" then rest else subnet nets f ∷ rest

  unfoldable pub node_nets : List NodeConfig → List (Option Network)
  node_nets [] = []
  node_nets (n ∷ ns) = if_nets (all_ifs n) ++ (host nets n.default_gateway ∷ node_nets ns)

  unfoldable pub dns_nets : List String → List (Option Network)
  dns_nets [] = []
  dns_nets (d ∷ ds) = host nets d ∷ dns_nets ds

  unfoldable pub external_nets : Option SetReadySettings → List (Option Network)
  external_nets none = []
  external_nets (some sr) =
      if sr.create_external && not (str_eq sr.cidr "")
      then network_of (nets.parse_cidr sr.cidr) ∷ []
      else []

  unfoldable pub real_networks : ClusterDetail → List (Option Network)
  real_networks c =
      node_nets c.node_data
      ++ (dns_nets c.cluster_config.dns
          ++ (host nets c.cluster_config.role_settings.ext_ip
              ∷ host nets c.cluster_config.ha_settings.virtual_ip
              ∷ external_nets c.cluster_config.set_ready))

module _ (nets : Networks) (cidr : String) (mgmt : Network) where
  abbrev pub clear : Option Network → Bool
  clear none = true
  clear (some n) = not (overlaps nets cidr mgmt n)

  check-clear :
      (what : String) (o : Option Network) → check nets cidr mgmt what o ≡ none → clear o ≡ true
  unfolding check
  check-clear what none h = refl
  check-clear what (some n) h =
      not-false (overlaps nets cidr mgmt n) (refuse-none (overlaps nets cidr mgmt n) _ none h).0

  cons-clear :
      (o : Option Network) (ns : List (Option Network))
      → clear o ≡ true
      → all_of clear ns ≡ true
      → all_of clear (o ∷ ns) ≡ true
  cons-clear o ns h k = rw (h, k) refl

  -- A network that is left out, or checked before the rest.
  skip-clear :
      (b : Bool) (o : Option Network) (ns : List (Option Network)) (first rest : Option String)
      → (if b then rest else or_then first rest) ≡ none
      → (first ≡ none → clear o ≡ true)
      → (rest ≡ none → all_of clear ns ≡ true)
      → all_of clear (if b then ns else o ∷ ns) ≡ true
  skip-clear true o ns first rest h p q = q h
  skip-clear false o ns first rest h p q =
      let (a, b) = or_then-none first rest h in cons-clear o ns (p a) (q b)

  check_subnets-clear :
      (n : NodeConfig) (fs : List If)
      → check_subnets nets cidr mgmt n fs ≡ none
      → all_of clear (if_nets nets fs) ≡ true
  unfolding check_subnets if_nets
  check_subnets-clear n [] h = refl
  check_subnets-clear n (f ∷ fs) h =
      skip-clear (str_eq f.ip_addr "") (subnet nets f) (if_nets nets fs) _ _ h
        (check-clear _ (subnet nets f)) (check_subnets-clear n fs)

  check_each_node-clear :
      (ns : List NodeConfig)
      → check_each_node nets cidr mgmt ns ≡ none
      → all_of clear (node_nets nets ns) ≡ true
  unfolding check_each_node node_nets
  check_each_node-clear [] h = refl
  check_each_node-clear (n ∷ ns) h =
      let (a, rest) = or_then-none _ _ h in
      let (b, c) = or_then-none _ _ rest in
      all_of-append clear (if_nets nets (all_ifs n)) _ (check_subnets-clear n (all_ifs n) a) (
        cons-clear (host nets n.default_gateway) (node_nets nets ns)
          (check-clear _ (host nets n.default_gateway) b) (check_each_node-clear ns c))

  check_each_dns-clear :
      (ds : List String)
      → check_each_dns nets cidr mgmt ds ≡ none
      → all_of clear (dns_nets nets ds) ≡ true
  unfolding check_each_dns dns_nets
  check_each_dns-clear [] h = refl
  check_each_dns-clear (d ∷ ds) h =
      let (a, b) = or_then-none _ _ h in
      cons-clear (host nets d) (dns_nets nets ds) (check-clear _ (host nets d) a)
        (check_each_dns-clear ds b)

  external-clear :
      (b : Bool) (o : Option Network)
      → (if b then check nets cidr mgmt "set-ready external network" o else none) ≡ none
      → all_of clear (if b then o ∷ [] else []) ≡ true
  external-clear true o h = cons-clear o [] (check-clear _ o h) refl
  external-clear false o h = refl

  check_external-clear :
      (sr : Option SetReadySettings)
      → check_external nets cidr mgmt sr ≡ none
      → all_of clear (external_nets nets sr) ≡ true
  unfolding check_external external_nets
  check_external-clear none h = refl
  check_external-clear (some sr) h =
      external-clear (sr.create_external && not (str_eq sr.cidr ""))
        (network_of (nets.parse_cidr sr.cidr)) h

  pub check_networks-clear :
      (c : ClusterDetail)
      → check_networks nets cidr mgmt c ≡ none
      → all_of clear (real_networks nets c) ≡ true
  unfolding check_networks real_networks
  check_networks-clear c h =
      let (a, r1) = or_then-none _ _ h in
      let (b, r2) = or_then-none _ _ r1 in
      let (e, r3) = or_then-none _ _ r2 in
      let (v, x) = or_then-none _ _ r3 in
      let others = external_nets nets c.cluster_config.set_ready in
      let vip = host nets c.cluster_config.ha_settings.virtual_ip in
      let rest =
        cons-clear (host nets c.cluster_config.role_settings.ext_ip) (vip ∷ others)
          (check-clear _ (host nets c.cluster_config.role_settings.ext_ip) e)
          (cons-clear vip others (check-clear _ vip v)
            (check_external-clear c.cluster_config.set_ready x)) in
      all_of-append clear (node_nets nets c.node_data) _ (check_each_node-clear c.node_data a) (
        all_of-append clear (dns_nets nets c.cluster_config.dns) _
          (check_each_dns-clear c.cluster_config.dns b) rest)
