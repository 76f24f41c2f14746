-- ===== src/Clusters/Networks.antt =====
-- internal/model/model.go: `validateMgmtCIDR`, whether the management range overlaps a network of the
-- cluster. An IPv4 address is its 32 bits, from the first.
pub mod Apart
use Prim.Native.String.{String}
use cube_cos_driver.Base.{
  ℕ, zero, suc, ◌==◌, Bool, true, false, not, ◌&&◌, ◌||◌, List, [], ◌∷◌, Option, none, some, str_eq,
  if◌then◌else◌,
}
use cube_cos_driver.Enterprise.Text.{sprint}
use cube_cos_driver.Clusters.{
  If, NodeConfig, SetReadySettings, ClusterDetail, all_ifs, invalid, or_then,
}

abbrev pub Bits : ℕ → Type 0
Bits zero = Unit
Bits (suc w) = Bool × Bits w

-- `net.IPNet` of an IPv4 network.
pub record Network : Type 0 where
  pub addr : Bits 32
  pub mask : Bits 32

-- The result of `net.ParseCIDR` for an IPv4 network: its first address and the length of its prefix.
pub record Cidr : Type 0 where
  pub base : Bits 32
  pub ones : ℕ

-- What Go's library says of a text: `net.ParseIP` followed by `To4`, and `net.ParseCIDR` of a text that is
-- written as IPv4 (an IPv4 address in the form of IPv6 is left out); and the text of a network. An IPv6
-- network contains no IPv4 address and is in no IPv4 network, so that it is none here.
pub record Networks : Type 0 where
  pub parse_v4 : String → Option (Bits 32)
  pub parse_cidr : String → Option Cidr
  pub show : Network → String

-- `net.CIDRMask` of a width.
abbrev pub cidr_mask : (w : ℕ) → ℕ → Bits w
cidr_mask zero ones = tt
cidr_mask (suc w) zero = (false, cidr_mask w zero)
cidr_mask (suc w) (suc n) = (true, cidr_mask w n)

abbrev pub same_bit : Bool → Bool → Bool
same_bit true b = b
same_bit false b = not b

-- `Contains`, bit by bit.
unfoldable pub agree : (w : ℕ) → Bits w → Bits w → Bits w → Bool
agree zero n m x = true
agree (suc w) (n, ns) (m, ms) (x, xs) = (not m || same_bit n x) && agree w ns ms xs

unfoldable pub contains : Network → Bits 32 → Bool
unfolding agree
contains n ip = agree 32 n.addr n.mask ip

-- `IP.Mask`.
abbrev pub masked : (w : ℕ) → Bits w → Bits w → Bits w
masked zero b m = tt
masked (suc w) (b, bs) (m, ms) = (b && m, masked w bs ms)

-- The closure `host`: a network of one address.
abbrev pub host_of : Option (Bits 32) → Option Network
host_of none = none
host_of (some ip) = some (record { addr = ip; mask = cidr_mask 32 32 })

-- The subnet of an address with the mask, when there is one.
abbrev pub subnet_of : Option (Bits 32) → Option (Bits 32) → Option Network
subnet_of none mask = none
subnet_of (some ip) none = host_of (some ip)
subnet_of (some ip) (some m) = some (record { addr = masked 32 ip m; mask = m })

abbrev pub network_of : Option Cidr → Option Network
network_of none = none
network_of (some c) = some (record { addr = c.base; mask = cidr_mask 32 c.ones })

module _ (nets : Networks) where
  unfoldable pub host : String → Option Network
  host s = host_of (nets.parse_v4 s)

  unfoldable pub subnet : If → Option Network
  subnet f = subnet_of (nets.parse_v4 f.ip_addr) (nets.parse_v4 f.ip_mask)

module _ (nets : Networks) (cidr : String) (mgmt : Network) where
  -- `mgmt.Contains(n.IP) || n.Contains(mgmt.IP)`.
  unfoldable pub overlaps : Network → Bool
  unfolding contains
  overlaps n = contains mgmt n.addr || contains n mgmt.addr

  -- The closure `check`.
  unfoldable pub check : String → Option Network → Option String
  unfolding overlaps
  check what none = none
  check what (some n) =
      if overlaps n
      then invalid (
          "mgmtCIDR "
          ∷ cidr
          ∷ " overlaps "
          ∷ what
          ∷ " "
          ∷ nets.show n
          ∷ "; it is CubeCOS's internal service range and must not overlap real networks "
          ∷ "(default 10.254.0.0/16)"
          ∷ [])
      else none

  unfoldable pub check_subnets : NodeConfig → List If → Option String
  unfolding check subnet
  check_subnets n [] = none
  check_subnets n (f ∷ fs) =
      let rest = check_subnets n fs in
      if str_eq f.ip_addr ""
      then rest
      else or_then
          (check (sprint ("node " ∷ n.hostname ∷ " " ∷ f.name ∷ " subnet" ∷ [])) (subnet nets f))
          rest

  unfoldable pub check_each_node : List NodeConfig → Option String
  unfolding check_subnets check host all_ifs
  check_each_node [] = none
  check_each_node (n ∷ ns) = or_then (check_subnets n (all_ifs n)) (
      or_then
        (check (sprint ("node " ∷ n.hostname ∷ " default gateway" ∷ []))
          (host nets n.default_gateway))
        (check_each_node ns))

  unfoldable pub check_each_dns : List String → Option String
  unfolding check host
  check_each_dns [] = none
  check_each_dns (d ∷ ds) = or_then (check "DNS server" (host nets d)) (check_each_dns ds)

  unfoldable pub check_external : Option SetReadySettings → Option String
  unfolding check
  check_external none = none
  check_external (some sr) =
      if sr.create_external && not (str_eq sr.cidr "")
      then check "set-ready external network" (network_of (nets.parse_cidr sr.cidr))
      else none

  unfoldable pub check_networks : ClusterDetail → Option String
  unfolding check_each_node check_each_dns check host check_external
  check_networks c = or_then (check_each_node c.node_data) (
      or_then (check_each_dns c.cluster_config.dns) (
        or_then (check "external IP" (host nets c.cluster_config.role_settings.ext_ip)) (
          or_then (check "virtual IP" (host nets c.cluster_config.ha_settings.virtual_ip))
            (check_external c.cluster_config.set_ready))))

module _ (quote : String → String) (nets : Networks) where
  abbrev pub check_range : ClusterDetail → String → Option Cidr → Option String
  check_range c cidr none = invalid ("mgmtCIDR " ∷ quote cidr ∷ " is not an IPv4 CIDR" ∷ [])
  check_range c cidr (some r) =
      if not (r.ones == 16) && not (r.ones == 8)
      then invalid (
          "mgmtCIDR " ∷ cidr
          ∷ " must be a /16 or /8 (CubeCOS internal service range, default 10.254.0.0/16)" ∷ [])
      else check_networks nets cidr (record { addr = r.base; mask = cidr_mask 32 r.ones }) c

  unfoldable pub validate_mgmt_cidr : ClusterDetail → Option String
  unfolding check_networks
  validate_mgmt_cidr c =
      let cidr = c.cluster_config.role_settings.mgmt_cidr in
      if str_eq cidr "" then none else check_range c cidr (nets.parse_cidr cidr)
