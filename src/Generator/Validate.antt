-- ===== src/Generator/Validate.antt =====
-- internal/generator/validate.go: `ValidateNodeNetwork`.
use Prim.Native.String.{String}
use cube_cos_driver.Base.{
  Bool, true, false, not, ◌&&◌, List, [], ◌∷◌, Option, none, some, str_eq, if◌then◌else◌,
}
use cube_cos_driver.Enterprise.Text.{sprint}
use cube_cos_driver.Clusters.{If, NodeConfig, all_ifs}
use cube_cos_driver.Generator.{Octets, Net}
use cube_cos_driver.Generator.Masks.{valid_ipv4_mask}

-- A text is an IPv4 address.
abbrev pub is_some : Option Octets → Bool
is_some none = false
is_some (some o) = true

module _ (net : Net) where
  -- One interface: an error or nothing.
  unfoldable pub check_if : If → Option String
  unfolding valid_ipv4_mask
  check_if f =
      let addr = net.trim_space f.ip_addr in
      let mask = net.trim_space f.ip_mask in
      if not f.enabled
      then none
      else if str_eq addr "" && str_eq mask ""
      then none
      else if not (is_some (net.parse_v4 addr))
      then some (
          sprint (
            "interface "
            ∷ f.name
            ∷ ": invalid or missing IPv4 address "
            ∷ net.quote f.ip_addr
            ∷ []))
      else if not (valid_ipv4_mask net mask)
      then some (
          sprint (
            "interface "
            ∷ f.name
            ∷ ": invalid or missing netmask "
            ∷ net.quote f.ip_mask
            ∷ " — set a mask such as 255.255.0.0"
            ∷ []))
      else none

  abbrev pub or_next : Option String → Option String → Option String
  or_next none next = next
  or_next (some why) next = some why

  unfoldable pub check_all : List If → Option String
  unfolding check_if
  check_all [] = none
  check_all (f ∷ fs) = or_next (check_if f) (check_all fs)

  unfoldable pub validate_node_network : NodeConfig → Option String
  unfolding check_all all_ifs
  validate_node_network n = check_all (all_ifs n)
