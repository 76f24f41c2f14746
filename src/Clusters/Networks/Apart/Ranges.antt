-- ===== src/Clusters/Networks/Apart/Ranges.antt =====
-- The management range and the networks of the cluster.
use Prim.Native.String.{String}
use cube_cos_driver.Base.{
  subst, ℕ, ◌==◌, ◌≡◌, ◌⊎◌, inl, inr, true, false, not, ◌&&◌, none, some, arith, str_eq, get_elem?,
  if◌then◌else◌, Bool-cases,
}
use cube_cos_driver.Clusters.{ClusterDetail}
use cube_cos_driver.Clusters.Networks.{
  Bits, Network, Cidr, Networks, cidr_mask, contains, overlaps, check_range, validate_mgmt_cidr,
}
use cube_cos_driver.Clusters.Networks.Apart.{leads, cidr_mask-leads, overlaps_lem}
use cube_cos_driver.Clusters.Networks.Apart.Passed.{real_networks, clear, check_networks-clear}
use cube_cos_driver.Clusters.Checks.{all_of-get_elem?, refuse-none, is_false}

abbrev pub range_of : Cidr → Network
range_of r = record { addr = r.base; mask = cidr_mask 32 r.ones }

range_size : (n : ℕ) → (not (n == 16) && not (n == 8)) ≡ false → (n ≡ 16) ⊎ (n ≡ 8)
range_size n h = ground arith

not_overlapping :
    (nets : Networks) (cidr : String) (mgmt s : Network) (x : Bits 32)
    → leads 32 mgmt.mask ≡ true
    → leads 32 s.mask ≡ true
    → overlaps nets cidr mgmt s ≡ false
    → contains mgmt x ≡ true
    → contains s x ≡ false
not_overlapping nets cidr mgmt s x lm ls apart here = elim (Bool-cases (contains s x)) [
  | inl e ↦ let both = (overlaps_lem nets cidr mgmt s lm ls).1 (x, (here, e)) in ground arith
  | inr e ↦ e
]

-- A management range that is given and passes is a /16 or a /8, and none of its addresses lies in a network
-- of the cluster whose mask has its ones in front: in no interface's subnet, and it is no gateway, DNS
-- server, external or virtual address, and not in the external network.
pub validate_mgmt_cidr-apart :
    (quote : String → String) (nets : Networks) (c : ClusterDetail) (r : Cidr) (i : ℕ) (s : Network)
    (x : Bits 32)
    → str_eq c.cluster_config.role_settings.mgmt_cidr "" ≡ false
    → nets.parse_cidr c.cluster_config.role_settings.mgmt_cidr ≡ some r
    → validate_mgmt_cidr quote nets c ≡ none
    → get_elem? (real_networks nets c) i ≡ some (some s)
    → leads 32 s.mask ≡ true
    → contains (range_of r) x ≡ true
    → ((r.ones ≡ 16) ⊎ (r.ones ≡ 8)) × (contains s x ≡ false)
unfolding validate_mgmt_cidr
validate_mgmt_cidr-apart quote nets c r i s x given read h at ls here =
    let cidr = c.cluster_config.role_settings.mgmt_cidr in
    let checked : check_range quote nets c cidr (some r) ≡ none =
      subst (λ b. (if b then none else check_range quote nets c cidr (some r)) ≡ none) given
        (subst (λ o. (if str_eq cidr "" then none else check_range quote nets c cidr o) ≡ none) read
          h) in
    let (size_ok, passed) = refuse-none (not (r.ones == 16) && not (r.ones == 8)) _ _ checked in
    let all_clear = check_networks-clear nets cidr (range_of r) c passed in
    let apart = all_of-get_elem? (clear nets cidr (range_of r)) _ i (some s) all_clear at in
    (
      range_size r.ones size_ok,
      not_overlapping nets cidr (range_of r) s x (cidr_mask-leads 32 r.ones) ls
          (is_false (overlaps nets cidr (range_of r) s) apart) here,
    )
