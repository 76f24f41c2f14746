-- ===== src/Generator/Preflight/Prefixes.antt =====
-- The links of a node whose network was accepted.
use Prim.Native.String.{String}
use cube_cos_driver.Base.{
  ℕ, zero, suc, ◌≤◌, true, false, ◌≡◌, refl, List, [], ◌∷◌, Option, none, some, some_eq, arith,
  str_eq, get_elem?, Map, Bool-cases, inl, inr,
}
use cube_cos_driver.Enterprise.Text.{sprint}
use cube_cos_driver.Clusters.{If, NodeConfig, all_ifs}
use cube_cos_driver.Clusters.Bundles.{PfLink}
use cube_cos_driver.Generator.{Net}
use cube_cos_driver.Generator.Masks.{size, valid_ipv4_mask, mask_to_prefix}
use cube_cos_driver.Generator.Masks.Bounds.{valid_ipv4_mask-Leads}
use cube_cos_driver.Generator.Validate.{check_if, or_next, check_all, validate_node_network}
use cube_cos_driver.Generator.Preflight.{
  cidr, build_link, links_of, build_links, roles_by_if, role_if_ids, preflight_roles,
}

module _ (net : Net) where
  or_next-none : (a b : Option String) → or_next net a b ≡ none → (a ≡ none) × (b ≡ none)
  or_next-none none b h = (refl, h)
  or_next-none (some why) b h = ground arith

  -- Every interface of an accepted node passes.
  check_all-none :
      (fs : List If) (i : ℕ) (f : If)
      → check_all net fs ≡ none
      → get_elem? fs i ≡ some f
      → check_if net f ≡ none
  unfolding check_all
  check_all-none [] i f h at = ground arith
  check_all-none (g ∷ fs) zero f h at =
      let e : g ≡ f = some_eq at in
      let (passed, rest) = or_next-none (check_if net g) (check_all net fs) h in rw (← e) passed
  check_all-none (g ∷ fs) (suc i) f h at =
      let (passed, rest) = or_next-none (check_if net g) (check_all net fs) h in
      check_all-none fs i f rest at

  check_if-mask :
      (f : If)
      → check_if net f ≡ none
      → f.enabled ≡ true
      → str_eq (net.trim_space f.ip_addr) "" ≡ false
      → valid_ipv4_mask net (net.trim_space f.ip_mask) ≡ true
  unfolding check_if
  check_if-mask f h on addr = ground arith

  -- An enabled interface has its link among the links.
  links_of-build_link :
      (n : NodeConfig) (by : Map (List String)) (fs : List If) (i : ℕ) (f : If)
      → get_elem? fs i ≡ some f
      → f.enabled ≡ true
      → (j : ℕ) × (get_elem? (links_of net n by fs) j ≡ some (build_link net n by f))
  unfolding links_of
  links_of-build_link n by [] i f at on = absurd (ground arith)
  links_of-build_link n by (g ∷ fs) zero f at on = let e : g ≡ f = some_eq at in (0, ground arith)
  links_of-build_link n by (g ∷ fs) (suc i) f at on =
      let (j, found) = links_of-build_link n by fs i f at on in
      elim (Bool-cases g.enabled) [
        | inl listed ↦ (suc j, ground arith)
        | inr skipped ↦ (j, ground arith)
      ]

  cidr_prefix :
      (n : NodeConfig) (i : ℕ) (f : If)
      → validate_node_network net n ≡ none
      → get_elem? (all_ifs n) i ≡ some f
      → f.enabled ≡ true
      → str_eq f.ip_addr "" ≡ false
      → str_eq (net.trim_space f.ip_addr) "" ≡ false
      → (p : ℕ) × ((cidr net f.ip_addr f.ip_mask ≡ sprint (f.ip_addr ∷ "/" ∷ net.decimal p ∷ []))
          × ((1 ≤ p) × (p ≤ 32)))
  unfolding validate_node_network cidr mask_to_prefix
  cidr_prefix n i f h at on given addr =
      let passed = check_all-none (all_ifs n) i f h at in
      let (o, (parsed, (low, high, leads))) =
        valid_ipv4_mask-Leads net (net.trim_space f.ip_mask) (check_if-mask f passed on addr) in
      (size o, (rw (given, parsed) refl, (low, high)))

  -- In a node's network that ValidateNodeNetwork accepts, an enabled interface whose address is not
  -- blank has a link of its name among the node's links, and the link's address is the interface's
  -- with a prefix length, one from 1 to 32.
  pub build_links-validate_node_network :
      (n : NodeConfig) (i : ℕ) (f : If)
      → validate_node_network net n ≡ none
      → get_elem? (all_ifs n) i ≡ some f
      → f.enabled ≡ true
      → str_eq f.ip_addr "" ≡ false
      → str_eq (net.trim_space f.ip_addr) "" ≡ false
      → (j : ℕ) × (l : PfLink) × (p : ℕ) × ((get_elem? (build_links net n) j ≡ some l)
          × ((l.name ≡ f.name) × (l.ip ≡ sprint (f.ip_addr ∷ "/" ∷ net.decimal p ∷ [])))
          × ((1 ≤ p) × (p ≤ 32)))
  unfolding build_links build_link
  build_links-validate_node_network n i f h at on given addr =
      let by = roles_by_if (role_if_ids n) preflight_roles [] in
      let (j, found) = links_of-build_link n by (all_ifs n) i f at on in
      let (p, (prefixed, (low, high))) = cidr_prefix n i f h at on given addr in
      (j, build_link net n by f, p, (found, (refl, prefixed), (low, high)))
