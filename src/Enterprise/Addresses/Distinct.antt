-- ===== src/Enterprise/Addresses/Distinct.antt =====
-- The addresses that pass the check are addresses, and differ from each other.
use Prim.Native.String.{String}
use cube_cos_driver.Base.{
  Bool, true, not, ◌&&◌, ◌||◌, ◌≡◌, List, [], ◌∷◌, none, arith, str_eq, eq_iff,
}
use cube_cos_driver.Enterprise.Text.{Library}
use cube_cos_driver.Enterprise.Records.{InstallParams}
use cube_cos_driver.Enterprise.Cluster.Probe.{slice_has}
use cube_cos_driver.Enterprise.Addresses.{
  Seen, bad, seen, check_pool, check_framework_addr, check_advisor_addrs,
}

-- The pool's addresses, less the empty ones: each is an address, is not one of those before it, and is
-- not the advisor's nor the framework's.
unfoldable pub is_distinct : Library → InstallParams → List String → List String → Bool
is_distinct lib p before [] = true
is_distinct lib p before (a ∷ pool) =
    (str_eq a "" && is_distinct lib p before pool)
    || (lib.parse_ip a
        && (not (str_eq a p.advisor_lb_ip)
            && (not (slice_has before a)
                && ((str_eq p.lb_ip "" || not (str_eq a p.lb_ip))
                    && is_distinct lib p (a ∷ before) pool))))

module _ (lib : Library) (p : InstallParams) where
  -- The pool's loop gives back what it had seen, with more.
  abbrev passes : List String → List String → Seen → Bool
  passes before pool (bad why) = true
  passes before pool (seen addrs) =
      (not (str_eq p.lb_ip "") && slice_has addrs p.lb_ip)
      || (is_distinct lib p before pool
          && not (not (str_eq p.lb_ip "") && slice_has before p.lb_ip))

  check_pool-distinct :
      (before pool : List String)
      → passes before pool (check_pool lib p.advisor_lb_ip before pool) ≡ true
  unfolding check_pool is_distinct
  check_pool-distinct before [] = ground arith
  check_pool-distinct before (a ∷ pool) = ground (
    arith,
    eq_iff a p.lb_ip,
    check_pool-distinct before pool,
    check_pool-distinct (a ∷ before) pool,
  )

  passed-distinct :
      (pool : List String) (o : Seen)
      → passes [] pool o ≡ true
      → check_framework_addr p o ≡ none
      → ((str_eq p.lb_ip "" || not (str_eq p.lb_ip p.advisor_lb_ip)) ≡ true)
        × (is_distinct lib p [] pool ≡ true)
  unfolding check_framework_addr
  passed-distinct pool (bad why) h e = ground arith
  passed-distinct pool (seen addrs) h e = (ground arith, ground arith)

  -- An installation whose addresses pass has a well-formed address for the advisor, if any, that is not
  -- the framework's, and a pool whose addresses are well-formed, differ from each other, and are neither
  -- the advisor's nor the framework's.
  pub check_advisor_addrs-distinct :
      check_advisor_addrs lib p ≡ none
      → ((str_eq p.advisor_lb_ip "" || lib.parse_ip p.advisor_lb_ip) ≡ true)
        × ((str_eq p.lb_ip "" || not (str_eq p.lb_ip p.advisor_lb_ip)) ≡ true)
        × (is_distinct lib p [] p.advisor_pool ≡ true)
  unfolding check_advisor_addrs
  check_advisor_addrs-distinct h =
      let o = check_pool lib p.advisor_lb_ip [] p.advisor_pool in
      let passed : check_framework_addr p o ≡ none = ground arith in
      let (own, pool) =
        passed-distinct p.advisor_pool o (check_pool-distinct [] p.advisor_pool) passed in
      (ground arith, own, pool)
