-- ===== src/Clusters/Networks/Apart.antt =====
-- Masks, and addresses that lie in two networks.
pub mod Passed
pub mod Ranges
use Prim.Native.String.{String}
use cube_cos_driver.Base.{
  subst, ℕ, zero, suc, Bool, true, false, not, ◌&&◌, ◌||◌, all_of, ◌≡◌, refl, ◌⊎◌, inl, inr, List,
  [], ◌∷◌, arith, Bool-cases, ◌↔◌,
}
use cube_cos_driver.Clusters.Networks.{
  Bits, Network, Networks, cidr_mask, same_bit, agree, contains, overlaps,
}

-- The ones of a mask lead.
unfoldable pub is_zero : (w : ℕ) → Bits w → Bool
is_zero zero m = true
is_zero (suc w) (m, ms) = not m && is_zero w ms

unfoldable pub leads : (w : ℕ) → Bits w → Bool
leads zero m = true
leads (suc w) (true, ms) = leads w ms
leads (suc w) (false, ms) = is_zero w ms

cidr_mask-zero : (w : ℕ) → is_zero w (cidr_mask w zero) ≡ true
unfolding is_zero
cidr_mask-zero zero = refl
cidr_mask-zero (suc w) = cidr_mask-zero w

pub cidr_mask-leads : (w ones : ℕ) → leads w (cidr_mask w ones) ≡ true
unfolding leads
cidr_mask-leads zero ones = refl
cidr_mask-leads (suc w) zero = cidr_mask-zero w
cidr_mask-leads (suc w) (suc n) = cidr_mask-leads w n

agree_refl : (w : ℕ) (a m : Bits w) → agree w a m a ≡ true
unfolding agree
agree_refl zero a m = refl
agree_refl (suc w) (true, as_) (m, ms) = ground (arith, agree_refl w as_ ms)
agree_refl (suc w) (false, as_) (m, ms) = ground (arith, agree_refl w as_ ms)

-- A mask of zeros asks for nothing.
agree-zero : (w : ℕ) (a m x : Bits w) → is_zero w m ≡ true → agree w a m x ≡ true
unfolding agree is_zero
agree-zero zero a m x h = refl
agree-zero (suc w) (a, as_) (m, ms) (x, xs) h = ground (arith, agree-zero w as_ ms xs)

-- Two bits that agree with a third agree.
same_bit_trans : (a b x : Bool) → same_bit a x ≡ true → same_bit b x ≡ true → same_bit a b ≡ true
same_bit_trans true true x h k = refl
same_bit_trans true false true h k = k
same_bit_trans true false false h k = h
same_bit_trans false true true h k = h
same_bit_trans false true false h k = k
same_bit_trans false false x h k = refl

-- Of two networks with an address in common, one contains the other's address.
agree-nested :
    (w : ℕ) (a m b k x : Bits w)
    → leads w m ≡ true
    → leads w k ≡ true
    → agree w a m x ≡ true
    → agree w b k x ≡ true
    → (agree w a m b || agree w b k a) ≡ true
unfolding agree leads
agree-nested zero a m b k x lm lk h g = refl
agree-nested (suc w) (a, as_) (false, ms) (b, bs) (k, ks) (x, xs) lm lk h g =
    rw (agree-zero w as_ ms bs lm) refl
agree-nested (suc w) (a, as_) (true, ms) (b, bs) (false, ks) (x, xs) lm lk h g =
    rw (agree-zero w bs ks as_ lk) (ground arith)
agree-nested (suc w) (a, as_) (true, ms) (b, bs) (true, ks) (x, xs) lm lk h g =
    let ab = same_bit_trans a b x (ground arith) (ground arith) in
    let ba = same_bit_trans b a x (ground arith) (ground arith) in
    let rest = agree-nested w as_ ms bs ks xs lm lk (ground arith) (ground arith) in
    rw (ab, ba) rest

-- Two networks overlap exactly when some address lies in both.
pub overlaps_lem :
    (nets : Networks) (cidr : String) (mgmt n : Network)
    → leads 32 mgmt.mask ≡ true
    → leads 32 n.mask ≡ true
    → (overlaps nets cidr mgmt n ≡ true)
      ↔ ((x : Bits 32) × ((contains mgmt x ≡ true) × (contains n x ≡ true)))
unfolding overlaps contains
overlaps_lem nets cidr mgmt n lm ln = (
  λ h. elim (Bool-cases (agree 32 mgmt.addr mgmt.mask n.addr)) [
    | inl e ↦ (n.addr, (e, agree_refl 32 n.addr n.mask))
    | inr e ↦ (
      mgmt.addr,
      (
        agree_refl 32 mgmt.addr mgmt.mask,
        subst (λ b. (b || agree 32 n.addr n.mask mgmt.addr) ≡ true) e h,
      ),
    )
  ],
  λ shared. agree-nested 32 mgmt.addr mgmt.mask n.addr n.mask shared.0 lm ln shared.1.0 shared.1.1,
)
