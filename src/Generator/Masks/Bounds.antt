-- ===== src/Generator/Masks/Bounds.antt =====
-- What a netmask of a given length is.
use Prim.Native.String.{String}
use cube_cos_driver.Base.{
  ℕ, zero, suc, ◌+◌, ◌*◌, ◌≤◌, ltb, ◌==◌, true, all_of, length, ◌≡◌, refl, ◌⊎◌, inl, inr, List, [],
  ◌∷◌, Option, none, some, some_eq, arith, Bool-cases, Option-cases,
}
use cube_cos_driver.Generator.{Octets, Net}
use cube_cos_driver.Generator.Masks.{
  byte_ones, add_byte, ones, bytes, size, has_ones, valid_ipv4_mask,
}

unfoldable pub two_to : ℕ → ℕ
two_to zero = 1
two_to (suc k) = 2 * two_to k

-- How many numbers the bytes can stand for, and the one that they stand for.
unfoldable pub places : List ℕ → ℕ
places [] = 1
places (b ∷ bs) = 256 * places bs

unfoldable pub number : List ℕ → ℕ
number [] = 0
number (b ∷ bs) = b * places bs + number bs

-- The bytes are `n` ones and then zeros: with the number of the zeros' combinations they fill their places.
unfoldable pub Leads : ℕ → List ℕ → Type 0
Leads n bs = (free : ℕ) × ((n + free ≡ 8 * length bs) × (number bs + two_to free ≡ places bs))

-- The bytes that are ones and then zeros, but 255.
byte_ones-cases :
    (b k : ℕ)
    → byte_ones b ≡ some k
    → ((b ≡ 0) × (k ≡ 0))
      ⊎ ((b ≡ 128) × (k ≡ 1))
      ⊎ ((b ≡ 192) × (k ≡ 2))
      ⊎ ((b ≡ 224) × (k ≡ 3))
      ⊎ ((b ≡ 240) × (k ≡ 4))
      ⊎ ((b ≡ 248) × (k ≡ 5))
      ⊎ ((b ≡ 252) × (k ≡ 6))
      ⊎ ((b ≡ 254) × (k ≡ 7))
unfolding byte_ones
byte_ones-cases b k h = ground arith

-- Zeros stand for nothing and fill their places.
zeros-number : (bs : List ℕ) → all_of (λ x. x == 0) bs ≡ true → number bs ≡ 0
unfolding number
zeros-number [] h = refl
zeros-number (b ∷ bs) h =
    let rest = zeros-number bs (ground arith) in
    let b_zero : b ≡ 0 = ground arith in rw b_zero (omega (arith, rest))

two_to-places : (bs : List ℕ) → two_to (8 * length bs) ≡ places bs
unfolding two_to places
two_to-places [] = refl
two_to-places (b ∷ bs) =
    let e : 8 * suc (length bs) ≡ suc (suc (suc (suc (suc (suc (suc (suc (8 * length bs)))))))) =
      omega arith in
    let rest = two_to-places bs in rw e (omega (arith, rest))

-- The byte with the ones' end before the places that zeros fill.
byte_ones-fill :
    (b k m p : ℕ)
    → byte_ones b ≡ some k
    → two_to m ≡ p
    → (free : ℕ) × ((k + free ≡ 8 + m) × (b * p + two_to free ≡ 256 * p))
unfolding two_to
byte_ones-fill b k m p h e = elim (byte_ones-cases b k h) [
  | inl (eb, ek) ↦
      rw (eb, ek) (suc (suc (suc (suc (suc (suc (suc (suc m))))))), (omega arith, omega (arith, e)))
  | inr (inl (eb, ek)) ↦
      rw (eb, ek) (suc (suc (suc (suc (suc (suc (suc m)))))), (omega arith, omega (arith, e)))
  | inr (inr (inl (eb, ek))) ↦
      rw (eb, ek) (suc (suc (suc (suc (suc (suc m))))), (omega arith, omega (arith, e)))
  | inr (inr (inr (inl (eb, ek)))) ↦
      rw (eb, ek) (suc (suc (suc (suc (suc m)))), (omega arith, omega (arith, e)))
  | inr (inr (inr (inr (inl (eb, ek))))) ↦
      rw (eb, ek) (suc (suc (suc (suc m))), (omega arith, omega (arith, e)))
  | inr (inr (inr (inr (inr (inl (eb, ek)))))) ↦
      rw (eb, ek) (suc (suc (suc m)), (omega arith, omega (arith, e)))
  | inr (inr (inr (inr (inr (inr (inl (eb, ek))))))) ↦
      rw (eb, ek) (suc (suc m), (omega arith, omega (arith, e)))
  | inr (inr (inr (inr (inr (inr (inr (eb, ek))))))) ↦
      rw (eb, ek) (suc m, (omega arith, omega (arith, e)))
]

add_byte-Leads :
    (bs : List ℕ) (n : ℕ) (o : Option ℕ)
    → ((m : ℕ) → o ≡ some m → Leads m bs)
    → add_byte o ≡ some n
    → Leads n (255 ∷ bs)
unfolding Leads number places
add_byte-Leads bs n none ih h = ground arith
add_byte-Leads bs n (some m) ih h =
    let (free, (eq, fill)) = ih m refl in
    let e : 8 + m ≡ n = some_eq h in (free, (omega (arith, e, eq), omega (arith, fill)))

byte_ones-Leads :
    (b n : ℕ) (bs : List ℕ)
    → all_of (λ x. x == 0) bs ≡ true
    → byte_ones b ≡ some n
    → Leads n (b ∷ bs)
unfolding Leads number places
byte_ones-Leads b n bs zeros h =
    let (free, (eq, fill)) = byte_ones-fill b n (8 * length bs) (places bs) h (two_to-places bs) in
    let none_left = zeros-number bs zeros in
    (free, (omega (arith, eq), omega (arith, fill, none_left)))

nil-Leads : (n : ℕ) → 0 ≡ n → Leads n []
unfolding Leads number places two_to
nil-Leads n h = (0, (omega (arith, h), refl))

ones-Leads : (bs : List ℕ) (n : ℕ) → ones bs ≡ some n → Leads n bs
unfolding ones
ones-Leads [] n h = nil-Leads n (some_eq h)
ones-Leads (b ∷ bs) n h = elim (Bool-cases (b == 255)) [
  | inl is ↦
      let b_all : b ≡ 255 = ground arith in
      let added : add_byte (ones bs) ≡ some n = ground arith in
      rw b_all (add_byte-Leads bs n (ones bs) (ones-Leads bs) added)
  | inr other ↦ byte_ones-Leads b n bs (ground arith) (ground arith)
]

size-Leads : (o : Octets) → ltb 0 (size o) ≡ true → Leads (size o) (bytes o)
unfolding size
size-Leads o h = elim (Option-cases (ones (bytes o))) [
  | inl gone ↦ ground arith
  | inr (n, e) ↦ rw (e, size) (ones-Leads (bytes o) n e)
]

has_ones-Leads :
    (parsed : Option Octets)
    → has_ones parsed ≡ true
    → (o : Octets) × ((parsed ≡ some o) × ((1 ≤ size o) × (size o ≤ 32) × Leads (size o) (bytes o)))
unfolding Leads
has_ones-Leads none h = ground arith
has_ones-Leads (some o) h =
    let (free, (eq, fill)) = size-Leads o h in
    (o, (refl, (ground arith, omega (arith, eq), (free, (eq, fill)))))

-- A netmask that validIPv4Mask accepts is an IPv4 address whose length is from 1 to 32 and whose 32 bits
-- are that many ones and then zeros.
pub valid_ipv4_mask-Leads :
    (net : Net) (mask : String)
    → valid_ipv4_mask net mask ≡ true
    → (o : Octets) × ((net.parse_v4 mask ≡ some o)
        × ((1 ≤ size o) × (size o ≤ 32) × Leads (size o) (bytes o)))
unfolding valid_ipv4_mask
valid_ipv4_mask-Leads net mask h = has_ones-Leads (net.parse_v4 mask) h
