-- ===== src/Generator/Masks.antt =====
-- internal/generator/validate.go and preflight.go: netmasks. `Size` of Go's net.IPMask counts the leading
-- ones of a mask whose ones all lead.
pub mod Bounds
use Prim.Native.String.{String}
use cube_cos_driver.Base.{
  ℕ, zero, suc, ◌+◌, ltb, ◌==◌, Bool, true, false, ◌&&◌, all_of, List, [], ◌∷◌, Option, none, some,
  if◌then◌else◌,
}
use cube_cos_driver.Generator.{Octets, Net}

-- The ones of a byte that is not 255, when they lead.
unfoldable pub byte_ones : ℕ → Option ℕ
byte_ones b =
    if b == 0
    then some 0
    else if b == 128
    then some 1
    else if b == 192
    then some 2
    else if b == 224
    then some 3
    else if b == 240
    then some 4
    else if b == 248
    then some 5
    else if b == 252
    then some 6
    else if b == 254
    then some 7
    else none

abbrev pub add_byte : Option ℕ → Option ℕ
add_byte none = none
add_byte (some n) = some (8 + n)

-- The loop over the bytes: after the first that is not 255 all must be 0.
unfoldable pub ones : List ℕ → Option ℕ
unfolding byte_ones
ones [] = some 0
ones (b ∷ bs) =
    let rest = ones bs in
    if b == 255 then add_byte rest else if all_of (λ x. x == 0) bs then byte_ones b else none

abbrev pub bytes : Octets → List ℕ
bytes o = o.first ∷ o.second ∷ o.third ∷ o.fourth ∷ []

-- The first number of `Size`, which is 0 for a mask that is none.
unfoldable pub size : Octets → ℕ
unfolding ones
size o = elim (ones (bytes o)) [ none ↦ 0 | some n ↦ n ]

-- The test on a mask that was parsed: `bits == 32 && ones > 0`.
abbrev pub has_ones : Option Octets → Bool
has_ones none = false
has_ones (some o) = ltb 0 (size o)

-- `validIPv4Mask`.
unfoldable pub valid_ipv4_mask : Net → String → Bool
unfolding size
valid_ipv4_mask net mask = has_ones (net.parse_v4 mask)

abbrev pub prefix_of : Option Octets → Option ℕ
prefix_of none = none
prefix_of (some o) = some (size o)

-- `maskToPrefix`, with `none` for -1.
unfoldable pub mask_to_prefix : Net → String → Option ℕ
unfolding size
mask_to_prefix net mask = prefix_of (net.parse_v4 (net.trim_space mask))
