-- ===== src/Base/Maps.antt =====
-- A Go map with string keys, as an association list: `m[k]`, `m[k] = v`, `delete`, and a change of
-- the value that a key holds.
use Prim.Native.String.{String}
use mathlib.Core.Path.{◌≡◌, refl}
use mathlib.Core.Logic.{◌⊎◌}
use mathlib.Core.Option.{Option, none, some}
use mathlib.Core.List.{List, [], ◌∷◌}
use native.Mathlib.Omega.{arith}
use text.Mathlib.Text.{◌==◌ as str_eq}
use text.Mathlib.TextEquality.{eq_iff}
use cube_cos_driver.Base.Tests.{if◌then◌else◌}

abbrev pub Map {ℓ} : Type ℓ → Type ℓ
Map V = List (String × V)

module _ {ℓ} {V : Type ℓ} where
  unfoldable pub lookup : String → Map V → Option V
  lookup key [] = none
  lookup key ((k, v) ∷ rest) = if str_eq k key then some v else lookup key rest

  unfoldable pub remove : String → Map V → Map V
  remove key [] = []
  remove key ((k, v) ∷ rest) =
      let others = remove key rest in if str_eq k key then others else (k, v) ∷ others

  unfoldable pub insert : String → V → Map V → Map V
  insert key new [] = (key, new) ∷ []
  insert key new ((k, v) ∷ rest) =
      if str_eq k key then (key, new) ∷ rest else (k, v) ∷ insert key new rest

  -- A key holds what was written to it last.
  pub lookup-insert :
      (written key : String) (new : V) (kvs : Map V)
      → lookup key (insert written new kvs)
        ≡ (if str_eq written key then some new else lookup key kvs)
  unfolding insert lookup
  lookup-insert written key new [] = refl
  lookup-insert written key new ((k, v) ∷ rest) = ground (
    arith,
    lookup-insert written key new rest,
    eq_iff k key,
    eq_iff written key,
    eq_iff k written,
  )

  pub lookup-remove :
      (k j : String) (m : Map V) → lookup j (remove k m) ≡ (if str_eq k j then none else lookup j m)
  unfolding lookup remove
  lookup-remove k j [] = ground arith
  lookup-remove k j ((i, w) ∷ m) =
      ground (arith, eq_iff k j, eq_iff i k, eq_iff i j, lookup-remove k j m)

  -- What a lookup finds after a write or a removal.
  pub lookup-insert-some :
      (k j : String) (v w : V) (m : Map V)
      → lookup j (insert k v m) ≡ some w
      → (v ≡ w) ⊎ (lookup j m ≡ some w)
  lookup-insert-some k j v w m h = ground (arith, lookup-insert k j v m)

  pub lookup-remove-some :
      (k j : String) (w : V) (m : Map V) → lookup j (remove k m) ≡ some w → lookup j m ≡ some w
  lookup-remove-some k j w m h = ground (arith, lookup-remove k j m)

-- A write is found again.
module _ {ℓ} {V : Type ℓ} where
  pub lookup-insert_same : (k : String) (v : V) (m : Map V) → lookup k (insert k v m) ≡ some v
  lookup-insert_same k v m = ground (arith, eq_iff k k, lookup-insert k k v m)
