-- ===== src/Clusters/Checks.antt =====
-- What follows from a chain of checks that finds no error.
use Prim.Native.String.{String}
use cube_cos_driver.Base.{
  ℕ, zero, suc, all_of, any_of, List, [], ◌∷◌, some_eq, get_elem?, Bool, true, false, not, ◌≡◌,
  refl, Option, none, some, arith, if◌then◌else◌,
}
use cube_cos_driver.Clusters.{or_then}

pub or_then-none : (a b : Option String) → or_then a b ≡ none → (a ≡ none) × (b ≡ none)
or_then-none none b h = (refl, h)
or_then-none (some e) b h = ground arith

pub refuse-none :
    (wrong : Bool) (why : String) (rest : Option String)
    → (if wrong then some why else rest) ≡ none
    → (wrong ≡ false) × (rest ≡ none)
refuse-none true why rest h = ground arith
refuse-none false why rest h = (refl, h)

pub not-false : (b : Bool) → b ≡ false → not b ≡ true
not-false true h = ground arith
not-false false h = refl

pub is_false : (b : Bool) → not b ≡ true → b ≡ false
is_false true h = ground arith
is_false false h = refl

pub is_true : (b : Bool) → not b ≡ false → b ≡ true
is_true true h = refl
is_true false h = ground arith

pub all_of-get_elem? :
    {A : Type 0} (p : A → Bool) (xs : List A) (i : ℕ) (a : A)
    → all_of p xs ≡ true
    → get_elem? xs i ≡ some a
    → p a ≡ true
all_of-get_elem? p [] i a h at = ground arith
all_of-get_elem? p (x ∷ xs) zero a h at = let e : x ≡ a = some_eq at in rw (← e) (ground arith)
all_of-get_elem? p (x ∷ xs) (suc i) a h at = all_of-get_elem? p xs i a (ground arith) at

pub any_of-get_elem? :
    {A : Type 0} (p : A → Bool) (xs : List A) (i : ℕ) (a : A)
    → get_elem? xs i ≡ some a
    → p a ≡ true
    → any_of p xs ≡ true
any_of-get_elem? p [] i a at h = ground arith
any_of-get_elem? p (x ∷ xs) zero a at h = let e : x ≡ a = some_eq at in rw e (ground arith)
any_of-get_elem? p (x ∷ xs) (suc i) a at h =
    let rest = any_of-get_elem? p xs i a at h in ground arith
