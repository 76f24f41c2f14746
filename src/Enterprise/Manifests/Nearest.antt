-- ===== src/Enterprise/Manifests/Nearest.antt =====
-- The manifest that is chosen for a cluster.
use Prim.Native.String.{String}
use cube_cos_driver.Base.{
  ltb, Bool, true, false, not, ◌&&◌, ◌||◌, ◌≡◌, refl, sym, subst, List, [], ◌∷◌, ◌++◌, All, Option,
  none, some, arith, str_eq, if◌then◌else◌, Bool-cases, inl, inr,
}
use cube_cos_driver.Enterprise.Text.{Library}
use cube_cos_driver.Enterprise.Records.{Manifest}
use cube_cos_driver.Enterprise.Manifests.{distance, nearest, choose, is_exact, scan, match_manifest}

module _ {A : Type 0} where
  All-map : (P Q : A → Type 0) (xs : List A) → ((x : A) → P x → Q x) → All P xs → All Q xs
  All-map P Q [] f h = tt
  All-map P Q (x ∷ xs) f (p, h) = (f x p, All-map P Q xs f h)

  All-both :
      (P Q R : A → Type 0) (xs : List A)
      → ((x : A) → P x → Q x → R x)
      → All P xs
      → All Q xs
      → All R xs
  All-both P Q R [] f h k = tt
  All-both P Q R (x ∷ xs) f (p, h) (q, k) = (f x p q, All-both P Q R xs f h k)

  All-append : (P : A → Type 0) (xs : List A) (x : A) → All P xs → P x → All P (xs ++ x ∷ [])
  All-append P [] y h p = (p, tt)
  All-append P (x ∷ xs) y (q, h) p = (q, All-append P xs y h p)

  All-init : (P : A → Type 0) (xs : List A) (x : A) → All P (xs ++ x ∷ []) → All P xs × P x
  All-init P [] y (p, h) = (tt, p)
  All-init P (x ∷ xs) y (q, h) = let (i, p) = All-init P xs y h in ((q, i), p)

module _ (lib : Library) (version build commit : String) where
  -- A manifest that should have been chosen instead: any of the version when none was chosen; otherwise
  -- an exact one, or one of a nearer build, unless the chosen one is exact.
  unfoldable pub beats : Option Manifest → Manifest → Bool
  beats none m = str_eq m.version version
  beats (some chosen) m =
      not (is_exact lib commit chosen)
      && (str_eq m.version version
          && (is_exact lib commit m || ltb (distance lib build m) (distance lib build chosen)))

  abbrev pub has_version : Option Manifest → Bool
  has_version none = true
  has_version (some m) = str_eq m.version version

  -- The manifest is as near as each of them.
  abbrev Least : Manifest → List Manifest → Manifest → Type 0
  Least best ms n =
      (ltb (distance lib build best) (distance lib build n) ≡ false)
      × All (λ m. ltb (distance lib build m) (distance lib build n) ≡ false) ms

  -- One round of the search.
  pick : Manifest → Manifest → List Manifest → Bool → Manifest
  pick best m ms b = nearest lib build (if b then m else best) ms

  nearest-Least : (best : Manifest) (ms : List Manifest) → Least best ms (nearest lib build best ms)
  unfolding nearest pick
  nearest-Least best [] = (ground arith, tt)
  nearest-Least best (m ∷ ms) =
      elim (Bool-cases (ltb (distance lib build m) (distance lib build best))) [
        | inl e ↦
            (let (h, k) = nearest-Least m ms in
              subst (λ b. Least best (m ∷ ms) (pick best m ms b)) (sym e) (ground arith, (h, k)))
        | inr e ↦
            (let (h, k) = nearest-Least best ms in
              subst (λ b. Least best (m ∷ ms) (pick best m ms b)) (sym e) (h, (ground arith, k)))
      ]

  nearest-any :
      (P : Manifest → Type 0) (best : Manifest) (ms : List Manifest)
      → P best
      → All P ms
      → P (nearest lib build best ms)
  unfolding nearest
  nearest-any P best [] p h = p
  nearest-any P best (m ∷ ms) p (q, h) =
      elim (Bool-cases (ltb (distance lib build m) (distance lib build best))) [
        | inl e ↦ rw (nearest, e) (nearest-any P m ms q h)
        | inr e ↦ rw (nearest, e) (nearest-any P best ms p h)
      ]

  -- Of the version, and not exact.
  abbrev Left : Manifest → Type 0
  Left m = (str_eq m.version version ≡ true) × (is_exact lib commit m ≡ false)

  choose-best :
      (same : List Manifest)
      → All Left same
      → (has_version (choose lib build same) ≡ true)
        × All (λ m. beats (choose lib build same) m ≡ false) same
  unfolding choose beats
  choose-best [] h = (refl, tt)
  choose-best (m ∷ ms) (l, h) =
      let (near, rest) = nearest-Least m ms in
      (
        nearest-any (λ x. str_eq x.version version ≡ true) m ms l.0
            (All-map Left _ ms (λ x y. y.0) h),
        (ground arith, All-both Left _ _ ms (λ x y z. ground arith) h rest),
      )

  abbrev Best : List Manifest → List Manifest → Option Manifest → Type 0
  Best same ms r =
      (has_version r ≡ true) × (All (λ m. beats r m ≡ false) same × All (λ m. beats r m ≡ false) ms)

  not_beaten :
      (m : Manifest) (ms : List Manifest)
      → is_exact lib commit m ≡ true
      → All (λ x. beats (some m) x ≡ false) ms
  unfolding beats
  not_beaten m [] e = tt
  not_beaten m (x ∷ xs) e = (ground arith, not_beaten m xs e)

  other-beats :
      (m : Manifest) (r : Option Manifest) → str_eq m.version version ≡ false → beats r m ≡ false
  unfolding beats
  other-beats m none h = h
  other-beats m (some x) h = ground arith

  scan-Best :
      (same ms : List Manifest)
      → All Left same
      → Best same ms (scan lib version build commit same ms)
  unfolding scan
  scan-Best same [] h = let (v, b) = choose-best same h in (v, (b, tt))
  scan-Best same (m ∷ ms) h = elim (Bool-cases (str_eq m.version version)) [
    | inr other ↦
        (let (v, (a, b)) = scan-Best same ms h in
          let eq : scan lib version build commit same (m ∷ ms)
              ≡ scan lib version build commit same ms =
            rw other refl in
          subst (Best same (m ∷ ms)) (sym eq) (v, (a, (other-beats m _ other, b))))
    | inl this ↦ elim (Bool-cases (is_exact lib commit m)) [
      | inl exact ↦
          (let eq : scan lib version build commit same (m ∷ ms) ≡ some m = rw (this, exact) refl in
            subst (Best same (m ∷ ms)) (sym eq)
              (this, (not_beaten m same exact, not_beaten m (m ∷ ms) exact)))
      | inr not_exact ↦
          (let more = same ++ m ∷ [] in
            let (v, (a, b)) = scan-Best more ms (All-append Left same m h (this, not_exact)) in
            let (old, new) = All-init _ same m a in
            let eq : scan lib version build commit same (m ∷ ms)
                ≡ scan lib version build commit more ms =
              rw (this, not_exact) refl in
            subst (Best same (m ∷ ms)) (sym eq) (v, (old, (new, b))))
    ]
  ]

  -- The manifest that is chosen is of the cluster's version, and no other of them should have been
  -- chosen instead: when none is, none is of that version; when one is that is not of the same commit,
  -- none of that version is of the same commit or of a nearer build.
  pub match_manifest-best :
      (ms : List Manifest)
      → (has_version (match_manifest lib ms version build commit) ≡ true)
        × All (λ m. beats (match_manifest lib ms version build commit) m ≡ false) ms
  unfolding match_manifest
  match_manifest-best ms = let (v, (_, b)) = scan-Best [] ms tt in (v, b)
