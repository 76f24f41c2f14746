-- ===== src/Enterprise/Cluster.antt =====
-- internal/clusterssh/client.go: what an installation does to a cluster, as the interface `Client` of
-- the package, with the time and the cancelling of the run's context beside it. A step's work is an
-- `Action`: it prints lines, ends in a value or an error, and leaves the cluster in a new state.
pub mod Probe
pub mod Copy
pub mod Progress
pub mod Framework
use Prim.Native.String.{String}
use cube_cos_driver.Base.{
  ℕ, Bool, true, false, List, [], ◌∷◌, ◌++◌, Option, none, some, ◌≡◌, refl, arith,
}

-- An error, and whether it is `clusterssh.ErrConnectionLost`.
pub record Error : Type 0 where
  pub message : String
  pub lost : Bool

pub data Result (A : Type 0) : Type 0 where
  ok : A → Result A
  failed : Error → Result A

-- `pause` waits for so many seconds or for the end of the context, whose error it then gives.
pub record Client : Type 1 where
  pub S : Type 0
  pub run : String → S → List String × Option Error × S
  pub push : String → String → S → Option Error × S
  pub cancelled : S → Option Error
  pub now : S → ℕ
  pub pause : ℕ → S → Option Error × S

abbrev pub Action : Type 0 → Type 0 → Type 0
Action S A = S → List String × Result A × S

-- What follows a finished action: nothing after an error.
abbrev pub follow :
    {S A B : Type 0} → List String × Result A × S → (A → Action S B) → List String × Result B × S
follow (out, ok a, s) f = let (more, r, t) = f a s in (out ++ more, r, t)
follow (out, failed e, s) f = (out, failed e, s)

infixl 5 ◌>>=◌ ◌>>◌
abbrev pub ◌>>=◌ : {S A B : Type 0} → Action S A → (A → Action S B) → Action S B
◌>>=◌ m f s = follow (m s) f

abbrev pub ◌>>◌ : {S A B : Type 0} → Action S A → Action S B → Action S B
m >> k = m >>= λ _. k

module _ {S : Type 0} where
  abbrev pub give : {A : Type 0} → A → Action S A
  give a s = ([], ok a, s)

  abbrev pub fail : {A : Type 0} → Error → Action S A
  fail e s = ([], failed e, s)

  -- `fmt.Errorf`.
  abbrev pub refuse : {A : Type 0} → String → Action S A
  refuse message = fail (record { message = message; lost = false })

  abbrev pub say : String → Action S (Unit {0})
  say line s = (line ∷ [], ok tt, s)

abbrev pub outcome : Option Error → Result (Unit {0})
outcome none = ok tt
outcome (some e) = failed e

-- How a command is run: its lines are printed, collected, both, or ignored with its error.
module _ (c : Client) where
  abbrev pub shown : String → Action c.S (Unit {0})
  shown cmd s = let (out, e, s') = c.run cmd s in (out, outcome e, s')

  abbrev pub collected : String → Action c.S (List String)
  collected cmd s = let (out, e, s') = c.run cmd s in ([], ok out, s')

  abbrev pub teed : String → Action c.S (List String)
  teed cmd s =
      let (out, e, s') = c.run cmd s in (out, elim e [ none ↦ ok out | some x ↦ failed x ], s')

  -- Whether a command ends without an error.
  abbrev pub succeeds : String → Action c.S Bool
  succeeds cmd s =
      let (out, e, s') = c.run cmd s in ([], ok (elim e [ none ↦ true | some _ ↦ false ]), s')

  abbrev pub pushed : String → String → Action c.S (Unit {0})
  pushed path dir s = let (e, s') = c.push path dir s in ([], outcome e, s')

-- An action that ends well, and whose parts so end well.
module _ {S A B : Type 0} where
  follow-ok :
      (p : List String × Result A × S) (f : A → Action S B) (out : List String) (b : B) (s' : S)
      → follow p f ≡ (out, ok b, s')
      → (a : A) × (t : S) × (first : List String) × (second : List String) × (p ≡ (first, ok a, t))
        × (f a t ≡ (second, ok b, s'))
  follow-ok (first, ok a, t) f out b s' h = (a, t, first, (f a t).0, refl, ground arith)
  follow-ok (first, failed e, t) f out b s' h = cc

  pub bind-ok :
      (m : Action S A) (f : A → Action S B) (s s' : S) (out : List String) (b : B)
      → (m >>= f) s ≡ (out, ok b, s')
      → (a : A) × (t : S) × (first : List String) × (second : List String) × (m s
          ≡ (first, ok a, t))
        × (f a t ≡ (second, ok b, s'))
  bind-ok m f s s' out b h = follow-ok (m s) f out b s' h

-- What holds whenever an action ends well, of its value and of the cluster it leaves.
unfoldable pub Ends : {S B : Type 0} → (B → S → Type 0) → Action S B → Type 0
Ends {S} {B} P m = (s s' : S) (out : List String) (b : B) → m s ≡ (out, ok b, s') → P b s'

pub >>=-Ends :
    {S A B : Type 0} (P : B → S → Type 0) (m : Action S A) (f : A → Action S B)
    → ((a : A) → Ends P (f a))
    → Ends P (m >>= f)
unfolding Ends
>>=-Ends P m f rest s s' out b h =
    let (a, t, first, second, e, e') = bind-ok m f s s' out b h in rest a t s' second b e'
