-- ===== src/Generator/Preflight/Peers.antt =====
-- Who pings whom.
use Prim.Native.String.{String}
use cube_cos_driver.Base.{
  Bool, true, false, not, ◌&&◌, ◌||◌, any_of, ◌≡◌, refl, ◌∙◌, List, [], ◌∷◌, ◌++◌, arith, str_eq,
  eq_iff, if◌then◌else◌,
}
use cube_cos_driver.Clusters.{NodeConfig}
use cube_cos_driver.Clusters.Bundles.{PfPeer}
use cube_cos_driver.Generator.Preflight.{preflight_roles, role_ip, peers_on, peers_of, build_peers}

-- The peers hold a node's address on a role's network.
unfoldable pub lists : String → String → String → List PfPeer → Bool
lists host role ip [] = false
lists host role ip (p ∷ ps) =
    (str_eq p.hostname host && (str_eq p.role role && str_eq p.ip ip)) || lists host role ip ps

lists-append :
    (host role ip : String) (ps qs : List PfPeer)
    → lists host role ip (ps ++ qs) ≡ (lists host role ip ps || lists host role ip qs)
unfolding lists
lists-append host role ip [] qs = refl
lists-append host role ip (p ∷ ps) qs = ground (arith, lists-append host role ip ps qs)

-- A node is on a role's network.
abbrev pub is_on : NodeConfig → String → Bool
is_on n role = not (str_eq (role_ip n role) "")

-- Some node of the list has that name and, on the role's network, that address.
unfoldable pub has_node : String → String → String → List NodeConfig → Bool
has_node host role ip [] = false
has_node host role ip (o ∷ os) =
    (str_eq o.hostname host && (is_on o role && str_eq (role_ip o role) ip))
    || has_node host role ip os

-- One step of the loop, whatever its tests give.
lists-step :
    (host role ip : String) (same on : Bool) (p : PfPeer) (rest : List PfPeer)
    → lists host role ip (if same then rest else if on then p ∷ rest else rest) ≡ (
        (not same && (on && (str_eq p.hostname host && (str_eq p.role role && str_eq p.ip ip))))
        || lists host role ip rest)
unfolding lists
lists-step host role ip true on p rest = refl
lists-step host role ip false true p rest = refl
lists-step host role ip false false p rest = refl

-- The other node is the one asked for, so that it is the node itself exactly when that one is.
step_tests :
    (same on named asked at own found : Bool)
    → (named ≡ true → own ≡ same)
    → ((not same && (on && (named && (asked && at)))) || (asked && (not own && found)))
      ≡ (asked && (not own && ((named && (on && at)) || found)))
step_tests same on true true at own found h = rw (h refl) (ground arith)
step_tests same on true false at own found h = ground arith
step_tests same on false asked at own found h = ground arith

same_name : (a b c : String) → str_eq a b ≡ true → str_eq b c ≡ str_eq a c
same_name a b c h = let e : a ≡ b = ground (arith, eq_iff a b) in rw e refl

module _ (self : NodeConfig) (host role ip : String) where
  peers_on-lists :
      (r : String) (all : List NodeConfig)
      → lists host role ip (peers_on self r all)
        ≡ (str_eq r role && (not (str_eq host self.hostname) && has_node host r ip all))
  unfolding lists peers_on has_node
  peers_on-lists r [] = ground arith
  peers_on-lists r (o ∷ os) =
      lists-step host role ip (str_eq o.hostname self.hostname) (is_on o r)
        (record { hostname = o.hostname; role = r; ip = role_ip o r }) (peers_on self r os)
      ∙ (rw (peers_on-lists r os) (
          step_tests (str_eq o.hostname self.hostname) (is_on o r) (str_eq o.hostname host)
            (str_eq r role) (str_eq (role_ip o r) ip) (str_eq host self.hostname)
            (has_node host r ip os) (same_name o.hostname host self.hostname)))

  -- One of the roles is the one asked for, and the node is on its network.
  abbrev asks : List String → Bool
  asks [] = false
  asks (r ∷ rs) = (str_eq r role && is_on self r) || asks rs

  abbrev found : List NodeConfig → Bool
  found all = not (str_eq host self.hostname) && has_node host role ip all

  peers_of-step :
      (r : String) (off : Bool) (all : List NodeConfig) (rest : List PfPeer)
      → lists host role ip (if off then rest else peers_on self r all ++ rest) ≡ (
          (str_eq r role
            && (not off && (not (str_eq host self.hostname) && has_node host r ip all)))
          || lists host role ip rest)
  peers_of-step r true all rest = ground arith
  peers_of-step r false all rest =
      lists-append host role ip (peers_on self r all) rest ∙ rw (peers_on-lists r all) refl

  asked-found :
      (r : String) (all : List NodeConfig) (named on : Bool)
      → str_eq r role ≡ named
      → ((named && (on && (not (str_eq host self.hostname) && has_node host r ip all))))
        ≡ ((named && on) && found all)
  asked-found r all false on e = refl
  asked-found r all true false e = refl
  asked-found r all true true e =
      let named : r ≡ role = ground (arith, eq_iff r role) in rw named refl

  both : (a b c : Bool) → ((a && c) || (b && c)) ≡ ((a || b) && c)
  both a b c = ground arith

  peers_of-lists :
      (all : List NodeConfig) (rs : List String)
      → lists host role ip (peers_of self all rs) ≡ (asks rs && found all)
  unfolding peers_of lists
  peers_of-lists all [] = refl
  peers_of-lists all (r ∷ rs) =
      peers_of-step r (str_eq (role_ip self r) "") all (peers_of self all rs)
      ∙ (rw (peers_of-lists all rs) (
          rw (asked-found r all (str_eq r role) (is_on self r) refl)
            (both (str_eq r role && is_on self r) (asks rs) (found all))))

  asks-on : (rs : List String) → asks rs ≡ (any_of (λ r. str_eq r role) rs && is_on self role)
  asks-on [] = refl
  asks-on (r ∷ rs) = ground (arith, asks-on rs, eq_iff r role)

-- With a node on a role's network when the role's interface there has an address, enabled or not: a
-- node's peers are, on each role's network that it is on, every other node that is on it, with the
-- address there, and nothing else.
pub build_peers-lists :
    (self : NodeConfig) (all : List NodeConfig) (host role ip : String)
    → lists host role ip (build_peers self all) ≡ (
        (any_of (λ r. str_eq r role) preflight_roles && is_on self role)
        && (not (str_eq host self.hostname) && has_node host role ip all))
unfolding build_peers
build_peers-lists self all host role ip =
    peers_of-lists self host role ip all preflight_roles
    ∙ rw (asks-on self host role ip preflight_roles) refl
