-- ===== src/Generator/Preflight/Symmetric.antt =====
-- The pings of two nodes, in both directions.
use Prim.Native.String.{String}
use cube_cos_driver.Base.{
  ℕ, zero, suc, Bool, true, false, not, ◌&&◌, any_of, ◌≡◌, refl, List, [], ◌∷◌, arith, str_eq,
  eq_iff, eq_refl, some, some_eq, get_elem?, sym, ◌∙◌,
}
use cube_cos_driver.Clusters.{NodeConfig}
use cube_cos_driver.Generator.Preflight.{preflight_roles, role_ip, build_peers}
use cube_cos_driver.Generator.Preflight.Peers.{lists, is_on, has_node, build_peers-lists}

-- An address that is found is one.
has_node-address :
    (host role ip : String) (all : List NodeConfig)
    → has_node host role ip all ≡ true
    → str_eq ip "" ≡ false
unfolding has_node
has_node-address host role ip [] h = ground arith
has_node-address host role ip (o ∷ os) h =
    ground (arith, has_node-address host role ip os, eq_iff (role_ip o role) ip)

-- A node of the list that is on the network is found.
get_elem?-has_node :
    (role : String) (all : List NodeConfig) (i : ℕ) (a : NodeConfig)
    → get_elem? all i ≡ some a
    → is_on a role ≡ true
    → has_node a.hostname role (role_ip a role) all ≡ true
unfolding has_node
get_elem?-has_node role [] i a at on = ground arith
get_elem?-has_node role (o ∷ os) zero a at on =
    let e : o ≡ a = some_eq at in
    rw e (ground (arith, eq_refl a.hostname, eq_refl (role_ip a role)))
get_elem?-has_node role (o ∷ os) (suc i) a at on =
    ground (arith, get_elem?-has_node role os i a at on)

all_three :
    (asked on same found : Bool)
    → ((asked && on) && (not same && found)) ≡ true
    → (asked ≡ true) × (on ≡ true) × (same ≡ false) × (found ≡ true)
all_three asked on same found h = (ground arith, ground arith, ground arith, ground arith)

-- Of two nodes of a cluster, if the one is to ping the other on a role's network then the other is to ping
-- it there.
build_peers-symmetric :
    (all : List NodeConfig) (i j : ℕ) (a b : NodeConfig) (role : String)
    → get_elem? all i ≡ some a
    → get_elem? all j ≡ some b
    → lists b.hostname role (role_ip b role) (build_peers a all) ≡ true
    → lists a.hostname role (role_ip a role) (build_peers b all) ≡ true
build_peers-symmetric all i j a b role at_a at_b h =
    let there = (sym (build_peers-lists a all b.hostname role (role_ip b role))) ∙ h in
    let (asked, on, apart, found) =
      all_three (any_of (λ r. str_eq r role) preflight_roles) (is_on a role)
        (str_eq b.hostname a.hostname) (has_node b.hostname role (role_ip b role) all) there in
    let b_on : is_on b role ≡ true =
      rw (has_node-address b.hostname role (role_ip b role) all found) refl in
    let apart' : str_eq a.hostname b.hostname ≡ false =
      ground (arith, eq_iff a.hostname b.hostname, eq_iff b.hostname a.hostname) in
    build_peers-lists b all a.hostname role (role_ip a role)
    ∙ rw (asked, b_on, apart', get_elem?-has_node role all i a at_a on) refl
