-- ===== src/Inventory/Assigned.antt =====
-- Assign, Unassign and UnassignCluster as questions to the store: which machine is at which node.
use cube_cos_driver.Base.{
  String, Bool, false, ◌&&◌, ◌≡◌, refl, List, [], ◌∷◌, Option, none, some, arith, str_eq, eq_iff,
  Map, any_of, map, if◌then◌else◌,
}
use cube_cos_driver.Base.Maps.{lookup}
use cube_cos_driver.Inventory.Machines.{Assignment, MachineRecord, bindings, is_at, is_in}
use cube_cos_driver.Inventory.Store.{MachineStore, bind, names, unassign_cluster}
use cube_cos_driver.Inventory.Store.Bound.{
  record_at, some_binding, has, IsFiled, unless, listed, drop_all-has,
}

-- The machine is bound to the node.
abbrev pub bound_at : String → String → String → MachineStore → Bool
bound_at cid host = has (is_at cid host)

-- The machine is bound to the node with this OS disk, which is all that a binding says.
abbrev is_bound : String → String → String → Assignment → Bool
is_bound cid host disk a = is_at cid host a && str_eq a.os_disk disk

abbrev pub bound_with : String → String → String → String → MachineStore → Bool
bound_with cid host disk = has (is_bound cid host disk)

listed-names :
    (i : String) (m : Map (Option MachineRecord))
    → listed i (map (λ kv. kv.0) m) ≡ false
    → lookup i m ≡ none
unfolding lookup
listed-names i [] h = refl
listed-names i ((j, v) ∷ m) h = ground (arith, listed-names i m)

any_of-unless_in :
    (c c' h' disk : String) (xs : List Assignment)
    → any_of (unless (is_in c) (is_bound c' h' disk)) xs
      ≡ (if str_eq c c' then false else any_of (is_bound c' h' disk) xs)
any_of-unless_in c c' h' disk [] = ground arith
any_of-unless_in c c' h' disk (a ∷ xs) = ground (
  arith,
  any_of-unless_in c c' h' disk xs,
  eq_iff a.cluster_id c,
  eq_iff a.cluster_id c',
  eq_iff c c',
)

some_binding-unless_in :
    (c c' h' disk : String) (o : Option MachineRecord)
    → some_binding (unless (is_in c) (is_bound c' h' disk)) o
      ≡ (if str_eq c c' then false else some_binding (is_bound c' h' disk) o)
some_binding-unless_in c c' h' disk none = ground arith
some_binding-unless_in c c' h' disk (some r) = any_of-unless_in c c' h' disk (bindings r)

-- In a store whose readable records stand under their own ids: after an UnassignCluster that
-- succeeds no machine has a binding to the cluster, and whether a machine is bound to a node of
-- another cluster with a given OS disk is as it was.
pub unassign_cluster-bound_with :
    (cid c h disk i : String) (st : MachineStore)
    → IsFiled st
    → (unassign_cluster cid st).0 ≡ none
    → bound_with c h disk i (unassign_cluster cid st).1
      ≡ (if str_eq cid c then false else bound_with c h disk i st)
unfolding unassign_cluster
unassign_cluster-bound_with cid c h disk i st filed fine =
    let dropped =
      drop_all-has (is_in cid) (is_bound c h disk) (names st) i st filed (ground arith) in
    ground (arith, some_binding-unless_in cid c h disk (record_at i st), listed-names i st.files)

-- The record of the machine that `Assign` writes.
abbrev rebound : String → String → String → MachineRecord → MachineRecord
rebound cid host disk r = record r {
  assignment = none;
  assignments = bind cid host disk (bindings r);
}
