-- ===== src/Inventory/Tests.antt =====
-- The theorems about the machines at a concrete store: two machines, one of them with a legacy
-- binding, and a file that cannot be read.
use cube_cos_driver.Base.{
  String, Bool, true, false, ◌≡◌, ◌≢◌, refl, List, [], ◌∷◌, Option, none, some, arith, str_eq,
  eq_iff, if◌then◌else◌,
}
use cube_cos_driver.Base.Maps.{lookup, insert}
use cube_cos_driver.Inventory.Facts.{Inventory}
use cube_cos_driver.Inventory.Machines.{Assignment, MachineRecord, fetch_idle, bindings}
use cube_cos_driver.Inventory.Store.{MachineStore, Input, ok, update, credentials, unassign_cluster}
use cube_cos_driver.Inventory.Store.Bound.{IsFiled}
use cube_cos_driver.Inventory.Store.Logins.{IsBox, credentials-update}
use cube_cos_driver.Inventory.Assigned.{bound_with, unassign_cluster-bound_with}

abbrev machine : String → Option Assignment → List Assignment → MachineRecord
machine id legacy list = record {
  id = id;
  label = id;
  bmc = record { address = "10.0.0.9"; username = "admin"; cipher = 17 };
  password_enc = "old";
  inventory = none;
  fetch_state = fetch_idle;
  fetch_failure = "";
  assignment = legacy;
  assignments = list;
}

abbrev at_node : String → String → Assignment
at_node cid host = record { cluster_id = cid; hostname = host; os_disk = "sda" }

abbrev store : MachineStore
store = record {
  files =
      ("m1", some (machine "m1" (some (at_node "c" "n1")) []))
      ∷ ("m2", some (machine "m2" none (at_node "c" "n2" ∷ at_node "d" "n1" ∷ [])))
      ∷ ("m3", none)
      ∷ [];
  writable = λ id. true;
  removable = λ id. true;
}

store-IsFiled : IsFiled store
unfolding lookup
store-IsFiled i r found = ground (arith, eq_iff "m1" i, eq_iff "m2" i, eq_iff "m3" i)

unassign_cluster-bound_with_example :
    bound_with "d" "n1" "sda" "m2" (unassign_cluster "c" store).1
    ≡ (if str_eq "c" "d" then false else bound_with "d" "n1" "sda" "m2" store)
unfolding unassign_cluster lookup bindings insert
unassign_cluster-bound_with_example =
    unassign_cluster-bound_with "c" "d" "n1" "sda" "m2" store store-IsFiled refl

abbrev not_blank : String → Bool
not_blank s = false

-- A box that keeps a text as it is, and refuses the empty one.
abbrev seal : String → Option String
seal p = if str_eq p "" then none else some p

abbrev unseal : String → Option String
unseal e = some e

seal_not_empty : (p e : String) → seal p ≡ some e → e ≢ ""
seal_not_empty p e h k = absurd (ground (arith, eq_iff p "", h, k))

box : IsBox seal unseal
box = record { opens = λ p e h. ground (arith, eq_iff p ""); not_empty = seal_not_empty }

abbrev some_input : Option String → Input
some_input password = record {
  label = "rack 1";
  address = "10.0.0.7";
  username = "root";
  cipher = 3;
  password = password;
}

credentials-update_example :
    credentials not_blank seal unseal "m1"
      (update not_blank seal unseal "m1" (some_input none) store).1
    ≡ ok (record { address = "10.0.0.7"; username = "root"; password = "old" })
unfolding update credentials lookup
credentials-update_example =
    credentials-update not_blank seal unseal box "m1" (some_input none) store
      (record { address = "10.0.0.9"; username = "admin"; password = "old" }) refl refl
      store-IsFiled

abbrev facts : String → Inventory
facts serial = record {
  fetched_at = "now";
  source = "ipmi";
  manufacturer = "";
  model = "";
  serial = serial;
  cpu_model = "";
  cpu_count = 2;
  cpu_cores = 0;
  memory_bytes = 0;
  nics = [];
  disks = [];
  cards = [];
}
