-- ===== src/Inventory/Machines.antt =====
-- internal/inventory/model.go: the record of a machine and its view.
use cube_cos_driver.Base.{
  ℕ, String, Bool, ◌&&◌, not, List, [], ◌∷◌, Option, none, some, str_eq, if◌then◌else◌,
}
use cube_cos_driver.Inventory.Facts.{Inventory}

pub record BmcLogin : Type 0 where
  pub address : String
  pub username : String
  pub cipher : ℕ

pub record Assignment : Type 0 where
  pub cluster_id : String
  pub hostname : String
  pub os_disk : String

-- A file may hold any text as its state; the driver writes these.
pub data FetchState : Type 0 where
  fetch_unset fetch_idle fetch_fetching fetch_ok fetch_error : FetchState

-- `record`, the form on disk.
pub record MachineRecord : Type 0 where
  pub id : String
  pub label : String
  pub bmc : BmcLogin
  pub password_enc : String
  pub inventory : Option Inventory
  pub fetch_state : FetchState
  pub fetch_failure : String
  pub assignment : Option Assignment
  pub assignments : List Assignment

-- The view without the password.
pub record Machine : Type 0 where
  pub id : String
  pub label : String
  pub bmc : BmcLogin
  pub has_password : Bool
  pub inventory : Option Inventory
  pub fetch_state : FetchState
  pub fetch_failure : String
  pub primary : Option Assignment
  pub assignments : List Assignment

unfoldable pub fetch_state_or : FetchState → FetchState
fetch_state_or fetch_unset = fetch_idle
fetch_state_or s = s

-- The bindings of a record, the legacy single one included.
unfoldable pub bindings : MachineRecord → List Assignment
bindings r = elim r.assignments [
  | a ∷ rest ↦ a ∷ rest
  | [] ↦ elim r.assignment [ none ↦ [] | some a ↦ a ∷ [] ]
]

abbrev pub first_of : List Assignment → Option Assignment
first_of [] = none
first_of (a ∷ rest) = some a

unfoldable pub to_machine : MachineRecord → Machine
unfolding fetch_state_or bindings
to_machine r = record {
  id = r.id;
  label = r.label;
  bmc = r.bmc;
  has_password = not (str_eq r.password_enc "");
  inventory = r.inventory;
  fetch_state = fetch_state_or r.fetch_state;
  fetch_failure = r.fetch_failure;
  primary = first_of (bindings r);
  assignments = bindings r;
}

-- `AssignmentFor`: the first one in the cluster.
first_in : String → List Assignment → Option Assignment
first_in cid [] = none
first_in cid (a ∷ rest) =
    let later = first_in cid rest in if str_eq a.cluster_id cid then some a else later

unfoldable pub assignment_for : String → Machine → Option Assignment
unfolding first_in
assignment_for cid m = first_in cid m.assignments

-- An assignment binds a machine to the named node of the named cluster.
abbrev pub is_at : String → String → Assignment → Bool
is_at cid host a = str_eq a.cluster_id cid && str_eq a.hostname host

abbrev pub is_in : String → Assignment → Bool
is_in cid a = str_eq a.cluster_id cid
