-- ===== src/Inventory/Facts.antt =====
-- internal/inventory/model.go and store.go: the hardware facts of a machine and `mergeInventory`.
pub mod Merged
use cube_cos_driver.Base.{ℕ, String, Bool, List, [], ◌∷◌, Option, ◌==◌, str_eq, if◌then◌else◌}

pub record Nic : Type 0 where
  pub name : String
  pub mac : String
  pub pci_addr : String
  pub pci_vendor : String
  pub speed_mbps : ℕ
  pub up : Bool
  pub carrier : Option Bool

pub record Disk : Type 0 where
  pub name : String
  pub model : String
  pub size_bytes : ℕ
  pub type : String
  pub tran : String
  pub os_eligible : Option Bool

pub record Card : Type 0 where
  pub slot : String
  pub name : String
  pub type : String

pub record Inventory : Type 0 where
  pub fetched_at : String
  pub source : String
  pub manufacturer : String
  pub model : String
  pub serial : String
  pub cpu_model : String
  pub cpu_count : ℕ
  pub cpu_cores : ℕ
  pub memory_bytes : ℕ
  pub nics : List Nic
  pub disks : List Disk
  pub cards : List Card

-- `if len(next) == 0 { next = prev }` and its kin.
abbrev pub list_or {ℓ} : {A : Type ℓ} → List A → List A → List A
list_or [] prev = prev
list_or (x ∷ xs) prev = x ∷ xs

abbrev pub number_or : ℕ → ℕ → ℕ
number_or next prev = if next == 0 then prev else next

abbrev pub text_or : String → String → String
text_or next prev = if str_eq next "" then prev else next

-- `mergeInventory`: the time and the source of the fetch are the new ones.
unfoldable pub merge_inventory : Inventory → Inventory → Inventory
merge_inventory next prev = record next {
  nics = list_or next.nics prev.nics;
  disks = list_or next.disks prev.disks;
  cards = list_or next.cards prev.cards;
  cpu_count = number_or next.cpu_count prev.cpu_count;
  cpu_cores = number_or next.cpu_cores prev.cpu_cores;
  cpu_model = text_or next.cpu_model prev.cpu_model;
  memory_bytes = number_or next.memory_bytes prev.memory_bytes;
  manufacturer = text_or next.manufacturer prev.manufacturer;
  model = text_or next.model prev.model;
  serial = text_or next.serial prev.serial;
}
