-- ===== src/Inventory/Store.antt =====
-- internal/inventory/store.go: the store of machines. A directory is a map from ids to files; a file
-- that cannot be read or decoded is `none`, and a write to a file may be refused. The secret box and
-- the test for a blank text are parameters; the random id of a new machine is an argument.
pub mod Bound
pub mod Logins
pub mod Filed
use cube_cos_driver.Base.{
  ℕ, String, Bool, true, false, ◌&&◌, ◌||◌, not, List, [], ◌∷◌, ◌++◌, Option, none, some, str_eq,
  any_of, keep, map, if◌then◌else◌, Map,
}
use cube_cos_driver.Base.Maps.{lookup, insert, remove}
use cube_cos_driver.Inventory.Facts.{Inventory, merge_inventory}
use cube_cos_driver.Inventory.Machines.{
  BmcLogin, Assignment, FetchState, fetch_unset, fetch_idle, fetch_ok, MachineRecord, Machine,
  bindings, to_machine, is_at, is_in,
}

pub data StoreError : Type 0 where
  invalid not_found unreadable refused not_sealed not_opened no_directory : StoreError

pub data Result {ℓ} (A : Type ℓ) : Type ℓ where
  ok : A → Result A
  err : StoreError → Result A

-- The call succeeded.
abbrev pub is_ok {ℓ} : {A : Type ℓ} → Result A → Bool
is_ok (ok a) = true
is_ok (err e) = false

pub record MachineStore : Type 0 where
  pub files : Map (Option MachineRecord)
  pub writable : String → Bool
  pub removable : String → Bool

unfoldable pub read_record : String → MachineStore → Result MachineRecord
read_record id st = elim (lookup id st.files) [
  | none ↦ err not_found
  | some f ↦ elim f [ none ↦ err unreadable | some r ↦ ok r ]
]

-- `writeRecord`: whether the file was written. It stands under the record's own id.
unfoldable pub write_record : MachineRecord → MachineStore → Bool × MachineStore
write_record r st =
    if st.writable r.id
    then (true, record st { files = insert r.id (some r) st.files })
    else (false, st)

-- The end of most calls: the record is written, and its view is the answer.
unfoldable pub put_record : MachineRecord → MachineStore → Result Machine × MachineStore
unfolding write_record
put_record r st =
    let (done, st') = write_record r st in
    if done then (ok (to_machine r), st') else (err refused, st)

unfoldable pub get : String → MachineStore → Result Machine
unfolding read_record
get id st = elim (read_record id st) [ err e ↦ err e | ok r ↦ ok (to_machine r) ]

-- `Delete`.
unfoldable pub delete : String → MachineStore → Option StoreError × MachineStore
unfolding read_record
delete id st = elim (read_record id st) [
  | err e ↦ (some e, st)
  | ok _ ↦
      if st.removable id
      then (none, record st { files = remove id st.files })
      else (some refused, st)
]

-- The loop of `removeAssignment`, `UnassignCluster` and the like: the bindings that fail a test, and
-- whether some binding passed it. A legacy binding is moved into the list.
unfoldable pub drop_bindings : (Assignment → Bool) → MachineRecord → Bool × MachineRecord
drop_bindings p r = (
  any_of p (bindings r),
  record r { assignment = none; assignments = keep (λ a. not (p a)) (bindings r) },
)

-- One file of such a loop: whether the loop goes on. A file that cannot be read is passed over, and
-- one that does not change is not written.
unfoldable pub drop_one : (Assignment → Bool) → String → MachineStore → Bool × MachineStore
unfolding drop_bindings read_record write_record
drop_one p id st = elim (read_record id st) [
  | err _ ↦ (true, st)
  | ok r ↦
      let (changed, r') = drop_bindings p r in if changed then write_record r' st else (true, st)
]

-- The loop: a write that is refused ends it.
unfoldable pub drop_all : (Assignment → Bool) → List String → MachineStore → Bool × MachineStore
unfolding drop_one
drop_all p [] st = (true, st)
drop_all p (id ∷ ids) st =
    let (on, st') = drop_one p id st in elim on [ false ↦ (false, st') | true ↦ drop_all p ids st' ]

-- The loop of `Assign` passes its own machine over.
abbrev pub keep_others : String → List String → List String
keep_others id = keep (λ j. not (str_eq j id))

abbrev pub names : MachineStore → List String
names st = map (λ kv. kv.0) st.files

-- Sets the disk of the first binding to the node, or adds a binding at the end.
unfoldable pub bind : String → String → String → List Assignment → List Assignment
bind cid host disk [] = record { cluster_id = cid; hostname = host; os_disk = disk } ∷ []
bind cid host disk (a ∷ rest) =
    if is_at cid host a then record a { os_disk = disk } ∷ rest else a ∷ bind cid host disk rest

-- `Assign`. The record that is changed is the one that was read before the others were cleared.
unfoldable pub assign :
    String → String → String → String → MachineStore → Result Machine × MachineStore
unfolding read_record drop_all bind put_record
assign id cid host disk st = elim (read_record id st) [
  | err e ↦ (err e, st)
  | ok target ↦
      let others = keep_others id (names st) in
      let (cleared, st') = drop_all (is_at cid host) others st in
      if not cleared
      then (err refused, st')
      else put_record
          (record target { assignment = none; assignments = bind cid host disk (bindings target) })
          st'
]

-- `Unassign`.
unfoldable pub unassign : String → MachineStore → Result Machine × MachineStore
unfolding read_record put_record
unassign id st = elim (read_record id st) [
  | err e ↦ (err e, st)
  | ok r ↦ put_record (record r { assignment = none; assignments = [] }) st
]

-- `UnassignCluster`.
unfoldable pub unassign_cluster : String → MachineStore → Option StoreError × MachineStore
unfolding drop_all
unassign_cluster cid st =
    let (cleared, st') = drop_all (is_in cid) (names st) st in
    (if cleared then none else some refused, st')

-- What `SetInventory` keeps of an earlier fetch.
abbrev pub with_earlier : Inventory → Option Inventory → Inventory
with_earlier inv none = inv
with_earlier inv (some prev) = merge_inventory inv prev

abbrev pub write_only : MachineRecord → MachineStore → Option StoreError × MachineStore
write_only r st = let (done, st') = write_record r st in (if done then none else some refused, st')

unfoldable pub set_inventory : String → Inventory → MachineStore → Option StoreError × MachineStore
unfolding read_record
set_inventory id inv st = elim (read_record id st) [
  | err e ↦ (some e, st)
  | ok r ↦
      write_only
        (record r {
          inventory = some (with_earlier inv r.inventory);
          fetch_state = fetch_ok;
          fetch_failure = "";
        })
        st
]

-- `SetFetchState`.
unfoldable pub set_fetch_state :
    String → FetchState → String → MachineStore → Option StoreError × MachineStore
unfolding read_record
set_fetch_state id s why st = elim (read_record id st) [
  | err e ↦ (some e, st)
  | ok r ↦ write_only (record r { fetch_state = s; fetch_failure = why }) st
]

-- The mutable data of a create and an update. No password keeps the one that is there.
pub record Input : Type 0 where
  pub label : String
  pub address : String
  pub username : String
  pub cipher : ℕ
  pub password : Option String

abbrev pub login_of : Input → BmcLogin
login_of x = record { address = x.address; username = x.username; cipher = x.cipher }

-- What a read for the BMC's login answers.
pub record Login : Type 0 where
  pub address : String
  pub username : String
  pub password : String

-- `seal` and `unseal` are the secret box, `blank` the test that a trimmed text is empty.
module _ (blank : String → Bool) (seal unseal : String → Option String) where
  unfoldable pub is_valid : Input → Bool
  is_valid x = not (blank x.label) && not (blank x.address)

  -- The sealed password of an input, over the one that is kept; `none` when the box refuses.
  unfoldable pub sealed : Option String → String → Option String
  sealed none kept = some kept
  sealed (some p) kept = if str_eq p "" then some "" else seal p

  abbrev pub new_record : String → Input → String → MachineRecord
  new_record id x enc = record {
    id = id;
    label = x.label;
    bmc = login_of x;
    password_enc = enc;
    inventory = none;
    fetch_state = fetch_idle;
    fetch_failure = "";
    assignment = none;
    assignments = [];
  }

  -- `Create`, with the id that the random source gave.
  unfoldable pub create : String → Input → MachineStore → Result Machine × MachineStore
  unfolding is_valid sealed put_record
  create id x st = if not (is_valid x) then (err invalid, st) else elim (sealed x.password "") [
    | none ↦ (err not_sealed, st)
    | some enc ↦ put_record (new_record id x enc) st
  ]

  -- `Update`.
  unfoldable pub update : String → Input → MachineStore → Result Machine × MachineStore
  unfolding is_valid sealed read_record put_record
  update id x st = if not (is_valid x) then (err invalid, st) else elim (read_record id st) [
    | err e ↦ (err e, st)
    | ok r ↦ elim (sealed x.password r.password_enc) [
      | none ↦ (err not_sealed, st)
      | some enc ↦
          put_record (record r { label = x.label; bmc = login_of x; password_enc = enc }) st
    ]
  ]

  -- The password of a record: empty when none is kept.
  unfoldable pub opened : String → Option String
  opened enc = if str_eq enc "" then some "" else unseal enc

  unfoldable pub open_login : MachineRecord → Result Login
  unfolding opened
  open_login r = elim (opened r.password_enc) [
    | none ↦ err not_opened
    | some p ↦ ok (record { address = r.bmc.address; username = r.bmc.username; password = p })
  ]

  -- `Credentials`.
  unfoldable pub credentials : String → MachineStore → Result Login
  unfolding read_record open_login
  credentials id st = elim (read_record id st) [ err e ↦ err e | ok r ↦ open_login r ]
