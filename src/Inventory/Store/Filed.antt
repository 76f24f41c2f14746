-- ===== src/Inventory/Store/Filed.antt =====
-- Every call of the store keeps each record under its own id.
use cube_cos_driver.Base.{
  String, Bool, ◌≡◌, Option, some, none, arith, Option-cases, inl, inr, ◌⊎◌, refl, [],
}
use cube_cos_driver.Base.Maps.{lookup-remove}
use cube_cos_driver.Inventory.Facts.{Inventory}
use cube_cos_driver.Inventory.Machines.{MachineRecord, FetchState, is_at, is_in, bindings, fetch_ok}
use cube_cos_driver.Inventory.Store.{
  MachineStore, Input, read_record, put_record, drop_all, create, update, delete, assign, unassign,
  unassign_cluster, set_inventory, set_fetch_state, Result, StoreError, ok, err, with_earlier,
  new_record, login_of, sealed, keep_others, names, bind,
}
use cube_cos_driver.Inventory.Store.Bound.{IsFiled, write_record-IsFiled, drop_all-IsFiled}

-- A call that changes the machines.
pub data Call : Type 0 where
  creates : String → Input → Call
  updates : String → Input → Call
  deletes : String → Call
  assigns : String → String → String → String → Call
  unassigns : String → Call
  unassigns_cluster : String → Call
  sets_inventory : String → Inventory → Call
  sets_fetch_state : String → FetchState → String → Call

put_record-IsFiled :
    (r : MachineRecord) (st : MachineStore) → IsFiled st → IsFiled (put_record r st).1
unfolding put_record
put_record-IsFiled r st filed i x found =
    ground (arith, write_record-IsFiled r st filed i x, filed i x)

Result-cases {ℓ} :
    {A : Type ℓ} (x : Result A) → ((e : StoreError) × (x ≡ err e)) ⊎ ((a : A) × (x ≡ ok a))
Result-cases (ok a) = inr (a, refl)
Result-cases (err e) = inl (e, refl)

unassign-IsFiled : (id : String) (st : MachineStore) → IsFiled st → IsFiled (unassign id st).1
unfolding unassign
unassign-IsFiled id st filed i y found = elim (Result-cases (read_record id st)) [
  | inl (e, h) ↦ ground (arith, filed i y)
  | inr (r, h) ↦
      ground
        (arith, put_record-IsFiled (record r { assignment = none; assignments = [] }) st filed i y)
]

set_inventory-IsFiled :
    (id : String) (inv : Inventory) (st : MachineStore)
    → IsFiled st
    → IsFiled (set_inventory id inv st).1
unfolding set_inventory
set_inventory-IsFiled id inv st filed i y found = elim (Result-cases (read_record id st)) [
  | inl (e, h) ↦ ground (arith, filed i y)
  | inr (r, h) ↦ ground (
    arith,
    write_record-IsFiled
        (record r {
          inventory = some (with_earlier inv r.inventory);
          fetch_state = fetch_ok;
          fetch_failure = "";
        })
        st filed i y,
  )
]

set_fetch_state-IsFiled :
    (id : String) (s : FetchState) (why : String) (st : MachineStore)
    → IsFiled st
    → IsFiled (set_fetch_state id s why st).1
unfolding set_fetch_state
set_fetch_state-IsFiled id s why st filed i y found = elim (Result-cases (read_record id st)) [
  | inl (e, h) ↦ ground (arith, filed i y)
  | inr (r, h) ↦
      ground (
        arith,
        write_record-IsFiled (record r { fetch_state = s; fetch_failure = why }) st filed i y,
      )
]

delete-IsFiled : (id : String) (st : MachineStore) → IsFiled st → IsFiled (delete id st).1
unfolding delete
delete-IsFiled id st filed i y found = elim (Result-cases (read_record id st)) [
  | inl (e, h) ↦ ground (arith, filed i y)
  | inr (r, h) ↦ ground (arith, lookup-remove id i st.files, filed i y)
]

assign-IsFiled :
    (id cid host disk : String) (st : MachineStore)
    → IsFiled st
    → IsFiled (assign id cid host disk st).1
unfolding assign
assign-IsFiled id cid host disk st filed i y found = elim (Result-cases (read_record id st)) [
  | inl (e, h) ↦ ground (arith, filed i y)
  | inr (r, h) ↦
      let cleared = drop_all-IsFiled (is_at cid host) (keep_others id (names st)) st filed in
      ground (
        arith,
        cleared i y,
        put_record-IsFiled
            (record r { assignment = none; assignments = bind cid host disk (bindings r) })
            (drop_all (is_at cid host) (keep_others id (names st)) st).1 cleared i y,
      )
]

module _ (blank : String → Bool) (seal unseal : String → Option String) where
  create-IsFiled :
      (id : String) (x : Input) (st : MachineStore)
      → IsFiled st
      → IsFiled (create blank seal unseal id x st).1
  unfolding create
  create-IsFiled id x st filed i y found =
      elim (Option-cases (sealed blank seal unseal x.password "")) [
        | inl refused ↦ ground (arith, filed i y)
        | inr (e, got) ↦ ground (
          arith,
          filed i y,
          put_record-IsFiled (new_record blank seal unseal id x e) st filed i y,
        )
      ]

  update-IsFiled :
      (id : String) (x : Input) (st : MachineStore)
      → IsFiled st
      → IsFiled (update blank seal unseal id x st).1
  unfolding update
  update-IsFiled id x st filed i y found = elim (Result-cases (read_record id st)) [
    | inl (e, h) ↦ ground (arith, filed i y)
    | inr (r, h) ↦ elim (Option-cases (sealed blank seal unseal x.password r.password_enc)) [
      | inl refused ↦ ground (arith, filed i y)
      | inr (e, got) ↦ ground (
        arith,
        filed i y,
        put_record-IsFiled (record r { label = x.label; bmc = login_of x; password_enc = e }) st
            filed i y,
      )
    ]
  ]

  unfoldable pub call : Call → MachineStore → MachineStore
  call (creates id x) st = (create blank seal unseal id x st).1
  call (updates id x) st = (update blank seal unseal id x st).1
  call (deletes id) st = (delete id st).1
  call (assigns id cid host disk) st = (assign id cid host disk st).1
  call (unassigns id) st = (unassign id st).1
  call (unassigns_cluster cid) st = (unassign_cluster cid st).1
  call (sets_inventory id inv) st = (set_inventory id inv st).1
  call (sets_fetch_state id s why) st = (set_fetch_state id s why st).1

  -- Every call, whether it succeeds or fails on the way, leaves a store in which each record that can
  -- be read stands under its own id, if the store before the call was such a store.
  pub call-IsFiled : (c : Call) (st : MachineStore) → IsFiled st → IsFiled (call c st)
  unfolding call delete unassign_cluster
  call-IsFiled (creates id x) st filed = create-IsFiled id x st filed
  call-IsFiled (updates id x) st filed = update-IsFiled id x st filed
  call-IsFiled (deletes id) st filed = delete-IsFiled id st filed
  call-IsFiled (assigns id cid host disk) st filed = assign-IsFiled id cid host disk st filed
  call-IsFiled (unassigns id) st filed = unassign-IsFiled id st filed
  call-IsFiled (unassigns_cluster cid) st filed = drop_all-IsFiled (is_in cid) (names st) st filed
  call-IsFiled (sets_inventory id inv) st filed = set_inventory-IsFiled id inv st filed
  call-IsFiled (sets_fetch_state id s why) st filed = set_fetch_state-IsFiled id s why st filed
