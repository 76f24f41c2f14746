-- ===== src/Inventory/Store/Logins.antt =====
-- The login of a BMC survives the way through the store.
use cube_cos_driver.Base.{
  String, Bool, ◌≡◌, ◌≢◌, Option, some, none, true, arith, eq_iff, Option-cases, inl, inr,
}
use cube_cos_driver.Base.Maps.{lookup-insert_same}
use cube_cos_driver.Inventory.Machines.{MachineRecord}
use cube_cos_driver.Inventory.Store.{
  MachineStore, Input, Login, ok, create, update, credentials, sealed, put_record, write_record,
  read_record, is_ok, opened, open_login, new_record, login_of,
}
use cube_cos_driver.Inventory.Store.Bound.{IsFiled, record_at, read_record-some}

abbrev pub given : Option String → String
given none = ""
given (some p) = p

-- What the box promises: what it seals it opens, and a sealed text is not empty.
pub record IsBox (seal unseal : String → Option String) : Type 0 where
  pub opens : (p e : String) → seal p ≡ some e → unseal e ≡ some p
  pub not_empty : (p e : String) → seal p ≡ some e → e ≢ ""

module _ (blank : String → Bool) (seal unseal : String → Option String)
    (box : IsBox seal unseal) where
  open box use {opens, not_empty}

  opened-sealed :
      (x : Option String) (kept e : String)
      → sealed blank seal unseal x kept ≡ some e
      → opened blank seal unseal e
        ≡ (elim x [ none ↦ opened blank seal unseal kept | some p ↦ some p ])
  unfolding opened sealed
  opened-sealed none kept e h = ground arith
  opened-sealed (some p) kept e h =
      ground (arith, opens p e, not_empty p e, eq_iff p "", eq_iff e "")

  credentials-put_record :
      (r : MachineRecord) (st : MachineStore)
      → is_ok (put_record r st).0 ≡ true
      → credentials blank seal unseal r.id (put_record r st).1 ≡ open_login blank seal unseal r
  unfolding credentials put_record write_record read_record
  credentials-put_record r st fine = ground (arith, lookup-insert_same r.id (some r) st.files)

  -- With a box that opens what it sealed and seals nothing to an empty text: after a Create that
  -- succeeds, the login of the new machine is the one that was given, its password
  -- included, and the empty password when none was given.
  pub credentials-create :
      (id : String) (x : Input) (st : MachineStore)
      → is_ok (create blank seal unseal id x st).0 ≡ true
      → credentials blank seal unseal id (create blank seal unseal id x st).1
        ≡ ok (record { address = x.address; username = x.username; password = given x.password })
  unfolding create open_login
  credentials-create id x st fine = elim (Option-cases (sealed blank seal unseal x.password "")) [
    | inl refused ↦ absurd (ground arith)
    | inr (e, got) ↦ ground (
      arith,
      credentials-put_record (new_record blank seal unseal id x e) st,
      opened-sealed x.password "" e got,
    )
  ]

  open_login_ok :
      (r : MachineRecord) (old : Login)
      → open_login blank seal unseal r ≡ ok old
      → opened blank seal unseal r.password_enc ≡ some old.password
  unfolding open_login
  open_login_ok r old h = elim (Option-cases (opened blank seal unseal r.password_enc)) [
    | inl shut ↦ absurd (ground arith)
    | inr (p, e) ↦ ground arith
  ]

  credentials-update_at :
      (id : String) (x : Input) (st : MachineStore) (old : Login) (r : MachineRecord)
      → record_at id st ≡ some r
      → r.id ≡ id
      → open_login blank seal unseal r ≡ ok old
      → is_ok (update blank seal unseal id x st).0 ≡ true
      → credentials blank seal unseal id (update blank seal unseal id x st).1
        ≡ ok (record {
          address = x.address;
          username = x.username;
          password = elim x.password [ none ↦ old.password | some p ↦ p ];
        })
  unfolding update open_login
  credentials-update_at id x st old r there own before fine =
      elim (Option-cases (sealed blank seal unseal x.password r.password_enc)) [
        | inl refused ↦ absurd (ground (arith, read_record-some id st r there))
        | inr (e, got) ↦ ground (
          arith,
          read_record-some id st r there,
          credentials-put_record (record r { label = x.label; bmc = login_of x; password_enc = e })
              st,
          opened-sealed x.password r.password_enc e got,
          open_login_ok r old before,
        )
      ]

  -- With a box that opens what it sealed and seals nothing to an empty text, in a store whose readable records stand under their own ids, for a machine whose
  -- login could be read before: after an Update that names a password and succeeds, the login is the one that was given; after one
  -- that names none, the address and the user name are the given ones and the password is the old one.
  pub credentials-update :
      (id : String) (x : Input) (st : MachineStore) (old : Login)
      → credentials blank seal unseal id st ≡ ok old
      → is_ok (update blank seal unseal id x st).0 ≡ true
      → IsFiled st
      → credentials blank seal unseal id (update blank seal unseal id x st).1
        ≡ ok (record {
          address = x.address;
          username = x.username;
          password = elim x.password [ none ↦ old.password | some p ↦ p ];
        })
  unfolding update credentials open_login
  credentials-update id x st old before fine filed = elim (Option-cases (record_at id st)) [
    | inl gone ↦ absurd (ground arith)
    | inr (r, there) ↦
        credentials-update_at id x st old r there (filed id r there)
          (ground (arith, read_record-some id st r there)) fine
  ]
