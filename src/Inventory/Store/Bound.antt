-- ===== src/Inventory/Store/Bound.antt =====
-- Which machine is bound to which node, as a question to the store; and what dropping bindings does
-- to the answer.
use cube_cos_driver.Base.{
  String, Bool, true, false, ◌&&◌, not, ◌≡◌, refl, List, [], ◌∷◌, Option, none, some, arith, str_eq,
  eq_iff, any_of, keep, if◌then◌else◌, inl, inr, subst, Option-cases, Bool-cases,
}
use cube_cos_driver.Base.Maps.{lookup, lookup-insert}
use cube_cos_driver.Inventory.Machines.{Assignment, MachineRecord, bindings}
use cube_cos_driver.Inventory.Store.{
  MachineStore, read_record, write_record, drop_bindings, drop_one, drop_all, ok,
}

-- The record of a machine, if its file can be read.
abbrev pub or_none {ℓ} : {A : Type ℓ} → Option (Option A) → Option A
or_none none = none
or_none (some f) = f

abbrev pub record_at : String → MachineStore → Option MachineRecord
record_at i st = or_none (lookup i st.files)

abbrev pub some_binding : (Assignment → Bool) → Option MachineRecord → Bool
some_binding q none = false
some_binding q (some r) = any_of q (bindings r)

-- Some binding of the machine passes the test.
abbrev pub has : (Assignment → Bool) → String → MachineStore → Bool
has q i st = some_binding q (record_at i st)

-- Every record is filed under its own id.
abbrev pub IsFiled : MachineStore → Type 0
IsFiled st = (i : String) (r : MachineRecord) → record_at i st ≡ some r → r.id ≡ i

-- The tests that remain when the bindings that pass `p` are gone.
abbrev pub unless : (Assignment → Bool) → (Assignment → Bool) → Assignment → Bool
unless p q a = not (p a) && q a

any_of-keep :
    (p q : Assignment → Bool) (xs : List Assignment)
    → any_of q (keep (λ a. not (p a)) xs) ≡ any_of (unless p q) xs
any_of-keep p q [] = refl
any_of-keep p q (a ∷ xs) = ground (arith, any_of-keep p q xs)

any_of-unless :
    (p q : Assignment → Bool) (xs : List Assignment)
    → any_of p xs ≡ false
    → any_of (unless p q) xs ≡ any_of q xs
any_of-unless p q [] h = refl
any_of-unless p q (a ∷ xs) h = ground (arith, any_of-unless p q xs)

any_of-unless_idem :
    (p q : Assignment → Bool) (xs : List Assignment)
    → any_of (unless p (unless p q)) xs ≡ any_of (unless p q) xs
any_of-unless_idem p q [] = refl
any_of-unless_idem p q (a ∷ xs) = ground (arith, any_of-unless_idem p q xs)

pub bindings-list :
    (r : MachineRecord) (xs : List Assignment)
    → bindings (record r { assignment = none; assignments = xs }) ≡ xs
unfolding bindings
bindings-list r [] = refl
bindings-list r (a ∷ xs) = refl

-- The record of a machine after a write.
pub record_at-write_record :
    (r : MachineRecord) (i : String) (st : MachineStore)
    → st.writable r.id ≡ true
    → record_at i (write_record r st).1 ≡ (if str_eq r.id i then some r else record_at i st)
unfolding write_record
record_at-write_record r i st w = ground (arith, lookup-insert r.id i (some r) st.files)

pub read_record-some :
    (i : String) (st : MachineStore) (r : MachineRecord)
    → record_at i st ≡ some r
    → read_record i st ≡ ok r
unfolding read_record
read_record-some i st r h = ground arith

drop_one-none :
    (p : Assignment → Bool) (id : String) (st : MachineStore)
    → record_at id st ≡ none
    → drop_one p id st ≡ (true, st)
unfolding drop_one read_record
drop_one-none p id st h = ground arith

drop_one-kept :
    (p : Assignment → Bool) (id : String) (st : MachineStore) (r : MachineRecord)
    → record_at id st ≡ some r
    → any_of p (bindings r) ≡ false
    → drop_one p id st ≡ (true, st)
unfolding drop_one drop_bindings
drop_one-kept p id st r h k = rw (read_record-some id st r h, drop_one) (ground arith)

-- The record of a file without the bindings that pass `p`.
abbrev pruned : (Assignment → Bool) → MachineRecord → MachineRecord
pruned p r = record r { assignment = none; assignments = keep (λ a. not (p a)) (bindings r) }

drop_one-written :
    (p : Assignment → Bool) (id i : String) (st : MachineStore) (r : MachineRecord)
    → record_at id st ≡ some r
    → r.id ≡ id
    → any_of p (bindings r) ≡ true
    → (drop_one p id st).0 ≡ true
    → record_at i (drop_one p id st).1 ≡ (if str_eq id i then some (pruned p r) else record_at i st)
unfolding drop_one drop_bindings write_record
drop_one-written p id i st r h e k w =
    ground (arith, read_record-some id st r h, lookup-insert id i (some (pruned p r)) st.files)

some_binding-pruned :
    (p q : Assignment → Bool) (r : MachineRecord)
    → some_binding q (some (pruned p r)) ≡ some_binding (unless p q) (some r)
some_binding-pruned p q r =
    rw (bindings-list r (keep (λ a. not (p a)) (bindings r))) (any_of-keep p q (bindings r))

-- Dropping bindings from one file changes the answers of that machine only.
drop_one-has :
    (p q : Assignment → Bool) (id i : String) (st : MachineStore)
    → IsFiled st
    → (drop_one p id st).0 ≡ true
    → has q i (drop_one p id st).1 ≡ (if str_eq id i then has (unless p q) i st else has q i st)
drop_one-has p q id i st filed h = elim (Option-cases (record_at id st)) [
  | inl gone ↦ rw (drop_one-none p id st gone) (ground (arith, eq_iff id i))
  | inr (r, there) ↦ elim (Bool-cases (any_of p (bindings r))) [
    | inr kept ↦
        rw (drop_one-kept p id st r there kept)
          (ground (arith, eq_iff id i, any_of-unless p q (bindings r)))
    | inl changed ↦
        rw (drop_one-written p id i st r there (filed id r there) changed h)
          (ground (arith, eq_iff id i, some_binding-pruned p q r))
  ]
]

-- A record is written under its own id, so that a write keeps the store filed.
pub write_record-IsFiled :
    (r : MachineRecord) (st : MachineStore) → IsFiled st → IsFiled (write_record r st).1
unfolding write_record
write_record-IsFiled r st filed i x found =
    ground (arith, lookup-insert r.id i (some r) st.files, eq_iff r.id i, filed i x)

drop_one-IsFiled :
    (p : Assignment → Bool) (id : String) (st : MachineStore)
    → IsFiled st
    → IsFiled (drop_one p id st).1
unfolding drop_one drop_bindings
drop_one-IsFiled p id st filed i x found = elim (Option-cases (record_at id st)) [
  | inl gone ↦ filed i x (subst (λ y. record_at i y.1 ≡ some x) (drop_one-none p id st gone) found)
  | inr (r, there) ↦
      ground
        (arith, read_record-some id st r, filed i x, write_record-IsFiled (pruned p r) st filed i x)
]

some_binding_idem :
    (p q : Assignment → Bool) (o : Option MachineRecord)
    → some_binding (unless p (unless p q)) o ≡ some_binding (unless p q) o
some_binding_idem p q none = refl
some_binding_idem p q (some r) = any_of-unless_idem p q (bindings r)

-- A name is among the names.
abbrev pub listed : String → List String → Bool
listed i = any_of (λ j. str_eq j i)

-- Dropping bindings from some files changes the answers of those machines only.
pub drop_all-has :
    (p q : Assignment → Bool) (ids : List String) (i : String) (st : MachineStore)
    → IsFiled st
    → (drop_all p ids st).0 ≡ true
    → has q i (drop_all p ids st).1 ≡ (if listed i ids then has (unless p q) i st else has q i st)
unfolding drop_all
drop_all-has p q [] i st filed h = refl
drop_all-has p q (id ∷ ids) i st filed h = elim (Bool-cases (drop_one p id st).0) [
  | inr stops ↦ absurd (ground arith)
  | inl goes_on ↦
      let filed' = drop_one-IsFiled p id st filed in
      let rest = drop_all-has p q ids i (drop_one p id st).1 filed' (ground arith) in
      let one = drop_one-has p q id i st filed goes_on in
      let again = drop_one-has p (unless p q) id i st filed goes_on in
      ground (arith, some_binding_idem p q (record_at i st))
]

pub drop_all-IsFiled :
    (p : Assignment → Bool) (ids : List String) (st : MachineStore)
    → IsFiled st
    → IsFiled (drop_all p ids st).1
unfolding drop_all
drop_all-IsFiled p [] st filed = filed
drop_all-IsFiled p (id ∷ ids) st filed = elim (Bool-cases (drop_one p id st).0) [
  | inr stops ↦ rw (stops, drop_all) (drop_one-IsFiled p id st filed)
  | inl goes_on ↦
      rw (goes_on, drop_all)
        (drop_all-IsFiled p ids (drop_one p id st).1 (drop_one-IsFiled p id st filed))
]
