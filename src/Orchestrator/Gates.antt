-- ===== src/Orchestrator/Gates.antt =====
-- internal/orchestrator/sel.go: `gatesPresent`, `WriteGate`, `ClearSEL` and `WriteEndpoint`. The IPMI
-- library, the network and the context are the operations of `Bmc`, a state machine of its own, so
-- that any call may fail at any time; `Reads` and `Appends` say what a healthy one does.
pub mod Verified
pub mod Heals
pub mod Keeps
use cube_cos_driver.Base.{
  ℕ, zero, suc, ◌+◌, String, Bool, true, false, ◌&&◌, not, List, [], ◌∷◌, ◌++◌, Option, none, some,
  ◌==◌, ltb, if◌then◌else◌, contains, length, keep, ◌≡◌,
}
use cube_cos_driver.Orchestrator.Sel.{
  SelEntry, OemRecord, cube_manufacturer, gate_sel, Ip4, endpoint_sel,
}

-- An IPMI error has the BMC's completion code or none.
pub data IpmiError : Type 0 where
  coded : ℕ → IpmiError
  uncoded : IpmiError

pub data GateError : Type 0 where
  ctx_done : GateError
  ipmi : IpmiError → GateError
  absent : List ℕ → GateError

abbrev pub Log : Type 0
Log = List (Option SelEntry)

pub data Reading : Type 0 where
  entries : Log → Reading
  unread : IpmiError → Reading

-- A session with one BMC: `dial`, the calls of the client, and the wait between two attempts, which
-- answers whether the context still lives. `none` is success.
pub record Bmc : Type 1 where
  pub S : Type 0
  pub dial : S → Option IpmiError × S
  pub get_entries : S → Reading × S
  pub add_entry : OemRecord → S → Option IpmiError × S
  pub reserve : S → Option IpmiError × S
  pub clear : S → Option IpmiError × S
  pub pause : ℕ → S → Bool × S
  pub now : S → ℕ

-- What the log holds, and that a read which succeeds returns it and leaves it alone.
pub record Reads (b : Bmc) : Type 1 where
  pub log : b.S → Log
  pub get_entries_reads :
      (s : b.S) (es : Log)
      → (b.get_entries s).0 ≡ entries es
      → (es ≡ log s) × (log (b.get_entries s).1 ≡ log s)

-- The BMC's "out of space" completion code, the only failure that a wipe can fix.
unfoldable pub sel_full : Option IpmiError → Bool
sel_full none = false
sel_full (some (coded c)) = c == 0xC4
sel_full (some uncoded) = false

-- The gate stages of one record.
unfoldable pub gate_of : OemRecord → List ℕ
gate_of o =
    if (o.manufacturer == cube_manufacturer) && ((o.bytes.b0 == 0x30) && (o.bytes.b1 == 0x05))
    then o.bytes.b2 ∷ []
    else []

unfoldable pub gate_of_entry : Option SelEntry → List ℕ
unfolding gate_of
gate_of_entry none = []
gate_of_entry (some e) = elim e.oem [ none ↦ [] | some o ↦ gate_of o ]

-- `gatesPresent`: the stages that a log holds.
unfoldable pub gates_present : Log → List ℕ
unfolding gate_of_entry
gates_present [] = []
gates_present (e ∷ es) = gate_of_entry e ++ gates_present es

-- The stages that a log lacks.
abbrev pub missing_from : Log → List ℕ → List ℕ
missing_from es = keep (λ g. not (contains (gates_present es) g))

module _ (b : Bmc) where
  open b use {S, dial, get_entries, add_entry, reserve, clear, pause, now}

  -- Reserve and clear, the outcome ignored.
  unfoldable pub wipe : S → S
  wipe s = let (e, s') = reserve s in elim e [ none ↦ (clear s').1 | some _ ↦ s' ]

  -- Adds the stages; the last error is kept.
  unfoldable pub add_all : List ℕ → GateError → S → GateError × S
  unfolding wipe sel_full
  add_all [] last s = (last, s)
  add_all (g ∷ gs) last s =
      let (e, s') = add_entry (gate_sel (now s) g) s in
      add_all gs (elim e [ none ↦ last | some x ↦ ipmi x ]) (if sel_full e then wipe s' else s')

  -- One pass over a log that was read: what is left to say when nothing is missing.
  unfoldable pub write_missing : List ℕ → Bool → S → Option GateError × S
  unfolding add_all
  write_missing [] last_pass s = (none, s)
  write_missing (m ∷ ms) last_pass s =
      if last_pass
      then (some (absent (m ∷ ms)), s)
      else let (e, s') = add_all (m ∷ ms) (absent (m ∷ ms)) s in (some e, s')

  unfoldable pub after_read : List ℕ → Bool → Reading → S → Option GateError × S
  unfolding write_missing
  after_read stages last_pass (unread e) s = (some (ipmi e), s)
  after_read stages last_pass (entries es) s = write_missing (missing_from es stages) last_pass s

  unfoldable pub write_pass : List ℕ → Bool → S → Option GateError × S
  unfolding after_read
  write_pass stages last_pass s = let (r, s') = get_entries s in after_read stages last_pass r s'

  -- The passes after the first, `left` of them, the `i`-th now: a wait, then a pass. A pass that
  -- leaves an error is followed by the next; the last one only verifies.
  unfoldable pub write_more : ℕ → ℕ → List ℕ → GateError → S → Option GateError × S
  unfolding write_pass
  write_more zero i stages last s = (some last, s)
  write_more (suc left) i stages last s =
      let (live, s') = pause i s in
      let (r, s'') = write_pass stages (left == 0) s' in
      elim live [
        | false ↦ (some ctx_done, s')
        | true ↦ elim r [ none ↦ (none, s'') | some e ↦ write_more left (i + 1) stages e s'' ]
      ]

  -- `attempts` is 4, so five passes at most.
  unfoldable pub write_gate_session : List ℕ → S → Option GateError × S
  unfolding write_more
  write_gate_session stages s =
      let (r, s') = write_pass stages false s in
      elim r [ none ↦ (none, s') | some e ↦ write_more 4 1 stages e s' ]

  -- `WriteGate`. The BMC's lock makes a call one step of its own.
  unfoldable pub write_gate : List ℕ → S → Option GateError × S
  unfolding write_gate_session
  write_gate [] s = (none, s)
  write_gate (g ∷ gs) s =
      let (e, s') = dial s in
      elim e [ some x ↦ (some (ipmi x), s') | none ↦ write_gate_session (g ∷ gs) s' ]

  -- `ClearSEL`.
  unfoldable pub clear_sel : S → Option IpmiError × S
  clear_sel s =
      let (e, s1) = dial s in
      elim e [
        | some x ↦ (some x, s1)
        | none ↦ let (r, s2) = reserve s1 in elim r [ some x ↦ (some x, s2) | none ↦ clear s2 ]
      ]

  -- `WriteEndpoint`: a second try after a wipe, when the log was full.
  unfoldable pub retry_endpoint : OemRecord → IpmiError → S → Option IpmiError × S
  retry_endpoint rec x s =
      let (r, s1) = reserve s in
      elim r [
        | some _ ↦ (some x, s1)
        | none ↦
            let (c, s2) = clear s1 in
            elim c [ some _ ↦ (some x, s2) | none ↦ add_entry rec (pause 2 s2).1 ]
      ]

  unfoldable pub write_endpoint : Ip4 → ℕ → S → Option IpmiError × S
  unfolding sel_full retry_endpoint
  write_endpoint ip port s =
      let (e, s1) = dial s in
      let rec : OemRecord = endpoint_sel (now s) ip port in
      elim e [
        | some x ↦ (some x, s1)
        | none ↦
            let (a, s2) = add_entry rec s1 in
            elim a [
              | none ↦ (none, s2)
              | some x ↦ if sel_full (some x) then retry_endpoint rec x s2 else (some x, s2)
            ]
      ]
