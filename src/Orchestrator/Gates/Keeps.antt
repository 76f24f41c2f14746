-- ===== src/Orchestrator/Gates/Keeps.antt =====
-- A gate write wipes nothing unless the BMC says that its log is full.
use cube_cos_driver.Base.{
  ℕ, zero, suc, ◌+◌, ◌≡◌, Bool, true, false, List, [], ◌∷◌, ◌==◌, Bool-cases, Option-cases, inl,
  inr,
}
use cube_cos_driver.Orchestrator.Sel.{OemRecord, gate_sel}
use cube_cos_driver.Orchestrator.Gates.{
  Bmc, Reading, entries, unread, GateError, after_read, sel_full, missing_from, add_all,
  write_missing, write_pass, write_more, write_gate_session, write_gate,
}

-- A property of the session that every call but the wipe keeps, on a BMC that is never full.
pub record NeverFull (b : Bmc) (P : b.S → Type 0) : Type 1 where
  pub dials : (s : b.S) → P s → P (b.dial s).1
  pub reads : (s : b.S) → P s → P (b.get_entries s).1
  pub waits : (i : ℕ) (s : b.S) → P s → P (b.pause i s).1
  pub adds : (o : OemRecord) (s : b.S) → P s → P (b.add_entry o s).1
  pub room : (o : OemRecord) (s : b.S) → sel_full (b.add_entry o s).0 ≡ false

module _ (b : Bmc) (P : b.S → Type 0) (k : NeverFull b P) where
  open b use {S, now}
  open k use {dials, reads, waits, adds, room}

  add_all_keeps : (gs : List ℕ) (last : GateError) (s : S) → P s → P (add_all b gs last s).1
  unfolding add_all
  add_all_keeps [] last s h = h
  add_all_keeps (g ∷ gs) last s h =
      let o = gate_sel (now s) g in
      rw (room o s, add_all) (add_all_keeps gs _ (b.add_entry o s).1 (adds o s h))

  write_missing_keeps :
      (ms : List ℕ) (last_pass : Bool) (s : S) → P s → P (write_missing b ms last_pass s).1
  unfolding write_missing
  write_missing_keeps [] last_pass s h = h
  write_missing_keeps (m ∷ ms) true s h = h
  write_missing_keeps (m ∷ ms) false s h = add_all_keeps (m ∷ ms) _ s h

  after_read_keeps :
      (stages : List ℕ) (last_pass : Bool) (r : Reading) (s : S)
      → P s
      → P (after_read b stages last_pass r s).1
  unfolding after_read
  after_read_keeps stages last_pass (unread e) s h = h
  after_read_keeps stages last_pass (entries es) s h =
      write_missing_keeps (missing_from es stages) last_pass s h

  write_pass_keeps :
      (stages : List ℕ) (last_pass : Bool) (s : S) → P s → P (write_pass b stages last_pass s).1
  unfolding write_pass
  write_pass_keeps stages last_pass s h =
      after_read_keeps stages last_pass (b.get_entries s).0 (b.get_entries s).1 (reads s h)

  write_more_keeps :
      (left i : ℕ) (stages : List ℕ) (last : GateError) (s : S)
      → P s
      → P (write_more b left i stages last s).1
  unfolding write_more
  write_more_keeps zero i stages last s h = h
  write_more_keeps (suc left) i stages last s h = elim (Bool-cases (b.pause i s).0) [
    | inr dead ↦ rw (dead, write_more) (waits i s h)
    | inl live ↦
        let s' = (b.pause i s).1 in
        let kept = write_pass_keeps stages (left == 0) s' (waits i s h) in
        elim (Option-cases (write_pass b stages (left == 0) s').0) [
          | inl fine ↦ rw (live, fine, write_more) kept
          | inr (e, fails) ↦
              rw (live, fails, write_more) (write_more_keeps left (i + 1) stages e _ kept)
        ]
  ]

  session_keeps : (stages : List ℕ) (s : S) → P s → P (write_gate_session b stages s).1
  unfolding write_gate_session
  session_keeps stages s h =
      let kept = write_pass_keeps stages false s h in
      elim (Option-cases (write_pass b stages false s).0) [
        | inl fine ↦ rw (fine, write_gate_session) kept
        | inr (e, fails) ↦ rw (fails, write_gate_session) (write_more_keeps 4 1 stages e _ kept)
      ]

  -- Whatever the calls answer, as long as none of them says that the log is full: a property of the
  -- session that dialling, reading, waiting and adding keep is kept by a `WriteGate`.
  pub write_gate_keeps : (stages : List ℕ) (s : S) → P s → P (write_gate b stages s).1
  unfolding write_gate
  write_gate_keeps [] s h = h
  write_gate_keeps (g ∷ gs) s h = elim (Option-cases (b.dial s).0) [
    | inr (x, refused) ↦ rw (refused, write_gate) (dials s h)
    | inl dialled ↦ rw (dialled, write_gate) (session_keeps (g ∷ gs) (b.dial s).1 (dials s h))
  ]
