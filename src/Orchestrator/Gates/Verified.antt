-- ===== src/Orchestrator/Gates/Verified.antt =====
-- A gate write that reports success has read every stage back.
use cube_cos_driver.Base.{
  ℕ, zero, suc, ◌+◌, ◌≡◌, refl, Bool, true, false, List, [], ◌∷◌, none, arith, ◌==◌, contains,
  all_of, Option-cases, inl, inr,
}
use cube_cos_driver.Orchestrator.Gates.{
  Bmc, Reads, Log, Reading, entries, unread, GateError, after_read, gates_present, missing_from,
  write_missing, write_pass, write_more, write_gate,
}

-- The log holds every one of the stages.
abbrev pub holds : Log → List ℕ → Bool
holds es = all_of (contains (gates_present es))

missing_nil : (es : Log) (stages : List ℕ) → missing_from es stages ≡ [] → holds es stages ≡ true
missing_nil es [] h = refl
missing_nil es (g ∷ gs) h = ground (arith, missing_nil es gs)

module _ (b : Bmc) (r : Reads b) where
  open b use {S, get_entries}
  open r use {log, get_entries_reads}

  write_missing-none :
      (ms : List ℕ) (last_pass : Bool) (s : S)
      → (write_missing b ms last_pass s).0 ≡ none
      → (ms ≡ []) × ((write_missing b ms last_pass s).1 ≡ s)
  unfolding write_missing
  write_missing-none [] last_pass s h = (refl, refl)
  write_missing-none (m ∷ ms) true s h = cc
  write_missing-none (m ∷ ms) false s h = cc

  after_read_verified :
      (stages : List ℕ) (last_pass : Bool) (s s' : S) (x : Reading)
      → ((es : Log) → x ≡ entries es → (es ≡ log s) × (log s' ≡ log s))
      → (after_read b stages last_pass x s').0 ≡ none
      → holds (log (after_read b stages last_pass x s').1) stages ≡ true
  unfolding after_read
  after_read_verified stages last_pass s s' (unread e) k h = cc
  after_read_verified stages last_pass s s' (entries es) k h =
      let nothing = write_missing-none (missing_from es stages) last_pass s' h in
      rw (nothing.1, (k es refl).1, ← (k es refl).0) (missing_nil es stages nothing.0)

  write_pass_verified :
      (stages : List ℕ) (last_pass : Bool) (s : S)
      → (write_pass b stages last_pass s).0 ≡ none
      → holds (log (write_pass b stages last_pass s).1) stages ≡ true
  unfolding write_pass
  write_pass_verified stages last_pass s h =
      after_read_verified stages last_pass s (get_entries s).1 (get_entries s).0
        (get_entries_reads s) h

  write_more_verified :
      (left i : ℕ) (stages : List ℕ) (last : GateError) (s : S)
      → (write_more b left i stages last s).0 ≡ none
      → holds (log (write_more b left i stages last s).1) stages ≡ true
  unfolding write_more
  write_more_verified zero i stages last s h = cc
  write_more_verified (suc left) i stages last s h =
      let s' = (b.pause i s).1 in
      elim (Option-cases (write_pass b stages (left == 0) s').0) [
        | inl fine ↦ ground (arith, write_pass_verified stages (left == 0) s')
        | inr (e, fails) ↦ ground (
          arith,
          write_more_verified left (i + 1) stages e (write_pass b stages (left == 0) s').1,
        )
      ]

  -- On a BMC whose successful reads return its log and leave it alone, whatever else its calls do
  -- (failed reads, lost acknowledgements, wipes): a `WriteGate` that reports success leaves a log that
  -- holds every stage it was asked for.
  pub write_gate_verified :
      (stages : List ℕ) (s : S)
      → (write_gate b stages s).0 ≡ none
      → holds (log (write_gate b stages s).1) stages ≡ true
  unfolding write_gate
  write_gate_verified [] s h = refl
  write_gate_verified (g ∷ gs) s h = elim (Option-cases (b.dial s).0) [
    | inr (x, refused) ↦ ground arith
    | inl dialled ↦
        let s' = (b.dial s).1 in
        elim (Option-cases (write_pass b (g ∷ gs) false s').0) [
          | inl fine ↦ ground (arith, write_pass_verified (g ∷ gs) false s')
          | inr (e, fails) ↦
              ground (arith, write_more_verified 4 1 (g ∷ gs) e (write_pass b (g ∷ gs) false s').1)
        ]
  ]
