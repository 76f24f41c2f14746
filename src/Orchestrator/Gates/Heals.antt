-- ===== src/Orchestrator/Gates/Heals.antt =====
-- A healthy BMC ends up with exactly the missing stages added, and no write loses a record unless
-- the BMC says that its log is full.
use cube_cos_driver.Base.{ℕ, ◌≡◌, true, List, [], ◌∷◌, ◌++◌, none, some}
use cube_cos_driver.Orchestrator.Sel.{OemRecord}
use cube_cos_driver.Orchestrator.Gates.{Bmc, Log, entries, gates_present}

-- A BMC that answers every call: reads return the log, a record is put at the end, and neither the
-- session nor the context ends.
pub record Healthy (b : Bmc) : Type 1 where
  pub log : b.S → Log
  pub dials : (s : b.S) → ((b.dial s).0 ≡ none) × (log (b.dial s).1 ≡ log s)
  pub reads :
      (s : b.S) → ((b.get_entries s).0 ≡ entries (log s)) × (log (b.get_entries s).1 ≡ log s)
  pub waits : (i : ℕ) (s : b.S) → ((b.pause i s).0 ≡ true) × (log (b.pause i s).1 ≡ log s)
  pub adds :
      (o : OemRecord) (s : b.S)
      → (id : ℕ) × ((b.add_entry o s).0 ≡ none)
        × (log (b.add_entry o s).1 ≡ log s ++ some (record { record_id = id; oem = some o }) ∷ [])

module _ (b : Bmc) (h : Healthy b) where
  open b use {S, now}
  open h use {log, dials, reads, waits, adds}

  abbrev gates : S → List ℕ
  gates s = gates_present (log s)
