-- ===== src/Orchestrator/Tests/Logs.antt =====
-- The theorems about a BMC's log at concrete logs: a BMC whose state is its log and which answers
-- every call, and one entry of each kind.
use cube_cos_driver.Base.{
  sym, ℕ, suc, String, true, ◌≡◌, refl, List, [], ◌∷◌, ◌++◌, Option, none, some, arith, length,
  any_of, contains,
}
use cube_cos_driver.Orchestrator.Sel.{
  OemRecord, SelEntry, cube_manufacturer, gate_sel, Ip4, encode_endpoint, decode_endpoint, observe,
  is_anchor,
}
use cube_cos_driver.Orchestrator.Sel.Log.{last_actionable, behind}
use cube_cos_driver.Orchestrator.Sel.Latest.{observe_lem, observe_missing_anchor}
use cube_cos_driver.Orchestrator.Sel.Endpoint.{decode_endpoint-encode_endpoint}
use cube_cos_driver.Orchestrator.Gates.{
  Bmc, Reads, Log, entries, write_gate, gates_present, sel_full,
}
use cube_cos_driver.Orchestrator.Gates.Verified.{holds, write_gate_verified}
use cube_cos_driver.Orchestrator.Gates.Heals.{Healthy}
use cube_cos_driver.Orchestrator.Gates.Keeps.{NeverFull, write_gate_keeps}

abbrev after_add : OemRecord → Log → Log
after_add o es = es ++ some (record { record_id = suc (length es); oem = some o }) ∷ []

-- A BMC that answers every call.
abbrev log_bmc : Bmc
log_bmc = record {
  S = Log;
  dial = λ s. (none, s);
  get_entries = λ s. (entries s, s);
  add_entry = λ o s. (none, after_add o s);
  reserve = λ s. (none, s);
  clear = λ s. (none, []);
  pause = λ i s. (true, s);
  now = λ s. 7;
}

entries_eq : (es fs : Log) → entries es ≡ entries fs → es ≡ fs
entries_eq es fs h = cc

abbrev log_bmc_reads : Reads log_bmc
log_bmc_reads = record {
  log = λ s. s;
  get_entries_reads = λ s es h. (sym (entries_eq s es h), refl);
}

abbrev log_bmc_healthy : Healthy log_bmc
log_bmc_healthy = record {
  log = λ s. s;
  dials = λ s. (refl, refl);
  reads = λ s. (refl, refl);
  waits = λ i s. (refl, refl);
  adds = λ o s. (suc (length s), refl, refl);
}

-- A log with the restore gate and one status of the agent.
abbrev status_entry : ℕ → ℕ → ℕ → Option SelEntry
status_entry id phase result = some (record {
  record_id = id;
  oem = some (record {
    timestamp = 5;
    manufacturer = cube_manufacturer;
    bytes = record { b0 = phase; b1 = result; b2 = 0; b3 = 0; b4 = 0; b5 = 0 };
  });
})

abbrev gate_entry : ℕ → ℕ → Option SelEntry
gate_entry id stage = some (record { record_id = id; oem = some (gate_sel 5 stage) })

abbrev some_log : Log
some_log = status_entry 1 0x15 0x01 ∷ gate_entry 2 1 ∷ status_entry 3 0x2f 0x01 ∷ none ∷ []

write_gate_verified_example : holds (write_gate log_bmc (1 ∷ 2 ∷ []) some_log).1 (1 ∷ 2 ∷ []) ≡ true
unfolding write_gate contains gates_present gate_sel
write_gate_verified_example = write_gate_verified log_bmc log_bmc_reads (1 ∷ 2 ∷ []) some_log refl

-- The stage that was missing is the one that was added.
added_stage : gates_present (write_gate log_bmc (1 ∷ 2 ∷ []) some_log).1 ≡ 1 ∷ 2 ∷ []
unfolding write_gate gates_present gate_sel contains
added_stage = refl

-- The entry with the handle 3 is there.
abbrev HasThird : Log → Type 0
HasThird es = any_of (is_anchor 3) es ≡ true

any_of-append : (es fs : Log) → HasThird es → HasThird (es ++ fs)
any_of-append [] fs h = ground arith
any_of-append (e ∷ es) fs h = ground (arith, any_of-append es fs)

HasThird-after_add : (o : OemRecord) (es : Log) → HasThird es → HasThird (after_add o es)
HasThird-after_add o es h = any_of-append es _ h

log_bmc_never_full : NeverFull log_bmc HasThird
log_bmc_never_full = record {
  dials = λ s h. h;
  reads = λ s h. h;
  waits = λ i s h. h;
  adds = HasThird-after_add;
  room = λ o s. unfold sel_full in refl;
}

write_gate_keeps_example : HasThird (write_gate log_bmc (1 ∷ 2 ∷ []) some_log).1
write_gate_keeps_example =
    write_gate_keeps log_bmc HasThird log_bmc_never_full (1 ∷ 2 ∷ []) some_log refl

abbrev no_text : List ℕ → String
no_text bytes = ""

observe_lem_example : observe no_text 1 some_log ≡ last_actionable no_text (behind 1 some_log)
observe_lem_example = observe_lem no_text 1 some_log

observe_missing_anchor_example : observe no_text 9 some_log ≡ none
observe_missing_anchor_example = observe_missing_anchor no_text 9 some_log (ground arith) refl

abbrev some_address : Ip4
some_address = record { a = 10; b = 0; c = 0; d = 1 }

decode_endpoint-encode_endpoint_example :
    decode_endpoint (encode_endpoint some_address 8443) ≡ (some_address, 8443, true)
decode_endpoint-encode_endpoint_example =
    decode_endpoint-encode_endpoint some_address 8443 (ground arith)
