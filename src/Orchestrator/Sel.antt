-- ===== src/Orchestrator/Sel.antt =====
-- internal/orchestrator/sel.go: the records that the agent and the driver leave in the system event
-- log (SEL) of a node's BMC, and what the driver reads back from them. The entry types of the IPMI
-- library are written out as far as the package reads them; an absent pointer is `none`. Go's
-- conversion of bytes to a text is the parameter `text`.
pub mod Log
pub mod Latest
pub mod Endpoint
use cube_cos_driver.Base.{
  ℕ, suc, ◌+◌, ◌*◌, ◌/◌, ◌%◌, String, Bool, true, false, ◌&&◌, ◌||◌, List, [], ◌∷◌, ◌++◌, Option,
  none, some, ◌==◌, if◌then◌else◌,
}
use cube_cos_driver.Orchestrator.State.{State, restoring, rebooting, waiting, applying}

-- The six bytes that the maker of an OEM record defines.
pub record OemBytes : Type 0 where
  pub b0 : ℕ
  pub b1 : ℕ
  pub b2 : ℕ
  pub b3 : ℕ
  pub b4 : ℕ
  pub b5 : ℕ

pub record OemRecord : Type 0 where
  pub timestamp : ℕ
  pub manufacturer : ℕ
  pub bytes : OemBytes

pub record SelEntry : Type 0 where
  pub record_id : ℕ
  pub oem : Option OemRecord

abbrev pub cube_manufacturer : ℕ
cube_manufacturer = 0x0BC0DE

abbrev pub endpoint_manufacturer : ℕ
endpoint_manufacturer = 0x0BC0DF

-- The phase and the result that a status record carries; `unnamed` is a byte with no name.
pub data SelPhase : Type 0 where
  preflight restoring_phase restore_done rebooted applying_phase applied_phase : SelPhase
  done_phase ready_phase error_phase unnamed : SelPhase

pub data SelResult : Type 0 where
  ok degraded unreachable topology_error error_result unnamed_result : SelResult

pub record SelStatus : Type 0 where
  pub phase : SelPhase
  pub result : SelResult
  pub detail : String
  pub at : ℕ
  pub record_id : ℕ

unfoldable pub phase_name : ℕ → SelPhase
phase_name b =
    if b == 0x10
    then preflight
    else if b == 0x15
    then restoring_phase
    else if b == 0x16
    then restore_done
    else if b == 0x18
    then rebooted
    else if b == 0x20
    then applying_phase
    else if b == 0x21
    then applied_phase
    else if b == 0x2f
    then done_phase
    else if b == 0x40
    then ready_phase
    else if b == 0xff
    then error_phase
    else unnamed

unfoldable pub result_name : ℕ → SelResult
result_name b =
    if b == 0x01
    then ok
    else if b == 0x02
    then degraded
    else if b == 0x03
    then unreachable
    else if b == 0x04
    then topology_error
    else if b == 0xff
    then error_result
    else unnamed_result

-- The bytes without the zeros at their end.
trim_zeros : List ℕ → List ℕ
trim_zeros [] = []
trim_zeros (b ∷ bs) =
    let rest = trim_zeros bs in
    elim rest [ [] ↦ if b == 0 then [] else b ∷ [] | c ∷ cs ↦ b ∷ c ∷ cs ]

-- The state that a status confirms; `none` is the empty state, which advances nothing.
unfoldable pub phase_state : SelPhase → Option State
phase_state restoring_phase = some restoring
phase_state restore_done = some rebooting
phase_state rebooted = some waiting
phase_state applying_phase = some applying
phase_state applied_phase = some State.done
phase_state done_phase = some State.done
phase_state ready_phase = some State.done
phase_state error_phase = some State.error
phase_state _ = none

unfoldable pub is_error_result : SelResult → Bool
is_error_result error_result = true
is_error_result _ = false

unfoldable pub sel_state : SelStatus → Option State
unfolding is_error_result phase_state
sel_state s = if is_error_result s.result then some State.error else phase_state s.phase

abbrev pub is_anchor : ℕ → Option SelEntry → Bool
is_anchor after none = false
is_anchor after (some e) = e.record_id == after

abbrev pub newer : Option SelStatus → Option SelStatus → Option SelStatus
newer latest none = latest
newer latest (some s) = some s

module _ (text : List ℕ → String) where
  unfoldable pub decode_oem : ℕ → OemRecord → Option SelStatus
  unfolding phase_name result_name trim_zeros
  decode_oem id o =
      if o.manufacturer == cube_manufacturer
      then some (record {
        phase = phase_name o.bytes.b0;
        result = result_name o.bytes.b1;
        detail = text (trim_zeros (o.bytes.b2 ∷ o.bytes.b3 ∷ o.bytes.b4 ∷ o.bytes.b5 ∷ []));
        at = o.timestamp;
        record_id = id;
      })
      else none

  -- The status that an entry carries, if it is one of ours.
  unfoldable pub decode_entry : Option SelEntry → Option SelStatus
  unfolding decode_oem
  decode_entry none = none
  decode_entry (some e) = elim e.oem [ none ↦ none | some o ↦ decode_oem e.record_id o ]

  -- The status of an entry, if it maps to a state.
  unfoldable pub actionable : Option SelEntry → Option SelStatus
  unfolding decode_entry sel_state
  actionable e = elim (decode_entry e) [
    | none ↦ none
    | some s ↦ elim (sel_state s) [ none ↦ none | some _ ↦ some s ]
  ]

  -- The loop of `Observe`: `past` says that the anchor has been passed.
  unfoldable pub scan : ℕ → Bool → Option SelStatus → List (Option SelEntry) → Option SelStatus
  scan after past latest [] = latest
  scan after past latest (e ∷ es) =
      scan after (past || is_anchor after e) (if past then newer latest (actionable e) else latest)
        es

  unfoldable pub observe : ℕ → List (Option SelEntry) → Option SelStatus
  unfolding scan
  observe after es = scan after (after == 0) none es

-- `Anchor`: the handle of the last entry, and 0 if there is none.
unfoldable pub anchor : List (Option SelEntry) → ℕ
anchor [] = 0
anchor (none ∷ []) = 0
anchor (some e ∷ []) = e.record_id
anchor (_ ∷ e ∷ es) = anchor (e ∷ es)

-- The go record of a gate stage.
unfoldable pub gate_sel : ℕ → ℕ → OemRecord
gate_sel now stage = record {
  timestamp = now;
  manufacturer = cube_manufacturer;
  bytes = record { b0 = 0x30; b1 = 0x05; b2 = stage; b3 = 0; b4 = 0; b5 = 0 };
}

-- An IPv4 address of four bytes.
pub record Ip4 : Type 0 where
  pub a : ℕ
  pub b : ℕ
  pub c : ℕ
  pub d : ℕ

-- `byte(x)` of a uint16 keeps the low eight bits.
unfoldable pub encode_endpoint : Ip4 → ℕ → OemBytes
encode_endpoint ip port = record {
  b0 = ip.a;
  b1 = ip.b;
  b2 = ip.c;
  b3 = ip.d;
  b4 = (port / 256) % 256;
  b5 = port % 256;
}

abbrev pub is_unset : Ip4 → Bool
is_unset ip = ip.a == 0 && (ip.b == 0 && (ip.c == 0 && ip.d == 0))

-- The address, the port and whether the address is set.
unfoldable pub decode_endpoint : OemBytes → Ip4 × ℕ × Bool
decode_endpoint x =
    let ip : Ip4 = record { a = x.b0; b = x.b1; c = x.b2; d = x.b3 } in
    (ip, (x.b4 * 256) % 65536 + x.b5, if is_unset ip then false else true)

unfoldable pub endpoint_sel : ℕ → Ip4 → ℕ → OemRecord
unfolding encode_endpoint
endpoint_sel now ip port = record {
  timestamp = now;
  manufacturer = endpoint_manufacturer;
  bytes = encode_endpoint ip port;
}
