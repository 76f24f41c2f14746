-- ===== src/Orchestrator/Inspects.antt =====
-- internal/orchestrator/manager.go: the boots in which a machine reports its hardware. A status is shared by
-- pointer between the manager's map and the timer of the run that made it; the number of the run stands for
-- the pointer. A reset of a boot device that is started in the background is put on a list, and is a step of
-- its own.
pub mod Refused
use Prim.Native.String.{String}
use cube_cos_driver.Base.{
  ℕ, suc, ◌==◌, Bool, true, false, not, ◌&&◌, ◌||◌, List, [], ◌∷◌, ◌++◌, map, Option, none, some,
  str_eq, if◌then◌else◌, Map,
}
use cube_cos_driver.Base.Maps.{lookup, insert, remove}
use cube_cos_driver.Orchestrator.Record.{Node}

-- `InspectStatus`, with the run that made it.
pub record InspectStatus : Type 0 where
  pub run : ℕ
  pub machine_id : String
  pub label : String
  pub state : String
  pub message : String
  pub updated_at : ℕ

-- The fields of the manager that inspects use, the resets that were started and the nodes whose boot device
-- was set to the disk.
pub record Inspecting : Type 0 where
  pub inspects : Map InspectStatus
  pub inspect_nodes : Map Node
  pub resets : List String
  pub disk_boots : List Node
  pub next_run : ℕ
  pub clock : ℕ

-- `prevStatus` and `prevNode`: what the machines of a start had.
abbrev pub keep_value : {V : Type 0} → String → Option V → Map V → Map V
keep_value k none prev = prev
keep_value k (some v) prev = insert k v prev

unfoldable pub kept : {V : Type 0} → Map V → List Node → Map V
unfolding lookup insert
kept now [] = []
kept now (n ∷ ns) = keep_value n.machine_id (lookup n.machine_id now) (kept now ns)

abbrev pub label_of : Option String → String
label_of none = ""
label_of (some l) = l

-- The first part of `StartInspect`: each machine gets a status of its own run.
unfoldable pub begin_one : Map String → Node → Inspecting → Inspecting
unfolding insert lookup
begin_one labels n s = record s {
  inspects =
      insert n.machine_id
        (record {
          run = s.next_run;
          machine_id = n.machine_id;
          label = label_of (lookup n.machine_id labels);
          state = "booting";
          message = "";
          updated_at = s.clock;
        })
        s.inspects;
  inspect_nodes = insert n.machine_id n s.inspect_nodes;
  next_run = suc s.next_run;
}

unfoldable pub begin_all : Map String → List Node → Inspecting → Inspecting
unfolding begin_one
begin_all labels [] s = s
begin_all labels (n ∷ ns) s = begin_all labels ns (begin_one labels n s)

-- Its refusal: what the machines had is put back.
abbrev pub put_back_value : {V : Type 0} → String → Option V → Map V → Map V
put_back_value k none m = remove k m
put_back_value k (some v) m = insert k v m

unfoldable pub put_back : {V : Type 0} → Map V → List Node → Map V → Map V
unfolding lookup insert remove
put_back prev [] m = m
put_back prev (n ∷ ns) m =
    put_back prev ns (put_back_value n.machine_id (lookup n.machine_id prev) m)

unfoldable pub refuse : Map InspectStatus → Map Node → List Node → Inspecting → Inspecting
unfolding put_back
refuse prev_status prev_node ns s = record s {
  inspects = put_back prev_status ns s.inspects;
  inspect_nodes = put_back prev_node ns s.inspect_nodes;
}

-- `StartInspect` up to its goroutines: others act while the boot menu is flipped, which may fail.
abbrev pub after_flip :
    Option String
    → Map InspectStatus
    → Map Node
    → List Node
    → Inspecting
    → Option String × Inspecting
after_flip none prev_status prev_node ns s = (none, s)
after_flip (some why) prev_status prev_node ns s = (some why, refuse prev_status prev_node ns s)

unfoldable pub start_inspect :
    List Node
    → Map String
    → Option String
    → (Inspecting → Inspecting)
    → Inspecting
    → Option String × Inspecting
unfolding kept begin_all refuse
start_inspect ns labels flip_fault meanwhile s =
    after_flip flip_fault (kept s.inspects ns) (kept s.inspect_nodes ns) ns
      (meanwhile (begin_all labels ns s))

-- `resetInspectBoot`: the reset is made for a machine that has a node, and once.
abbrev pub reset_known : String → Option Node → Inspecting → Inspecting
reset_known id none s = s
reset_known id (some n) s = record s {
  disk_boots = s.disk_boots ++ n ∷ [];
  inspect_nodes = remove id s.inspect_nodes;
}

unfoldable pub reset_inspect_boot : String → Inspecting → Inspecting
unfolding lookup remove
reset_inspect_boot id s = reset_known id (lookup id s.inspect_nodes) s

-- `go m.resetInspectBoot(machineID)`.
abbrev pub start_reset : String → Inspecting → Inspecting
start_reset id s = record s { resets = s.resets ++ id ∷ [] }

-- `setInspect`.
abbrev pub set_status : String → String → String → Option InspectStatus → Inspecting → Inspecting
set_status id state msg none s = s
set_status id state msg (some st) s = record s {
  inspects =
      insert id (record st { state = state; message = msg; updated_at = s.clock }) s.inspects;
}

unfoldable pub set_inspect : String → String → String → Inspecting → Inspecting
unfolding lookup insert
set_inspect id state msg s =
    let s' = set_status id state msg (lookup id s.inspects) s in
    if str_eq state "reported" || str_eq state "error" then start_reset id s' else s'

-- `expireInspectRun`.
abbrev pub expire_status : String → ℕ → Option InspectStatus → Inspecting → Inspecting
expire_status id run none s = s
expire_status id run (some st) s =
    if st.run == run && str_eq st.state "booting"
    then start_reset id (record s {
      inspects =
          insert id
            (record st {
              state = "error";
              message =
                  "no check-in within timeout — node did not boot to inspect (check power / PXE)";
              updated_at = s.clock;
            })
            s.inspects;
    })
    else s

unfoldable pub expire_inspect_run : String → ℕ → Inspecting → Inspecting
unfolding lookup insert
expire_inspect_run id run s = expire_status id run (lookup id s.inspects) s

-- `InspectReported`.
unfoldable pub inspect_reported : String → Inspecting → Inspecting
unfolding set_inspect
inspect_reported id s = set_inspect id "reported" "" s

-- `IsInspecting`.
abbrev pub is_active : Option InspectStatus → Bool
is_active none = false
is_active (some st) = not (str_eq st.state "reported")

unfoldable pub is_inspecting : String → Inspecting → Bool
unfolding lookup
is_inspecting id s = is_active (lookup id s.inspects)

-- `inspectsBooted`.
abbrev pub has_booted : Option InspectStatus → Bool
has_booted none = true
has_booted (some st) = str_eq st.state "reported" || str_eq st.state "error"

unfoldable pub inspects_booted : List String → Inspecting → Bool
unfolding lookup
inspects_booted [] s = true
inspects_booted (id ∷ ids) s = has_booted (lookup id s.inspects) && inspects_booted ids s

-- `Inspects`, the statuses in the order of the map.
abbrev pub statuses : Map InspectStatus → List InspectStatus
statuses m = map (λ kv. kv.1) m
