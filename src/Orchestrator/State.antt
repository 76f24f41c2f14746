-- ===== src/Orchestrator/State.antt =====
-- internal/orchestrator/model.go and sel.go: the states of a node's deploy and their orders. A
-- `State` of the source is a text, since an agent may report any text as its state: the known texts
-- are constructors of their own and `other` holds any further one, `other ""` the empty text.
use cube_cos_driver.Base.{
  ℕ, String, Bool, true, false, ◌||◌, List, [], ◌∷◌, ℤ, pos, negsuc, ◌==◌, str_eq,
}

pub data State : Type 0 where
  pending bmc_preflight set_boot_pxe power_cycle netbooting : State
  preflighting preflight_ok restoring rebooting imaging imaged : State
  checked_in net_preflight waiting applying applied done error : State
  other : String → State

-- A number for each state, to compare states by.
tag : State → ℕ
tag pending = 0
tag bmc_preflight = 1
tag set_boot_pxe = 2
tag power_cycle = 3
tag netbooting = 4
tag preflighting = 5
tag preflight_ok = 6
tag restoring = 7
tag rebooting = 8
tag imaging = 9
tag imaged = 10
tag checked_in = 11
tag net_preflight = 12
tag waiting = 13
tag applying = 14
tag applied = 15
tag done = 16
tag error = 17
tag (other s) = 18

-- `s == t` on states.
unfoldable pub state_eq : State → State → Bool
unfolding tag
state_eq (other s) (other t) = str_eq s t
state_eq s t = tag s == tag t

unfoldable pub is_done : State → Bool
is_done done = true
is_done _ = false

unfoldable pub is_error : State → Bool
is_error error = true
is_error _ = false

-- A node in a terminal state needs no further stepping.
unfoldable pub terminal : State → Bool
unfolding is_error is_done
terminal s = is_error s || is_done s

-- The place of a state on the install pipeline that the operator sees.
unfoldable pub pipeline_rank : State → ℕ
pipeline_rank preflighting = 1
pipeline_rank preflight_ok = 2
pipeline_rank restoring = 3
pipeline_rank rebooting = 4
pipeline_rank checked_in = 5
pipeline_rank waiting = 5
pipeline_rank net_preflight = 5
pipeline_rank applying = 6
pipeline_rank applied = 6
pipeline_rank done = 7
pipeline_rank _ = 0

unfoldable pub is_pre_restore : State → Bool
is_pre_restore pending = true
is_pre_restore bmc_preflight = true
is_pre_restore set_boot_pxe = true
is_pre_restore power_cycle = true
is_pre_restore netbooting = true
is_pre_restore preflighting = true
is_pre_restore preflight_ok = true
is_pre_restore restoring = true
is_pre_restore rebooting = true
is_pre_restore _ = false

-- The states that the agent advances: the orchestrator no longer moves such a node.
unfoldable pub agent_driven : State → Bool
agent_driven preflighting = true
agent_driven preflight_ok = true
agent_driven restoring = true
agent_driven rebooting = true
agent_driven checked_in = true
agent_driven waiting = true
agent_driven net_preflight = true
agent_driven applying = true
agent_driven applied = true
agent_driven done = true
agent_driven error = true
agent_driven _ = false

-- The deploy progression that `stateRank` searches, written out in `state_rank` below.
abbrev pub order : List State
order =
    pending ∷ bmc_preflight ∷ set_boot_pxe ∷ power_cycle ∷ netbooting ∷ preflighting ∷ preflight_ok
    ∷ restoring ∷ rebooting ∷ imaging ∷ imaged ∷ checked_in ∷ waiting ∷ net_preflight ∷ applying
    ∷ applied ∷ done ∷ []

-- The place of a state in `order`, and -1 for one that is not there.
unfoldable pub state_rank : State → ℤ
state_rank pending = pos 0
state_rank bmc_preflight = pos 1
state_rank set_boot_pxe = pos 2
state_rank power_cycle = pos 3
state_rank netbooting = pos 4
state_rank preflighting = pos 5
state_rank preflight_ok = pos 6
state_rank restoring = pos 7
state_rank rebooting = pos 8
state_rank imaging = pos 9
state_rank imaged = pos 10
state_rank checked_in = pos 11
state_rank waiting = pos 12
state_rank net_preflight = pos 13
state_rank applying = pos 14
state_rank applied = pos 15
state_rank done = pos 16
state_rank _ = negsuc 0
