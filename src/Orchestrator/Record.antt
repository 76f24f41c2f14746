-- ===== src/Orchestrator/Record.antt =====
-- internal/orchestrator/model.go, errcodes.go and manager.go: the records of a deploy. Times are
-- numbers on the driver's clock; the clock skew of a preflight (a float64 of seconds in the source)
-- is a whole number of microseconds. The derived fields of `NodeDeploy` and `Deploy` (lights, phase,
-- progress, canAdvance) are the functions of `View` and of the manager's `can_advance`.
use cube_cos_driver.Base.{ℕ, String, Bool, List, Option, Map, ℤ}
use cube_cos_driver.Orchestrator.State.{State}

-- A machine-readable failure code; its prefix names the stage.
abbrev pub ErrCode : Type 0
ErrCode = String

-- The executor's view of one node.
pub record Node : Type 0 where
  pub hostname : String
  pub machine_id : String
  pub bmc_address : String
  pub bmc_user : String
  pub bmc_pass : String
  pub bmc_cipher : ℕ
  pub macs : List String
  pub os_disk : String

pub record PreflightResult : Type 0 where
  pub target : String
  pub ok : Bool
  pub detail : String

-- The installer-phase validation of one node.
pub record NodePreflight : Type 0 where
  pub carrier_ok : Bool
  pub clock_skew : ℤ
  pub matrix : List PreflightResult
  pub passed : Bool
  pub reported_at : ℕ

pub record NodeDeploy : Type 0 where
  pub hostname : String
  pub machine_id : String
  pub state : State
  pub message : String
  pub err_code : ErrCode
  pub preflight : List PreflightResult
  pub installer_preflight : Option NodePreflight
  pub rekick_seq : ℕ
  pub gates : List ℕ
  pub gate_ack : List ℕ
  pub sel_anchor : ℕ
  pub updated_at : ℕ

pub record Deploy : Type 0 where
  pub cluster_id : String
  pub started_at : ℕ
  pub master : String
  pub nodes : Map NodeDeploy
  pub verify_targets : List String
  pub cluster_ready : Bool
  pub verify : List PreflightResult
  pub set_ready_done : Bool
  pub manual : Bool
  pub manual_step : ℕ
  pub opt_out_repair : Bool
  pub simulate_airgap : Bool

-- The operator's input for the one-time cluster finalize.
pub record SetReadyInput : Type 0 where
  pub trigger : Bool
  pub create_external : Bool
  pub cidr : String
  pub gateway : String
  pub ip_range : String
  pub ready : Bool
  pub message : String
