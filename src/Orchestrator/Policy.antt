-- ===== src/Orchestrator/Policy.antt =====
-- Which gates a manual deploy may have granted: the rule that the operator's steps stand for, stated
-- apart from the code that grants them.
pub mod Deploys
pub mod Managers
pub mod Grants
pub mod Runs
pub mod Launches
pub mod Cancels
pub mod Stepping
pub mod Barriers
use cube_cos_driver.Base.{
  ℕ, String, Bool, true, false, ◌&&◌, ◌≡◌, ◌==◌, leb, if◌then◌else◌, str_eq, contains, Map, some,
  List, [], ◌∷◌,
}
use cube_cos_driver.Base.Maps.{lookup}
use cube_cos_driver.Orchestrator.Record.{Node, NodeDeploy, Deploy}
use cube_cos_driver.Orchestrator.Step
use cube_cos_driver.Orchestrator.Gate

-- Restore and reboot wait for their steps, the apply of the master and of the peers for theirs, and
-- the cluster's finalize is the master's and the last.
abbrev pub allowed_at : String → ℕ → String → ℕ → Bool
allowed_at master step host g =
    if g == Gate.restore
    then leb Step.restore step
    else if g == Gate.reboot
    then leb Step.reboot step
    else if g == Gate.apply
    then (if str_eq host master then leb Step.apply_master step else leb Step.apply_rest step)
    else if g == Gate.set_ready
    then str_eq host master && leb Step.set_ready step
    else false

abbrev pub allowed : Deploy → String → ℕ → Bool
allowed d = allowed_at d.master d.manual_step

-- Every gate in the ledger of every node of the deploy is allowed.
abbrev pub IsPoliced : Deploy → Type 0
IsPoliced d =
    (host : String) (nd : NodeDeploy) (g : ℕ)
    → lookup host d.nodes ≡ some nd
    → contains nd.gates g ≡ true
    → allowed d host g ≡ true

-- Every manual deploy is policed.
abbrev pub ArePoliced : Map Deploy → Type 0
ArePoliced ds = (cid : String) (d : Deploy) → lookup cid ds ≡ some d → d.manual ≡ true → IsPoliced d

-- The nodes of a deploy stand under their own names.
abbrev pub IsNamed : Map Node → Type 0
IsNamed [] = Unit
IsNamed ((h, n) ∷ ns) = (n.hostname ≡ h) × IsNamed ns

abbrev pub AreNamed : Map (Map Node) → Type 0
AreNamed ns = (cid : String) (b : Map Node) → lookup cid ns ≡ some b → IsNamed b
