-- ===== src/Orchestrator/Nodes/Codes.antt =====
-- Why a node is held: the preflight codes, and the gates that the driver still has to keep alive.
use cube_cos_driver.Base.{
  eq_iff, if◌then◌else◌, not, zero, suc, ℕ, Bool, true, false, ◌≡◌, ◌⊎◌, ◌↔◌, List, [], ◌∷◌, arith,
  contains, ◌≤◌, ◌<◌, ℤ, pos, negsuc, All,
}
use cube_cos_driver.Orchestrator.Gate
use cube_cos_driver.Orchestrator.Code
use cube_cos_driver.Orchestrator.State.{error, done}
use cube_cos_driver.Orchestrator.Record.{PreflightResult, NodePreflight, NodeDeploy}
use cube_cos_driver.Orchestrator.Nodes.{
  skewed, ping_failed, preflight_code, unconfirmed, gates_at_risk,
}

-- The clock is no further off than the limit, on either side.
abbrev pub IsWithin : ℕ → ℤ → Type 0
IsWithin limit (pos n) = n ≤ limit
IsWithin limit (negsuc n) = n < limit

skewed-IsWithin : (limit : ℕ) (skew : ℤ) → (skewed limit skew ≡ false) ↔ IsWithin limit skew
unfolding skewed
skewed-IsWithin zero (pos n) = ground arith
skewed-IsWithin (suc l) (pos n) = ground arith
skewed-IsWithin zero (negsuc n) = ground arith
skewed-IsWithin (suc l) (negsuc n) = ground arith

ping_failed-All : (rs : List PreflightResult) → (ping_failed rs ≡ false) ↔ All (λ r. r.ok ≡ true) rs
unfolding ping_failed
ping_failed-All [] = ground arith
ping_failed-All (r ∷ rs) = ground (arith, ping_failed-All rs)

code_none :
    (p c s g : Bool)
    → ((if p
          then ""
          else if not c
          then Code.pf_carrier
          else if s
          then Code.pf_skew
          else if g
          then Code.pf_ping
          else "")
        ≡ "")
      ↔ ((p ≡ true) ⊎ ((c ≡ true) × (s ≡ false) × (g ≡ false)))
code_none true c s g = ground arith
code_none false false s g = ground (arith, eq_iff Code.pf_carrier "")
code_none false true true g = ground (arith, eq_iff Code.pf_skew "")
code_none false true false true = ground (arith, eq_iff Code.pf_ping "")
code_none false true false false = ground arith

-- A preflight report is given no error code exactly when the agent calls it passed, or when nothing
-- is wrong that the driver checks: the links are up, the clock is within the limit on either side,
-- and every target of the ping matrix answered.
preflight_code_none :
    (limit : ℕ) (pf : NodePreflight)
    → (preflight_code limit pf ≡ "") ↔ (
        (pf.passed ≡ true)
        ⊎ ((pf.carrier_ok ≡ true)
            × IsWithin limit pf.clock_skew
            × All (λ r. r.ok ≡ true) pf.matrix))
unfolding preflight_code
preflight_code_none limit pf = ground (
  arith,
  code_none pf.passed pf.carrier_ok (skewed limit pf.clock_skew) (ping_failed pf.matrix),
  skewed-IsWithin limit pf.clock_skew,
  ping_failed-All pf.matrix,
)

unconfirmed-All :
    (gs ack : List ℕ) → (unconfirmed gs ack ≡ false) ↔ All (λ g. contains ack g ≡ true) gs
unfolding unconfirmed
unconfirmed-All [] ack = ground arith
unconfirmed-All (g ∷ gs) ack = ground (arith, unconfirmed-All gs ack)

-- The driver stops watching a node's gates in exactly three cases: none was granted; the node failed;
-- or the node is done, every granted gate was confirmed on the BMC, and either set-ready is not among
-- them or the cluster has reported its result.
gates_at_risk_lem :
    (set_ready_done : Bool) (nd : NodeDeploy)
    → (gates_at_risk set_ready_done nd ≡ false) ↔ (
        (nd.gates ≡ [])
        ⊎ (nd.state ≡ error)
        ⊎ ((nd.state ≡ done)
            × All (λ g. contains nd.gate_ack g ≡ true) nd.gates
            × ((contains nd.gates Gate.set_ready ≡ false) ⊎ (set_ready_done ≡ true))))
unfolding gates_at_risk
gates_at_risk_lem set_ready_done nd = ground (arith, unconfirmed-All nd.gates nd.gate_ack)
