-- ===== src/Orchestrator/View/Ordered.antt =====
-- The progress strip reads from left to right, and agrees with the state and with the lights.
use cube_cos_driver.Base.{
  ℕ, zero, suc, ◌<◌, some, get_elem?, ◌≡◌, ◌≢◌, ◌↔◌, Bool, true, false, arith, ◌⊎◌,
}
use cube_cos_driver.Orchestrator.State.{State, imaging, imaged}
use cube_cos_driver.Orchestrator.Record.{NodeDeploy}
use cube_cos_driver.Orchestrator.View.{
  PhaseCell, progress, idle, complete, failed, green, strip, lights,
}

-- In the strip of any node, the cells are in order from the preflight cell up to the apply cell: one
-- of them that has begun follows one that is complete. The fifth cell of the master, set-ready, is
-- none of them.
pub progress-in_order :
    (nd : NodeDeploy) (is_master set_ready_active set_ready_done : Bool) (i : ℕ)
    (before cell : PhaseCell)
    → i < 3
    → get_elem? (progress nd is_master set_ready_active set_ready_done) i ≡ some before
    → get_elem? (progress nd is_master set_ready_active set_ready_done) (suc i) ≡ some cell
    → cell.status ≢ idle
    → before.status ≡ complete
unfolding progress strip
progress-in_order nd is_master active done zero before cell le at next begun = ground arith
progress-in_order nd is_master active done (suc zero) before cell le at next begun = ground arith
progress-in_order nd is_master active done (suc (suc zero)) before cell le at next begun =
    ground arith
progress-in_order nd is_master active done (suc (suc (suc i))) before cell le at next begun =
    absurd (omega arith)

-- The apply cell is complete exactly when the node is done, and some cell is failed exactly when
-- the node is in error.
strip_outcome :
    (nd : NodeDeploy)
    → (((strip nd).app ≡ complete) ↔ (nd.state ≡ State.done))
      × (((strip nd).pre ≡ failed)
            ⊎ ((strip nd).res ≡ failed)
            ⊎ ((strip nd).reb ≡ failed)
            ⊎ ((strip nd).app ≡ failed)
          ↔ (nd.state ≡ State.error))
unfolding strip
strip_outcome nd = ground arith

-- The states other than error, the legacy imaging states and a text that is no state.
abbrev pub is_staged : State → Bool
is_staged imaging = false
is_staged imaged = false
is_staged State.error = false
is_staged (State.other _) = false
is_staged _ = true

-- For a node that has not failed, is in no legacy imaging state and whose state is a known one,
-- light 1 is green exactly when the preflight cell is complete.
light1_strip :
    (nd : NodeDeploy)
    → is_staged nd.state ≡ true
    → ((lights nd).0 ≡ green) ↔ ((strip nd).pre ≡ complete)
unfolding strip lights
light1_strip nd h = ground arith

-- In the two legacy imaging states light 1 is green although the preflight cell has not begun.
light1_imaging :
    (nd : NodeDeploy)
    → (nd.state ≡ imaging) ⊎ (nd.state ≡ imaged)
    → ((lights nd).0 ≡ green) × ((strip nd).pre ≡ idle)
unfolding strip lights
light1_imaging nd h = ground arith
