-- ===== src/Orchestrator/Drive.antt =====
-- internal/orchestrator/manager.go: `runNode`, which drives a node until its agent reports, and `pollSEL`,
-- which reads the logs of the BMCs. Both give up the manager's lock between their parts: what other calls
-- have done by then is a function on the manager.
pub mod Finished
pub mod Polled
use Prim.Native.String.{String}
use cube_cos_driver.Base.{
  ℕ, zero, suc, ◌+◌, ltb, Bool, true, false, not, ◌&&◌, ◌||◌, List, [], ◌∷◌, ◌++◌, Option, none,
  some, str_eq, if◌then◌else◌,
}
use cube_cos_driver.Orchestrator.Code
use cube_cos_driver.Orchestrator.State.{
  State, bmc_preflight, set_boot_pxe, power_cycle, netbooting, imaging, imaged, agent_driven,
  terminal,
}
use cube_cos_driver.Orchestrator.Record.{Node, ErrCode}
use cube_cos_driver.Orchestrator.Sel.{SelStatus}
use cube_cos_driver.Orchestrator.Manager.{Manager, state_of, master_of}
use cube_cos_driver.Orchestrator.Ready.{set_ready_pending}
use cube_cos_driver.Orchestrator.Reports.{advance, fail, merge_sel}

-- `Stage`, how far a node's load of its image is.
pub data Stage : Type 0 where
  no_stage : Stage
  dhcp : Stage
  loading : Stage
  loaded : Stage

-- One call on a node's BMC: what others have done by its end, and its error.
pub record Call : Type 0 where
  pub meanwhile : Manager → Manager
  pub fault : Option String

-- One tick of a loop: what others have done by then, whether the context has ended, and what the look at the
-- node gives, `none` for an error.
pub record Look : Type 0 where
  pub meanwhile : Manager → Manager
  pub ended : Bool
  pub stage : Option Stage

-- A loop that has returned, or goes on, with the manager.
pub data Loop : Type 0 where
  over : Manager → Loop
  going : Bool → Manager → Loop

module _ (cid : String) (n : Node) where
  -- The stage that a look found; `saw_imaging` is true after the first look at the load.
  abbrev pub at_stage : Bool → Option Stage → Manager → Loop
  at_stage saw none m = going saw m
  at_stage saw (some no_stage) m = going saw m
  at_stage saw (some dhcp) m = going saw m
  at_stage saw (some loading) m =
      if not saw then going true (advance cid n.hostname imaging m) else going saw m
  at_stage saw (some loaded) m = over (advance cid n.hostname imaged m)

  -- One round of the loop that watches the installation.
  abbrev pub watch_on : ℕ → Bool → Look → Manager → Loop
  watch_on deadline saw look m =
      if look.ended
      then over m
      else if agent_driven (state_of cid n.hostname m)
      then over m
      else if ltb deadline m.clock
      then over (fail cid n.hostname Code.pxe_timeout "timed out waiting for install" m)
      else at_stage saw look.stage m

  unfoldable pub watch_round : ℕ → Bool → Look → Manager → Loop
  unfolding advance fail agent_driven state_of
  watch_round deadline saw look m = watch_on deadline saw look (look.meanwhile m)

  -- As many rounds as `fuel` says, of the looks from the k-th on.
  unfoldable pub watch : ℕ → (ℕ → Look) → ℕ → ℕ → Loop → Loop
  unfolding watch_round
  watch deadline looks k fuel (over m) = over m
  watch deadline looks k zero (going saw m) = going saw m
  watch deadline looks k (suc fuel) (going saw m) =
      watch deadline looks (suc k) fuel (watch_round deadline saw (looks k) m)

  -- The three calls on the BMC before it. A call that fails ends the run with an error of its own.
  abbrev pub called : ErrCode → Option String → (Manager → Loop) → Manager → Loop
  called code none next m = next m
  called code (some why) next m = over (fail cid n.hostname code why m)

  abbrev pub start_watch : ℕ → (ℕ → Look) → ℕ → Manager → Loop
  start_watch timeout looks fuel m =
      let m' = advance cid n.hostname netbooting m in
      watch (m'.clock + timeout) looks 0 fuel (going false m')

  -- `runNode`, less the stamp of the driver's endpoint, which changes no record of the manager.
  unfoldable pub run_node : Call → Call → Call → ℕ → (ℕ → Look) → ℕ → Manager → Loop
  unfolding advance fail watch
  run_node check boot power timeout looks fuel m =
      called Code.bmc_unreachable check.fault
        (λ m1.
          called Code.bmc_bootdev boot.fault
            (λ m2.
              called Code.bmc_power power.fault (start_watch timeout looks fuel)
                (power.meanwhile (advance cid n.hostname power_cycle m2)))
            (boot.meanwhile (advance cid n.hostname set_boot_pxe m1)))
        (check.meanwhile (advance cid n.hostname bmc_preflight m))

-- One round of the poll: whether the context has ended; what others have done by then, between the reading
-- of set-ready and that of the master, and before the reading of each node's state; what each node's log
-- gives, and what others have done while it was read.
pub record Poll : Type 0 where
  pub meanwhile : Manager → Manager
  pub ended : Bool
  pub before_master : Manager → Manager
  pub before_state : String → Manager → Manager
  pub seen : String → Option SelStatus
  pub reading : String → Manager → Manager

pub data Polling : Type 0 where
  stopped : Manager → Polling
  polling : Manager → Polling

module _ (cid : String) where
  abbrev pub merged : String → Option SelStatus → Manager → Manager
  merged host none m = m
  merged host (some s) m = merge_sel cid host s m

  -- One node, which is terminal or not: whether it was, and the manager after the look at it.
  abbrev pub look_at : Bool → Poll → Bool → String → Node → Manager → Bool × Manager
  look_at false p wait_ready master n m =
      (false, merged n.hostname (p.seen n.hostname) (p.reading n.hostname m))
  look_at true p wait_ready master n m =
      if not wait_ready || not (str_eq n.hostname master)
      then (true, m)
      else (true, merged n.hostname (p.seen n.hostname) (p.reading n.hostname m))

  unfoldable pub poll_nodes : Poll → Bool → String → List Node → Manager → Bool × Manager
  unfolding terminal state_of merge_sel
  poll_nodes p wait_ready master [] m = (true, m)
  poll_nodes p wait_ready master (n ∷ ns) m0 =
      let m = p.before_state n.hostname m0 in
      let (first, m1) = look_at (terminal (state_of cid n.hostname m)) p wait_ready master n m in
      let (rest, m2) = poll_nodes p wait_ready master ns m1 in (first && rest, m2)

  abbrev pub after_poll : Bool → Bool × Manager → Polling
  after_poll wait_ready (all_terminal, m) =
      if all_terminal && not wait_ready then stopped m else polling m

  -- One round of `pollSEL`.
  unfoldable pub poll_round : List Node → Poll → Manager → Polling
  unfolding poll_nodes set_ready_pending master_of
  poll_round ns p m0 =
      let m = p.meanwhile m0 in
      if p.ended
      then stopped m
      else (let m1 = p.before_master m in
          after_poll (set_ready_pending cid m)
            (poll_nodes p (set_ready_pending cid m) (master_of cid m1) ns m1))
