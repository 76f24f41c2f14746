-- ===== src/Orchestrator/Drive/Finished.antt =====
-- How the drive of a node ends.
use Prim.Native.String.{String}
use cube_cos_driver.Base.{
  ℕ, zero, suc, ◌+◌, ◌≤◌, ◌<◌, ltb, Bool, true, false, ◌||◌, ◌≡◌, refl, ◌∙◌, inl, inr, Option, none,
  some, arith, if◌then◌else◌, Option-cases,
}
use text.Mathlib.TextPositions.{eq_refl}
use cube_cos_driver.Orchestrator.Code
use cube_cos_driver.Orchestrator.State.{
  State, imaged, imaging, netbooting, agent_driven, state_eq, error,
}
use cube_cos_driver.Orchestrator.Record.{Node, NodeDeploy, ErrCode}
use cube_cos_driver.Orchestrator.Nodes.{advance_node, fail_node}
use cube_cos_driver.Orchestrator.Manager.{Manager, node_of, state_of, set_node, put_deploy}
use cube_cos_driver.Orchestrator.Manager.Records.{
  stamp, node_of-some, set_node-some, set_node-absent, node_of-set_node,
}
use cube_cos_driver.Orchestrator.Reports.{advance, fail}
use cube_cos_driver.Orchestrator.Drive.{
  Stage, no_stage, dhcp, loading, loaded, Call, Look, Loop, over, going, at_stage, watch_on,
  watch_round, watch, called, run_node,
}

-- A change of a node is no tick of the clock.
set_node-clock :
    (cid host : String) (fn : NodeDeploy → NodeDeploy) (m : Manager)
    → (set_node cid host fn m).clock ≡ m.clock
unfolding put_deploy
set_node-clock cid host fn m = elim (Option-cases (node_of cid host m)) [
  | inl gone ↦ rw (set_node-absent cid host fn m gone) refl
  | inr (nd, there) ↦
      let (d, e, f) = node_of-some cid host m nd there in
      rw (set_node-some cid host fn m d nd e f) refl
]

-- Nothing is left for the driver: the node is gone, in the agent's hands or failed, or imaged.
abbrev settled_of : Option NodeDeploy → Bool
settled_of none = true
settled_of (some nd) = agent_driven nd.state || state_eq nd.state imaged

abbrev pub settled : String → String → Manager → Bool
settled cid host m = settled_of (node_of cid host m)

-- So ends a run: it has returned, and nothing is left.
abbrev pub settles : String → String → Loop → Bool
settles cid host (over m) = settled cid host m
settles cid host (going saw m) = false

-- A node that was advanced to imaged, or failed, unless the agent had it.
imaged-settled :
    (b : Bool) (nd : NodeDeploy)
    → agent_driven nd.state ≡ b
    → settled_of (some (if b then nd else record nd { state = imaged })) ≡ true
unfolding agent_driven state_eq
imaged-settled true nd h = rw h refl
imaged-settled false nd h = refl

failed-settled :
    (b : Bool) (code : ErrCode) (msg : String) (nd : NodeDeploy)
    → agent_driven nd.state ≡ b
    → settled_of
        (some (if b then nd else record nd { state = error; err_code = code; message = msg }))
      ≡ true
unfolding agent_driven
failed-settled true code msg nd h = rw h refl
failed-settled false code msg nd h = refl

module _ (cid : String) (n : Node) where
  settled-set_node :
      (fn : NodeDeploy → NodeDeploy) (m : Manager)
      → ((nd : NodeDeploy) → settled_of (some (fn nd)) ≡ true)
      → settled cid n.hostname (set_node cid n.hostname fn m) ≡ true
  settled-set_node fn m good = elim (Option-cases (node_of cid n.hostname m)) [
    | inl gone ↦ rw (set_node-absent cid n.hostname fn m gone) (rw gone refl)
    | inr (nd, there) ↦
        let found = node_of-set_node cid n.hostname cid n.hostname fn m in
        let own : node_of cid n.hostname (set_node cid n.hostname fn m) ≡ some (stamp m fn nd) =
          found ∙ rw (eq_refl cid, eq_refl n.hostname, there) refl in
        rw own (good nd)
  ]

  advance-settled : (m : Manager) → settled cid n.hostname (advance cid n.hostname imaged m) ≡ true
  unfolding advance advance_node
  advance-settled m =
      settled-set_node (advance_node imaged) m
        (λ nd. imaged-settled (agent_driven nd.state) nd refl)

  fail-settled :
      (code : ErrCode) (msg : String) (m : Manager)
      → settled cid n.hostname (fail cid n.hostname code msg m) ≡ true
  unfolding fail fail_node
  fail-settled code msg m =
      settled-set_node (fail_node code msg) m
        (λ nd. failed-settled (agent_driven nd.state) code msg nd refl)

  driven-settled :
      (m : Manager)
      → agent_driven (state_of cid n.hostname m) ≡ true
      → settled cid n.hostname m ≡ true
  unfolding state_of
  driven-settled m h = elim (Option-cases (node_of cid n.hostname m)) [
    | inl gone ↦ rw gone refl
    | inr (nd, there) ↦ rw there (ground arith)
  ]

  -- What a round leaves: a run that settled, or a loop that goes on before the deadline.
  abbrev Rounded : ℕ → ℕ → Loop → Type 0
  Rounded from deadline (over m) = settled cid n.hostname m ≡ true
  Rounded from deadline (going saw m) = (from ≤ m.clock) × (m.clock ≤ deadline)

  advance-clock : (s : State) (m : Manager) → (advance cid n.hostname s m).clock ≡ m.clock
  unfolding advance
  advance-clock s m = set_node-clock cid n.hostname (advance_node s) m

  at_stage-Rounded :
      (deadline : ℕ) (saw : Bool) (st : Option Stage) (m : Manager)
      → m.clock ≤ deadline
      → Rounded m.clock deadline (at_stage cid n saw st m)
  at_stage-Rounded deadline saw none m h = (omega arith, h)
  at_stage-Rounded deadline saw (some no_stage) m h = (omega arith, h)
  at_stage-Rounded deadline saw (some dhcp) m h = (omega arith, h)
  at_stage-Rounded deadline false (some loading) m h =
      let same = advance-clock imaging m in (omega (arith, same), omega (arith, same, h))
  at_stage-Rounded deadline true (some loading) m h = (omega arith, h)
  at_stage-Rounded deadline saw (some loaded) m h = advance-settled m

  if-Rounded :
      (from deadline : ℕ) (b : Bool) (l r : Loop)
      → (b ≡ true → Rounded from deadline l)
      → (b ≡ false → Rounded from deadline r)
      → Rounded from deadline (if b then l else r)
  if-Rounded from deadline true l r p q = p refl
  if-Rounded from deadline false l r p q = q refl

  watch_on-Rounded :
      (deadline : ℕ) (saw : Bool) (look : Look) (m : Manager)
      → look.ended ≡ false
      → Rounded m.clock deadline (watch_on cid n deadline saw look m)
  watch_on-Rounded deadline saw look m live =
      if-Rounded m.clock deadline look.ended _ _ (λ ended. ground arith)
        (λ on.
          if-Rounded m.clock deadline (agent_driven (state_of cid n.hostname m)) _ _
            (driven-settled m)
            (λ own.
              if-Rounded m.clock deadline (ltb deadline m.clock) _ _
                (λ late. fail-settled Code.pxe_timeout "timed out waiting for install" m)
                (λ early. at_stage-Rounded deadline saw look.stage m (ground arith))))

-- The looks come one tick after another, as long as the context has not ended.
pub record Ticks (looks : ℕ → Look) (tick : ℕ) : Type 0 where
  pub live : (k : ℕ) → (looks k).ended ≡ false
  pub tick_on : (k : ℕ) (m : Manager) → m.clock + tick ≤ ((looks k).meanwhile m).clock

-- The time that a number of ticks takes.
unfoldable pub ticks : ℕ → ℕ → ℕ
ticks zero tick = 0
ticks (suc k) tick = tick + ticks k tick

module _ (cid : String) (n : Node) (looks : ℕ → Look) (tick : ℕ) (law : Ticks looks tick) where
  -- The loop returns within the ticks that reach beyond its deadline.
  watch-settles :
      (deadline k fuel : ℕ) (l : Loop) (from : ℕ)
      → Rounded cid n from deadline l
      → deadline < from + ticks fuel tick
      → settles cid n.hostname (watch cid n deadline looks k fuel l) ≡ true
  unfolding watch watch_round ticks
  watch-settles deadline k fuel (over m) from h enough = h
  watch-settles deadline k zero (going saw m) from (lo, hi) enough = ground arith
  watch-settles deadline k (suc fuel) (going saw m) from (lo, hi) enough =
      let later = (looks k).meanwhile m in
      let on = law.tick_on k m in
      watch-settles deadline (suc k) fuel (watch_on cid n deadline saw (looks k) later) later.clock
        (watch_on-Rounded cid n deadline saw (looks k) later (law.live k))
        (omega (arith, on, lo, enough))

  called-settles :
      (code : ErrCode) (fault : Option String) (next : Manager → Loop) (m : Manager)
      → ((now : Manager) → settles cid n.hostname (next now) ≡ true)
      → settles cid n.hostname (called cid n code fault next m) ≡ true
  called-settles code none next m good = good m
  called-settles code (some why) next m good = fail-settled cid n code why m

  -- Whatever the BMC answers and whatever other calls do in between, the drive of a node whose context does
  -- not end returns within the ticks that reach beyond the stage's timeout, and leaves the node imaged,
  -- failed or in the hands of its agent, or finds it gone.
  pub run_node-settles :
      (check boot power : Call) (timeout fuel : ℕ) (m : Manager)
      → timeout < ticks fuel tick
      → settles cid n.hostname (run_node cid n check boot power timeout looks fuel m) ≡ true
  unfolding run_node
  run_node-settles check boot power timeout fuel m enough =
      called-settles Code.bmc_unreachable check.fault _ _ (λ m1.
        called-settles Code.bmc_bootdev boot.fault _ _ (λ m2.
          called-settles Code.bmc_power power.fault _ _ (λ m3.
            let now = advance cid n.hostname netbooting m3 in
            watch-settles (now.clock + timeout) 0 fuel (going false now) now.clock
              (omega arith, omega arith) (omega (arith, enough)))))
