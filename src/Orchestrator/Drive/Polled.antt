-- ===== src/Orchestrator/Drive/Polled.antt =====
-- When the poll of the logs stops.
use Prim.Native.String.{String}
use cube_cos_driver.Base.{
  Bool, true, false, ◌&&◌, ◌≡◌, refl, ◌∙◌, List, [], ◌∷◌, arith, if◌then◌else◌, subst, sym,
}
use cube_cos_driver.Orchestrator.State.{terminal}
use cube_cos_driver.Orchestrator.Record.{Node}
use cube_cos_driver.Orchestrator.Manager.{Manager, state_of, master_of}
use cube_cos_driver.Orchestrator.Ready.{set_ready_pending}
use cube_cos_driver.Orchestrator.Drive.{Poll, stopped, look_at, poll_nodes, after_poll, poll_round}

both_true : (a b : Bool) → a ≡ true → b ≡ true → (a && b) ≡ true
both_true a b h k = rw (h, k) refl

stopped_eq : {a b : Manager} → stopped a ≡ stopped b → a ≡ b
stopped_eq h = cc

module _ (cid : String) where
  -- Every node of the list is terminal when its own state is read, while others work in between.
  abbrev pub read_terminal : Poll → List Node → Manager → Bool
  read_terminal p [] m = true
  read_terminal p (n ∷ ns) m =
      let m1 = p.before_state n.hostname m in
      let rest = read_terminal p ns m1 in terminal (state_of cid n.hostname m1) && rest

  -- What the others alone leave in that time.
  abbrev pub others_do : Poll → List Node → Manager → Manager
  others_do p [] m = m
  others_do p (n ∷ ns) m = others_do p ns (p.before_state n.hostname m)

  idle-step :
      (b : Bool) (p : Poll) (master : String) (n : Node) (ns : List Node) (m : Manager)
      → ((look_at cid b p false master n m).0
          && (poll_nodes cid p false master ns (look_at cid b p false master n m).1).0)
        ≡ true
      → (b ≡ true)
        × ((look_at cid b p false master n m).1 ≡ m)
        × ((poll_nodes cid p false master ns m).0 ≡ true)
  idle-step true p master n ns m h = (refl, refl, h)
  idle-step false p master n ns m h = ground arith

  -- A pass that finds every node terminal while set-ready is not awaited changes nothing itself.
  poll_nodes-idle :
      (p : Poll) (master : String) (ns : List Node) (m : Manager)
      → (poll_nodes cid p false master ns m).0 ≡ true
      → ((poll_nodes cid p false master ns m).1 ≡ others_do p ns m) × (read_terminal p ns m ≡ true)
  unfolding poll_nodes
  poll_nodes-idle p master [] m h = (refl, refl)
  poll_nodes-idle p master (n ∷ ns) m0 h =
      let m = p.before_state n.hostname m0 in
      let b = terminal (state_of cid n.hostname m) in
      let (now, same, rest) = idle-step b p master n ns m h in
      let (kept, others) = poll_nodes-idle p master ns m rest in
      (
        subst (λ x. (poll_nodes cid p false master ns x).1 ≡ others_do p ns m) (sym same) kept,
        both_true b (read_terminal p ns m) now others,
      )

  stopped-after :
      (wait : Bool) (r : Bool × Manager) (m' : Manager)
      → after_poll cid wait r ≡ stopped m'
      → (wait ≡ false) × (r.0 ≡ true) × (r.1 ≡ m')
  stopped-after false (true, m) m' h = (refl, refl, stopped_eq h)
  stopped-after false (false, m) m' h = ground arith
  stopped-after true (true, m) m' h = ground arith
  stopped-after true (false, m) m' h = ground arith

  idle-stop :
      (p : Poll) (wait : Bool) (master : String) (ns : List Node) (m m' : Manager)
      → after_poll cid wait (poll_nodes cid p wait master ns m) ≡ stopped m'
      → (wait ≡ false) × (others_do p ns m ≡ m') × (read_terminal p ns m ≡ true)
  idle-stop p true master ns m m' h =
      let (idle, found, same) = stopped-after true (poll_nodes cid p true master ns m) m' h in
      ground arith
  idle-stop p false master ns m m' h =
      let (idle, found, same) = stopped-after false (poll_nodes cid p false master ns m) m' h in
      let (kept, others) = poll_nodes-idle p master ns m found in (refl, sym kept ∙ same, others)

  -- A poll whose context has not ended stops only when the result of set-ready was not awaited at its
  -- reading, at the start of the round, and every node was terminal at the reading of its own state, later
  -- in the round; and the round that finds it changes nothing beside what others do in the meantime.
  pub poll_round-stopped :
      (ns : List Node) (p : Poll) (m m' : Manager)
      → p.ended ≡ false
      → poll_round cid ns p m ≡ stopped m'
      → (set_ready_pending cid (p.meanwhile m) ≡ false)
        × (read_terminal p ns (p.before_master (p.meanwhile m)) ≡ true)
        × (others_do p ns (p.before_master (p.meanwhile m)) ≡ m')
  unfolding poll_round
  poll_round-stopped ns p m m' live h =
      let now = p.meanwhile m in
      let then_ = p.before_master now in
      let looked =
        subst
          (λ b.
            (if b
              then stopped now
              else after_poll cid (set_ready_pending cid now)
                  (poll_nodes cid p (set_ready_pending cid now) (master_of cid then_) ns then_))
            ≡ stopped m')
          live h in
      let (idle, same, others) =
        idle-stop p (set_ready_pending cid now) (master_of cid then_) ns then_ m' looked in
      (idle, others, same)
