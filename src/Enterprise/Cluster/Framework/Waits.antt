-- ===== src/Enterprise/Cluster/Framework/Waits.antt =====
-- The waiting for a framework ends: enough fuel is given.
use Prim.Native.String.{String}
use cube_cos_driver.Base.{
  ◌&&◌, not, ℕ, zero, suc, ◌+◌, ◌-◌, ◌*◌, ◌≤◌, leb, Bool, true, false, ◌≡◌, ◌≢◌, refl, List, Option,
  none, arith, if◌then◌else◌,
}
use cube_cos_driver.Enterprise.Text.{Library}
use cube_cos_driver.Enterprise.Records.{PlannedStep}
use cube_cos_driver.Enterprise.Cluster.{Client, Error, Result, ok, failed, Action, ◌>>=◌, follow}
use cube_cos_driver.Enterprise.Cluster.Probe.{registry_probe, ensure_amphora_tag}
use cube_cos_driver.Enterprise.Cluster.Progress.{framework_progress}
use cube_cos_driver.Enterprise.Cluster.Framework.{
  is_found, appctl_last_error, framework_status, now, after_answer, verify_round,
  verify_framework_registry,
}
use cube_cos_driver.Enterprise.Cluster.Framework.Poll.{
  not_registered, not_ready, keep_waiting, verified, wait_on, entered, after_look, poll, make,
  after_first_look, run_framework,
}
use cube_cos_driver.Enterprise.Cluster.Framework.Clock.{
  Clock, Later, appctl_last_error-Later, framework_status-Later, framework_progress-Later,
  registry_probe-Later,
}

module _ (c : Client) {B : Type 0} where
  follow-returns :
      {A : Type 0} (f : A → Action c.S (Option B)) (s : c.S) (p : List String × Result A × c.S)
      → c.now s ≤ c.now p.2
      → ((a : A) (t : c.S) → c.now s ≤ c.now t → (f a t).1 ≢ ok none)
      → (follow p f).1 ≢ ok none
  follow-returns f s (out, failed e, t) l h = ground arith
  follow-returns f s (out, ok a, t) l h = h a t l

  failed-returns : (e : Error) → ◌≢◌ {A = Result (Option B)} (failed e) (ok none)
  failed-returns e h = cc

  bind-returns :
      {A : Type 0} (f : A → Action c.S (Option B)) (p : List String × Result A × c.S)
      → ((a : A) (t : c.S) → (f a t).1 ≢ ok none)
      → (follow p f).1 ≢ ok none
  bind-returns f (out, failed e, t) h = ground arith
  bind-returns f (out, ok a, t) h = h a t

  if-returns :
      (b : Bool) (m n : Action c.S (Option B)) (s : c.S)
      → (m s).1 ≢ ok none
      → (b ≡ false → (n s).1 ≢ ok none)
      → ((if b then m else n) s).1 ≢ ok none
  if-returns true m n s h k = h
  if-returns false m n s h k = k refl

module _ (lib : Library) (c : Client) (clock : Clock c) where
  after_answer-returns :
      (name lbip code : String) (elapsed : ℕ) (again : Action c.S (Option (Unit {0}))) (s : c.S)
      → (leb 300 elapsed ≡ false → (c.pause 15 s).0 ≡ none → (again (c.pause 15 s).1).1 ≢ ok none)
      → (after_answer lib c name lbip code elapsed again s).1 ≢ ok none
  unfolding after_answer
  after_answer-returns name lbip code elapsed again s h = ground arith

  answered-returns :
      (name lbip : String) (start : ℕ) (again : Action c.S (Option (Unit {0}))) (s : c.S)
      → ((t : c.S)
          → c.now s ≤ c.now t
          → leb 300 (c.now t - start) ≡ false
          → (c.pause 15 t).0 ≡ none
          → (again (c.pause 15 t).1).1 ≢ ok none)
      → (p : List String × Result String × c.S) → c.now s ≤ c.now p.2
      → (follow p
          (λ code. now lib c >>= λ t. after_answer lib c name lbip code (t - start) again)).1
        ≢ ok none
  answered-returns name lbip start again s h (out, failed e, t) l = ground arith
  answered-returns name lbip start again s h (out, ok code, t) l =
      after_answer-returns name lbip code (c.now t - start) again t (h t l)

  -- With a round for each interval of the time that is left, and one more, the probing of a registry
  -- does not run out of rounds.
  pub verify_round-returns :
      (name lbip : String) (start f : ℕ) (s : c.S)
      → start ≤ c.now s
      → 300 ≤ (c.now s - start) + 15 * f
      → (verify_round lib c name lbip start (suc f) s).1 ≢ ok none
  unfolding verify_round Later
  verify_round-returns name lbip start zero s b h =
      answered-returns name lbip start _ s (λ t l slow _. ground arith)
        (registry_probe lib c name lbip s) (registry_probe-Later lib c clock name lbip s)
  verify_round-returns name lbip start (suc f) s b h =
      answered-returns name lbip start _ s
        (λ t l slow waited.
          verify_round-returns name lbip start f (c.pause 15 t).1
            (ground (arith, clock.pause_time 15 t)) (ground (arith, clock.pause_time 15 t)))
        (registry_probe lib c name lbip s) (registry_probe-Later lib c clock name lbip s)

  verified-returns :
      (f : ℕ) (name lbip : String) (skipped : Bool) (s : c.S)
      → 300 ≤ 15 * f
      → (verified lib c (suc f) name lbip skipped s).1 ≢ ok none
  unfolding verified verify_framework_registry
  verified-returns f name lbip skipped s h =
      ground (arith, verify_round-returns name lbip (c.now s) f s)

  not_registered-returns :
      (name last : String) (t : c.S) → (not_registered lib c name last t).1 ≢ ok none
  unfolding not_registered
  not_registered-returns name last t h = cc

  keep_waiting-returns :
      (name : String) (st : Option String) (elapsed : ℕ) (again : Action c.S (Option Bool))
      → (progress : String) (t : c.S)
      → (leb 3600 elapsed ≡ false → (c.pause 30 t).0 ≡ none → (again (c.pause 30 t).1).1 ≢ ok none)
      → (keep_waiting lib c name st elapsed again progress t).1 ≢ ok none
  unfolding keep_waiting not_ready
  keep_waiting-returns name st elapsed again progress t h = ground arith

  wait_on-returns :
      (name lbip : String) (just ever : Bool) (st : Option String) (elapsed : ℕ)
      → (again : Action c.S (Option Bool)) (s : c.S)
      → ((t : c.S)
          → c.now s ≤ c.now t
          → leb 3600 elapsed ≡ false
          → (c.pause 30 t).0 ≡ none
          → (again (c.pause 30 t).1).1 ≢ ok none)
      → (wait_on lib c name lbip just ever st elapsed again s).1 ≢ ok none
  unfolding wait_on Later
  wait_on-returns name lbip just ever st elapsed again s h =
      if-returns c (just && not ever && leb 120 elapsed) _ _ s
        (follow-returns c (not_registered lib c name) s (appctl_last_error lib c s)
          (appctl_last_error-Later lib c clock s) (λ last t _. not_registered-returns name last t))
        (λ _.
          follow-returns c (keep_waiting lib c name st elapsed again) s
            (framework_progress lib c name lbip s)
            (framework_progress-Later lib c clock name lbip s)
            (λ progress t l. keep_waiting-returns name st elapsed again progress t (h t l)))

  after_look-returns :
      (g : ℕ) (name lbip : String) (start : ℕ) (just ever : Bool) (again : Action c.S (Option Bool))
      → (st : Option String) (s : c.S) → 300 ≤ 15 * g
      → ((t : c.S)
          → c.now s ≤ c.now t
          → leb 3600 (c.now s - start) ≡ false
          → (c.pause 30 t).0 ≡ none
          → (again (c.pause 30 t).1).1 ≢ ok none)
      → (after_look lib c (suc g) name lbip start just ever again st s).1 ≢ ok none
  unfolding after_look entered
  after_look-returns g name lbip start just ever again st s i h = ground (
    arith,
    verified-returns g name lbip false s i,
    wait_on-returns name lbip just ever st (c.now s - start) again s h,
  )

  -- With a round for each interval of an hour, and one more, the polling of a framework does not run out
  -- of rounds.
  pub poll-returns :
      (g : ℕ) (name lbip : String) (start : ℕ) (just : Bool) (f : ℕ) (ever : Bool) (s : c.S)
      → 300 ≤ 15 * g
      → start ≤ c.now s
      → 3600 ≤ (c.now s - start) + 30 * f
      → (poll lib c (suc g) name lbip start just (suc f) ever s).1 ≢ ok none
  unfolding poll Later
  poll-returns g name lbip start just zero ever s i b h =
      follow-returns c _ s (framework_status lib c name s)
        (framework_status-Later lib c clock name s)
        (λ st t l.
          after_look-returns g name lbip start just _ _ st t i (λ u l' soon _. ground arith))
  poll-returns g name lbip start just (suc f) ever s i b h =
      follow-returns c _ s (framework_status lib c name s)
        (framework_status-Later lib c clock name s)
        (λ st t l. after_look-returns g name lbip start just _ _ st t i (λ u l' soon waited.
          poll-returns g name lbip start just f _ (c.pause 30 u).1 i
            (ground (arith, clock.pause_time 30 u)) (ground (arith, clock.pause_time 30 u))))

  make-returns :
      (g f : ℕ) (ps : PlannedStep) (st : Option String) (s : c.S)
      → 300 ≤ 15 * g
      → 3600 ≤ 30 * f
      → (make lib c (suc g) (suc f) ps st s).1 ≢ ok none
  unfolding make
  make-returns g f ps st s i j = bind-returns c _ _ (λ _ t.
      poll-returns g ps.framework ps.lb_ip (c.now t) (not (is_found st)) f (is_found st) t i
        (omega arith) (omega arith))

  after_first_look-returns :
      (g f : ℕ) (ps : PlannedStep) (st : Option String) (s : c.S)
      → 300 ≤ 15 * g
      → 3600 ≤ 30 * f
      → (after_first_look lib c (suc g) (suc f) ps st s).1 ≢ ok none
  unfolding after_first_look
  after_first_look-returns g f ps st s i j =
      ground
        (arith, verified-returns g ps.framework ps.lb_ip true s i, make-returns g f ps st s i j)

  -- A framework's step ends in its result or in an error of its own, never for want of rounds: when the
  -- clock does not run backwards and a wait takes its time, 21 rounds for a registry and 121 for a
  -- framework are enough.
  pub run_framework-returns :
      (g f : ℕ) (ps : PlannedStep) (s : c.S)
      → 300 ≤ 15 * g
      → 3600 ≤ 30 * f
      → (run_framework lib c (suc g) (suc f) ps s).1 ≢ ok none
  unfolding run_framework
  run_framework-returns g f ps s i j =
      bind-returns c
        (λ _. framework_status lib c ps.framework >>= after_first_look lib c (suc g) (suc f) ps)
        (ensure_amphora_tag lib c s)
        (λ _ t.
          bind-returns c (after_first_look lib c (suc g) (suc f) ps)
            (framework_status lib c ps.framework t)
            (λ st u. after_first_look-returns g f ps st u i j))
