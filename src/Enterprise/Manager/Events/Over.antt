-- ===== src/Enterprise/Manager/Events/Over.antt =====
-- A run that is over stays over, whatever parts of the manager's calls follow in whatever order.
use Prim.Native.String.{String}
use cube_cos_driver.Base.{
  ◌&&◌, ◌||◌, ℕ, ◌<◌, ◌==◌, ==-cases, Bool, true, false, not, ◌≡◌, refl, ap, subst, ◌∙◌, List, [],
  ◌∷◌, map, Option, none, some, arith, if◌then◌else◌, Bool-cases, inl, inr,
}
use cube_cos_driver.Base.Maps.{lookup, remove}
use cube_cos_driver.Enterprise.Text.{Library}
use cube_cos_driver.Enterprise.Records.{cancelled, Install, PlannedStep}
use cube_cos_driver.Enterprise.Cluster.{Result, ok, failed}
use cube_cos_driver.Enterprise.Manager.{
  Manager, commit, terminate, cleanup, rollback, cascade_after_uninstall, is_running, key,
}
use cube_cos_driver.Enterprise.Manager.Steps.{
  begin_step, finish_step, finished, after_error, after_step,
}
use cube_cos_driver.Enterprise.Manager.Calls.{
  Request, reserve, is_taken, set_up, planned, claim, claim_found, go_on, stop_if, cancel_run,
  cancel_context, finish_next, cancel, is_set,
}
use cube_cos_driver.Enterprise.Manager.Heap.{cascade-heap, cascade-fresh, stopped}
use cube_cos_driver.Enterprise.Manager.Events.{
  Event, happen, happen_all, reserving, setting_up, rolling_back, beginning, finishing, going_on,
  finalizing, terminating, cleaning, claiming, advancing, cancelling,
}

-- The run at an address has been made, and is over.
pub record IsOver (i : ℕ) (m : Manager) : Type 0 where
  pub made : i < m.fresh
  pub over : is_running (m.heap i).state ≡ false

module _ (lib : Library) (writes : Install → Bool) (i : ℕ) where
  -- A write to a run that leaves it over if it was.
  moved-IsOver :
      (r : ℕ) (in_ : Install) {m : Manager} (m' : Manager)
      → IsOver i m
      → m'.fresh ≡ m.fresh
      → m'.heap i ≡ (if i == r then in_ else m.heap i)
      → (is_running (m.heap r).state ≡ false → is_running in_.state ≡ false)
      → IsOver i m'
  moved-IsOver r in_ {m} m' v f e h = record {
    made = ground (arith, v.made);
    over = elim (==-cases i r) [
      | inl same ↦
          ground (arith, v.over, h (subst (λ x. is_running (m.heap x).state ≡ false) same v.over))
      | inr other ↦ ground (arith, v.over)
    ];
  }

  commit-IsOver :
      (r : ℕ) (in_ : Install) {m : Manager}
      → IsOver i m
      → (is_running (m.heap r).state ≡ false → is_running in_.state ≡ false)
      → IsOver i (commit writes r in_ m)
  unfolding commit
  commit-IsOver r in_ {m} v h = moved-IsOver r in_ (commit writes r in_ m) v refl refl h

  reserve-IsOver : (q : Request) (now : ℕ) {m : Manager} → IsOver i m → IsOver i (reserve q now m).0
  unfolding reserve
  reserve-IsOver q now {m} v = elim (Bool-cases (is_taken (key q.cluster_id q.module_of) m)) [
    | inl e ↦ rw e v
    | inr e ↦ rw e (record { made = ground (arith, v.made); over = ground (arith, v.made, v.over) })
  ]

  set_up-IsOver :
      (k : String) (r : ℕ) (plan : List PlannedStep) {m : Manager}
      → IsOver i m
      → IsOver i (set_up writes k r plan m).0
  unfolding set_up rollback
  set_up-IsOver k r plan {m} v =
      elim (Bool-cases (writes (record (m.heap r) { steps = map planned plan }))) [
        | inl e ↦
            rw e (
              moved-IsOver r (record (m.heap r) { steps = map planned plan }) _ v refl refl
                (λ h. h))
        | inr e ↦
            rw e (
              moved-IsOver r (record (m.heap r) { steps = map planned plan }) _ v refl refl
                (λ h. h))
      ]

  cascade-IsOver : (r : ℕ) {m : Manager} → IsOver i m → IsOver i (cascade_after_uninstall r m)
  cascade-IsOver r {m} v = record {
    made = ground (arith, v.made, cascade-fresh r m);
    over = ap (λ x. is_running x.state) (cascade-heap r i m) ∙ v.over;
  }

  cleanup-IsOver :
      (k : String) (r : ℕ) (auto : Bool) {m : Manager} → IsOver i m → IsOver i (cleanup k r auto m)
  unfolding cleanup
  cleanup-IsOver k r auto v = record { made = v.made; over = v.over }

  finished-IsOver :
      (r idx : ℕ) (ps : PlannedStep) (out : List String) (ended : Bool) (now : ℕ) {m : Manager}
      (result : Result Bool)
      → IsOver i m
      → IsOver i (finished lib writes r idx ps out ended now m result).0
  unfolding finished after_error after_step
  finished-IsOver r idx ps out ended now (failed e) v = commit-IsOver r _ v (λ h. stopped ended)
  finished-IsOver r idx ps out ended now {m} (ok b) v =
      cascade-IsOver r (commit-IsOver r _ v (λ h. ground (arith, h)))

  terminate-IsOver :
      (r : ℕ) {m : Manager} → IsOver i m → IsOver i (terminate writes r cancelled "cancelled" m)
  unfolding terminate
  terminate-IsOver r v = commit-IsOver r _ v (λ h. refl)

  if-IsOver :
      (b : Bool) {m m' : Manager} → IsOver i m → IsOver i m' → IsOver i (if b then m else m')
  if-IsOver true v w = v
  if-IsOver false v w = w

  claim_found-IsOver :
      (k : String) (o : Option ℕ) {m : Manager} → IsOver i m → IsOver i (claim_found k m o).0
  unfolding claim_found
  claim_found-IsOver k none v = v
  claim_found-IsOver k (some r) {m} v = record {
    made = ground (arith, v.made);
    over = ground (arith, v.over);
  }

  -- A write to a run that is running, if it is made.
  live-IsOver :
      (b : Bool) (r : ℕ) (in_ : Install) {m : Manager}
      → IsOver i m
      → (b ≡ true → is_running (m.heap r).state ≡ true)
      → IsOver i (if b then commit writes r in_ m else m)
  live-IsOver true r in_ v h = commit-IsOver r in_ v (λ off. ground (arith, h refl, off))
  live-IsOver false r in_ v h = v

  go_on-IsOver :
      (r : ℕ) (plan : List PlannedStep) (stop bad : Bool) {m : Manager}
      → IsOver i m
      → IsOver i (go_on writes r plan stop bad m)
  unfolding go_on
  go_on-IsOver r plan stop bad {m} v =
      live-IsOver (not stop && not bad && is_running (m.heap r).state) r _ v (λ h. ground arith)

  finish_next-IsOver :
      (k : String) (r : ℕ) (plan : List PlannedStep) (bad : Bool) {m : Manager}
      → IsOver i m
      → IsOver i (finish_next writes k r plan bad m)
  unfolding finish_next stop_if
  finish_next-IsOver k r plan bad {m} v =
      let m1 = record m { busy = remove k m.busy; cancel_req = remove k m.cancel_req } in
      let v1 : IsOver i m1 = record { made = v.made; over = v.over } in
      let v2 = go_on-IsOver r plan (is_set k m.cancel_req) bad v1 in
      let v3 = if-IsOver (is_set k m.cancel_req) (terminate-IsOver r v2) v2 in
      let m2 = go_on writes r plan (is_set k m.cancel_req) bad m1 in
      if-IsOver (is_set k m.cancel_req || not (is_running (m2.heap r).state))
        (cleanup-IsOver k r false v3) v3

  cancel_run-IsOver :
      (k : String) (o : Option ℕ) {m : Manager} → IsOver i m → IsOver i (cancel_run writes k m o)
  unfolding cancel_run
  cancel_run-IsOver k none v = v
  cancel_run-IsOver k (some r) {m} v = if-IsOver (not (is_running (m.heap r).state)) v (
      if-IsOver (is_set k m.busy) (record { made = v.made; over = v.over })
        (cleanup-IsOver k r false (terminate-IsOver r v)))

  cancel_context-IsOver :
      (k : String) (o : Option ℕ) {m : Manager}
      → IsOver i m
      → IsOver i (cancel_context writes k m o)
  unfolding cancel_context
  cancel_context-IsOver k none {m} v = cancel_run-IsOver k (lookup k m.installs) v
  cancel_context-IsOver k (some r) v = record { made = v.made; over = v.over }

  happen-IsOver : (e : Event) {m : Manager} → IsOver i m → IsOver i (happen lib writes e m)
  unfolding happen rollback begin_step finish_step claim cancel
  happen-IsOver (reserving q now) v = reserve-IsOver q now v
  happen-IsOver (setting_up k r plan) v = set_up-IsOver k r plan v
  happen-IsOver (rolling_back k r dialed) v = record { made = v.made; over = v.over }
  happen-IsOver (beginning r idx now) v = commit-IsOver r _ v (λ h. h)
  happen-IsOver (finishing r idx ps out result ended now) v =
      finished-IsOver r idx ps out ended now _ v
  happen-IsOver (going_on r) {m} v =
      if-IsOver (is_running (m.heap r).state) (commit-IsOver r _ v (λ h. h)) v
  happen-IsOver (finalizing r) v = cascade-IsOver r (commit-IsOver r _ v (λ h. refl))
  happen-IsOver (terminating r) v = terminate-IsOver r v
  happen-IsOver (cleaning k r auto) v = cleanup-IsOver k r auto v
  happen-IsOver (claiming k) {m} v = claim_found-IsOver k (lookup k m.installs) v
  happen-IsOver (advancing k r plan bad) v = finish_next-IsOver k r plan bad v
  happen-IsOver (cancelling k) {m} v = cancel_context-IsOver k (lookup k m.cancels) v

  -- A run that is no longer running never runs again: no sequence of the parts of the manager's calls, on
  -- whatever keys and runs, brings it back.
  pub happen_all-over :
      (es : List Event) (m : Manager)
      → i < m.fresh
      → is_running (m.heap i).state ≡ false
      → is_running ((happen_all lib writes es m).heap i).state ≡ false
  unfolding happen_all
  happen_all-over [] m made over = over
  happen_all-over (e ∷ es) m made over =
      let v = happen-IsOver e (record { made = made; over = over }) in
      happen_all-over es (happen lib writes e m) v.made v.over
