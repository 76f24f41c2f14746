-- ===== src/Enterprise/Manager/Ended.antt =====
-- An automatic run comes to its end.
use Prim.Native.String.{String}
use cube_cos_driver.Base.{
  ℕ, zero, suc, ◌+◌, ◌≤◌, Bool, true, false, ◌≡◌, refl, ap, ◌∙◌, List, [], ◌∷◌, length, get_elem?,
  Option, none, some, arith, Bool-cases, inl, inr, ◌⊎◌,
}
use cube_cos_driver.Enterprise.Text.{Library}
use cube_cos_driver.Enterprise.Records.{cancelled, Install, PlannedStep}
use cube_cos_driver.Enterprise.Cluster.{Client, Error, Result, Action}
use cube_cos_driver.Enterprise.Manager.{Manager, terminate, cleanup, is_running}
use cube_cos_driver.Enterprise.Manager.Steps.{begin_step, finish_step, finished, checked, output_at}
use cube_cos_driver.Enterprise.Manager.Runner.{
  is_error, has_ended, after_work, after_exec, round, exec_step, finalize, loop, released, run_all,
}
use cube_cos_driver.Enterprise.Manager.Heap.{
  commit-heap_same, cascade-heap, cleanup-heap, begin_step-current, finished-current,
  finished-failed,
}

get_elem?-length :
    {A : Type 0} (xs : List A) (i : ℕ) (x : A) → get_elem? xs i ≡ some x → suc i ≤ length xs
get_elem?-length [] i x h = ground arith
get_elem?-length (y ∷ ys) zero x h = omega arith
get_elem?-length (y ∷ ys) (suc i) x h = omega (arith, get_elem?-length ys i x h)

module _ (lib : Library) (writes : Install → Bool) (c : Client)
    (work : Install → List PlannedStep → PlannedStep → Action c.S Bool) where
  -- A step leaves its run in its place, and not running when it failed.
  After : ℕ → Manager → (Manager × c.S) × Option Error → Type 0
  After r m v =
      ((v.0.0.heap r).current ≡ (m.heap r).current)
      × ((is_error v.1 ≡ false) ⊎ (is_running (v.0.0.heap r).state ≡ false))

  after_work-After :
      (r idx : ℕ) (ps : PlannedStep) (auto : Bool) (m : Manager)
      (p : List String × Result Bool × c.S)
      → After r m (after_work lib writes c work r idx ps auto m p)
  unfolding After after_work finish_step
  after_work-After r idx ps auto m (out, result, t) =
      let ended = has_ended auto (c.cancelled t) in
      let r' = checked ps.kind (output_at lib idx out (m.heap r).steps) result in
      let stopped = finished-failed lib writes r idx ps out ended (c.now t) m r' in
      (
        finished-current lib writes r idx ps out ended (c.now t) m r',
        elim (Bool-cases (is_error (finished lib writes r idx ps out ended (c.now t) m r').1)) [
          | inl e ↦ inr (stopped e)
          | inr e ↦ inl e
        ],
      )

  exec_step-After :
      (r : ℕ) (plan : List PlannedStep) (idx : ℕ) (ps : PlannedStep) (auto : Bool) (m : Manager)
      (s : c.S)
      → After r m (exec_step lib writes c work r plan idx ps auto (m, s))
  unfolding exec_step After
  exec_step-After r plan idx ps auto m s =
      let m1 = begin_step lib writes r idx (c.now s) m in
      let (same, end) = after_work-After r idx ps auto m1 (work (m1.heap r) plan ps s) in
      (same ∙ begin_step-current lib writes r idx (c.now s) m, end)

  -- The run has ended.
  Ended : ℕ → Option (Manager × c.S) → Type 0
  Ended r w = (v : Manager × c.S) × (w ≡ some v) × (is_running (v.0.heap r).state ≡ false)

  terminate-Ended :
      (r : ℕ) (m : Manager)
      → is_running ((terminate writes r cancelled "cancelled" m).heap r).state ≡ false
  unfolding terminate
  terminate-Ended r m = ap (λ x. is_running x.state) (commit-heap_same writes r _ m)

  finalize-Ended :
      (r : ℕ) (m : Manager) → is_running ((finalize lib writes c work r m).heap r).state ≡ false
  unfolding finalize
  finalize-Ended r m =
      ap (λ x. is_running x.state) (cascade-heap r r _ ∙ commit-heap_same writes r _ m)

  after_exec-Ended :
      (r : ℕ) (again : Manager × c.S → Option (Manager × c.S)) (m : Manager)
      (v : (Manager × c.S) × Option Error)
      → After r m v
      → ((m' : Manager) (t : c.S)
          → (m'.heap r).current ≡ suc (m.heap r).current
          → Ended r (again (m', t)))
      → Ended r (after_exec lib writes c work r again v)
  unfolding after_exec After Ended
  after_exec-Ended r again m (w, some e) (same, end) h = (w, refl, ground arith)
  after_exec-Ended r again m ((m', t), none) (same, end) h =
      elim (Bool-cases (is_running (m'.heap r).state)) [
        | inl on ↦
            rw on (h _ t (ap (λ x. x.current) (commit-heap_same writes r _ m') ∙ ap suc same))
        | inr off ↦ rw off ((m', t), refl, off)
      ]

  round-Ended :
      (r : ℕ) (plan : List PlannedStep) (again : Manager × c.S → Option (Manager × c.S))
      (m : Manager) (s : c.S)
      → (o : Option PlannedStep) → get_elem? plan (m.heap r).current ≡ o
      → (suc (m.heap r).current ≤ length plan
          → (m' : Manager) (t : c.S) → (m'.heap r).current ≡ suc (m.heap r).current
          → Ended r (again (m', t)))
      → Ended r (round lib writes c work r plan again m s o)
  unfolding round Ended
  round-Ended r plan again m s none e h =
      ((finalize lib writes c work r m, s), refl, finalize-Ended r m)
  round-Ended r plan again m s (some ps) e h =
      after_exec-Ended r again m _ (exec_step-After r plan _ ps true m s)
        (h (get_elem?-length plan _ ps e))

  from_context :
      (r : ℕ) (o : Option Error) (m : Manager) (s : c.S) (next : Option (Manager × c.S))
      → Ended r next
      → Ended r
          (elim o [ some _ ↦ some (terminate writes r cancelled "cancelled" m, s) | none ↦ next ])
  unfolding Ended
  from_context r none m s next h = h
  from_context r (some e) m s next h =
      ((terminate writes r cancelled "cancelled" m, s), refl, terminate-Ended r m)

  loop-Ended :
      (r : ℕ) (plan : List PlannedStep) (f : ℕ) (m : Manager) (s : c.S)
      → length plan ≤ (m.heap r).current + f
      → Ended r (loop lib writes c work (suc f) r plan (m, s))
  unfolding loop
  loop-Ended r plan zero m s b = from_context r (c.cancelled s) m s _ (
      round-Ended r plan (loop lib writes c work zero r plan) m s _ refl
        (λ l m' t e. absurd (omega (arith, b, l))))
  loop-Ended r plan (suc f) m s b = from_context r (c.cancelled s) m s _ (
      round-Ended r plan (loop lib writes c work (suc f) r plan) m s _ refl
        (λ l m' t e. loop-Ended r plan f m' t (omega arith)))

  -- With one round more than the plan has steps, an automatic run ends, whatever its steps do on the
  -- cluster and whenever it is cancelled; its install is then no longer running.
  pub run_all-ends :
      (k : String) (r : ℕ) (plan : List PlannedStep) (m : Manager) (s : c.S)
      → (v : Manager × c.S) × (run_all lib writes c work (suc (length plan)) k r plan (m, s)
          ≡ some v)
        × (is_running (v.0.heap r).state ≡ false)
  unfolding run_all Ended
  run_all-ends k r plan m s =
      let ((m', t), e, off) = loop-Ended r plan (length plan) m s (omega arith) in
      (
        (cleanup k r true m', t),
        ap (released lib writes c work k r) e,
        ap (λ x. is_running x.state) (cleanup-heap k r r true m') ∙ off,
      )
