-- ===== src/Pxe/Flipper/Locked.antt =====
-- Which lock a flip and its undoing leave.
use Prim.Native.String.{String}
use cube_cos_driver.Base.{
  ℕ, ltb, ◌+◌, Bool, true, false, ◌≡◌, refl, ◌∙◌, ◌⊎◌, inl, inr, List, Option, none, some,
  Bool-cases, str_eq, ap, sym, subst, not, ◌&&◌,
}
use cube_cos_driver.Pxe.{
  Patterns, Answer, value, error, Lock, Folder, next_fault, write_outcome, write_file_atomic,
  put_text, edit_with, put_timeout, timeout_edit, with_default, with_args, set_default, set_timeout,
  set_entry_args,
}
use cube_cos_driver.Pxe.Locking.{
  lock_ttl, create_outcome, create_over, create_lock, released, release, held_by, acquire,
  acquire_lock,
}
use cube_cos_driver.Pxe.Flipper.{
  Flipper, Armed, undo, undo_default, undo_timeout, timeout_set, args_set, default_set, locked,
  recall_timeout, recall_args, recall, before_lock, after_reads, flip,
}

-- The lock, and which locks cannot be removed.
abbrev guard : Folder → Option Lock × (Lock → Bool)
guard d = (d.lock, d.stuck)

-- A write of grub.cfg leaves the lock alone.
write_outcome-guard :
    (text : String) (d : Folder) (r : Option String × List (Option String))
    → guard (write_outcome text d r).1 ≡ guard d
write_outcome-guard text d (none, fs) = refl
write_outcome-guard text d (some why, fs) = refl

write_file_atomic-guard :
    (text : String) (d : Folder) → guard (write_file_atomic text d).1 ≡ guard d
unfolding write_file_atomic
write_file_atomic-guard text d = write_outcome-guard text d (next_fault d.faults)

put_text-guard : (out : Answer String) (d : Folder) → guard (put_text out d).1 ≡ guard d
put_text-guard (error why) d = refl
put_text-guard (value out) d = write_file_atomic-guard out d

edit_with-guard :
    (g : String → Answer String) (text : Answer String) (d : Folder)
    → guard (edit_with g text d).1 ≡ guard d
edit_with-guard g (error why) d = refl
edit_with-guard g (value text) d = put_text-guard (g text) d

module _ (p : Patterns) where
  pub set_default-guard :
      (root entry : String) (d : Folder) → guard (set_default p root entry d).1 ≡ guard d
  unfolding set_default
  set_default-guard root entry d = edit_with-guard (with_default p root entry) d.grub d

  pub set_entry_args-guard :
      (entry args : String) (d : Folder) → guard (set_entry_args p entry args d).1 ≡ guard d
  unfolding set_entry_args
  set_entry_args-guard entry args d = edit_with-guard (with_args p entry args) d.grub d

  put_timeout-guard :
      (old : Option String) (out : String) (d : Folder)
      → guard (put_timeout p old out d).1 ≡ guard d
  put_timeout-guard none out d = refl
  put_timeout-guard (some old) out d = write_file_atomic-guard out d

  timeout_edit-guard :
      (v : String) (text : Answer String) (d : Folder) → guard (timeout_edit p v text d).1 ≡ guard d
  timeout_edit-guard v (error why) d = refl
  timeout_edit-guard v (value text) d = put_timeout-guard (p.timeout_value text) _ d

  pub set_timeout-guard : (v : String) (d : Folder) → guard (set_timeout p v d).1 ≡ guard d
  unfolding set_timeout
  set_timeout-guard v d = timeout_edit-guard v d.grub d

-- A lock that may be taken: none is there, or one that is older than the TTL.
unfoldable pub may_take : Option Lock → ℕ → Bool
may_take none now = true
may_take (some old) now = ltb (old.since + lock_ttl) now

-- What taking the lock leaves.
abbrev Taken : Lock → Folder → Option String × Folder → Type 0
Taken l d (none, d') = (guard d' ≡ (some l, d.stuck)) × (may_take d.lock l.since ≡ true)
Taken l d (some why, d') = (d' ≡ d) ⊎ ((d'.lock ≡ none) × (may_take d.lock l.since ≡ true))

create_outcome-Taken :
    (wrap : String → String) (l : Lock) (d : Folder) (r : Option String × List (Option String))
    → d.lock ≡ none
    → Taken l d (create_outcome wrap l d r)
unfolding may_take
create_outcome-Taken wrap l d (none, fs) h = (refl, rw h refl)
create_outcome-Taken wrap l d (some why, fs) h = inr (h, rw h refl)

-- A lock that was stolen is the new one, or gone.
create_outcome-stolen :
    (wrap : String → String) (l : Lock) (d : Folder) (r : Option String × List (Option String))
    → may_take d.lock l.since ≡ true
    → Taken l d (create_outcome wrap l (record d { lock = none }) r)
create_outcome-stolen wrap l d (none, fs) h = (refl, h)
create_outcome-stolen wrap l d (some why, fs) h = inr (refl, h)

-- Behind the removal of a lock that is stale.
released-Taken :
    (wrap : String → String) (old l : Lock) (d : Folder)
    → d.lock ≡ some old
    → may_take d.lock l.since ≡ true
    → Taken l d (create_lock wrap l (released (some old) d))
unfolding create_lock
released-Taken wrap old l d at free = elim (Bool-cases (d.stuck old)) [
  | inl stays ↦ rw stays (subst (λ o. Taken l d (create_over o wrap l d)) (sym at) (inl refl))
  | inr goes ↦ rw goes (create_outcome-stolen wrap l d (next_fault d.faults) free)
]

steal-Taken :
    (wrap : String → String) (old l : Lock) (d : Folder)
    → d.lock ≡ some old
    → may_take d.lock l.since ≡ true
    → Taken l d (create_lock wrap l (release d))
unfolding release
steal-Taken wrap old l d at free =
    subst (λ o. Taken l d (create_lock wrap l (released o d))) (sym at)
      (released-Taken wrap old l d at free)

held_by-Taken : (old l : Lock) (d : Folder) → d.lock ≡ some old → Taken l d (held_by old l d)
unfolding held_by may_take
held_by-Taken old l d h = elim (Bool-cases (ltb (old.since + lock_ttl) l.since)) [
  | inl e ↦ rw e (steal-Taken _ old l d h (rw h e))
  | inr e ↦ rw e (inl refl)
]

acquire-Taken : (o : Option Lock) (l : Lock) (d : Folder) → d.lock ≡ o → Taken l d (acquire o l d)
unfolding create_lock
acquire-Taken none l d h =
    subst (λ o. Taken l d (create_over o (λ why. why) l d)) (sym h)
      (create_outcome-Taken (λ why. why) l d (next_fault d.faults) h)
acquire-Taken (some old) l d h = held_by-Taken old l d h

-- The lock is gone, or cannot be removed.
abbrev IsReleased : Lock → (Lock → Bool) → Folder → Type 0
IsReleased l stuck d = (d.lock ≡ none) ⊎ ((d.lock ≡ some l) × (stuck l ≡ true))

released-IsReleased :
    (l : Lock) (d : Folder) → d.lock ≡ some l → IsReleased l d.stuck (released (some l) d)
released-IsReleased l d at = elim (Bool-cases (d.stuck l)) [
  | inl stays ↦ rw stays (inr (at, refl))
  | inr goes ↦ rw goes (inl refl)
]

release-IsReleased :
    (l : Lock) (stuck : Lock → Bool) (d : Folder)
    → guard d ≡ (some l, stuck)
    → IsReleased l stuck (release d)
unfolding release
release-IsReleased l stuck d h =
    let at : d.lock ≡ some l = ap (λ x. x.0) h in
    subst (λ g. IsReleased l g (released d.lock d)) (ap (λ x. x.1) h)
      (subst (λ o. IsReleased l d.stuck (released o d)) (sym at) (released-IsReleased l d at))

module _ (f : Flipper) where
  undo_default-guard : (u : Armed) (d : Folder) → guard (undo_default f u d) ≡ guard d
  undo_default-guard u d = elim (Bool-cases (str_eq u.target u.prev_default)) [
    | inl e ↦ rw e refl
    | inr e ↦ rw e (set_default-guard f.patterns f.root u.prev_default d)
  ]

  undo_timeout-guard : (u : Armed) (d : Folder) → guard (undo_timeout f u d) ≡ guard d
  undo_timeout-guard u d =
      elim (Bool-cases (not (str_eq u.prev_timeout "") && not (str_eq u.prev_timeout "0"))) [
        | inl e ↦ rw e (set_timeout-guard f.patterns u.prev_timeout d)
        | inr e ↦ rw e refl
      ]

  undo-guard : (u : Armed) (d : Folder) → guard (undo f u d) ≡ guard d
  unfolding undo
  undo-guard u d =
      undo_timeout-guard u ((set_entry_args f.patterns u.target u.prev_args (undo_default f u d)).1)
      ∙ (set_entry_args-guard f.patterns u.target u.prev_args (undo_default f u d)
          ∙ undo_default-guard u d)

  -- What the flip leaves: the lock, new and taken where it may be; or the folder as it was, or no lock, or
  -- the new lock when that cannot be removed.
  abbrev pub Flipped : Lock → Folder → Answer Armed × Folder → Type 0
  Flipped l d (value u, d') =
      (d'.lock ≡ some l) × ((u.once ≡ false) × (may_take d.lock l.since ≡ true))
  Flipped l d (error why, d') =
      (d' ≡ d)
      ⊎ (((d'.lock ≡ none) ⊎ ((d'.lock ≡ some l) × (d.stuck l ≡ true)))
          × (may_take d.lock l.since ≡ true))

  module _ (l : Lock) (d : Folder) (free : may_take d.lock l.since ≡ true) where
    timeout_set-Flipped :
        (u : Armed) (r : Option String × Folder)
        → u.once ≡ false
        → guard r.1 ≡ (some l, d.stuck)
        → Flipped l d (timeout_set f u r)
    timeout_set-Flipped u (none, d') fresh h = (ap (λ x. x.0) h, (fresh, free))
    timeout_set-Flipped u (some why, d') fresh h =
        inr (release-IsReleased l d.stuck (undo f u d') (undo-guard u d' ∙ h), free)

    args_set-Flipped :
        (u : Armed) (r : Option String × Folder)
        → u.once ≡ false
        → guard r.1 ≡ (some l, d.stuck)
        → Flipped l d (args_set f u r)
    args_set-Flipped u (none, d') fresh h =
        timeout_set-Flipped u _ fresh (set_timeout-guard f.patterns "0" d' ∙ h)
    args_set-Flipped u (some why, d') fresh h =
        inr (release-IsReleased l d.stuck (undo f u d') (undo-guard u d' ∙ h), free)

    default_set-Flipped :
        (u : Armed) (arm_args : String) (r : Option String × Folder)
        → u.once ≡ false
        → guard r.1 ≡ (some l, d.stuck)
        → Flipped l d (default_set f u arm_args r)
    default_set-Flipped u arm_args (none, d') fresh h =
        args_set-Flipped u _ fresh (set_entry_args-guard f.patterns u.target arm_args d' ∙ h)
    default_set-Flipped u arm_args (some why, d') fresh h =
        inr (release-IsReleased l d.stuck d' h, free)

  locked-Flipped :
      (l : Lock) (d : Folder) (u : Armed) (arm_args : String) (r : Option String × Folder)
      → u.once ≡ false
      → Taken l d r
      → Flipped l d (locked f u arm_args r)
  locked-Flipped l d u arm_args (some why, d') fresh (inl same) = inl same
  locked-Flipped l d u arm_args (some why, d') fresh (inr (gone, free)) = inr (inl gone, free)
  locked-Flipped l d u arm_args (none, d') fresh (h, free) =
      elim (Bool-cases (str_eq u.target u.prev_default)) [
        | inl e ↦ rw e (default_set-Flipped l d free u arm_args (none, d') fresh h)
        | inr e ↦ rw e (
            default_set-Flipped l d free u arm_args _ fresh
              (set_default-guard f.patterns f.root u.target d' ∙ h))
      ]

  abbrev Fresh : Answer Armed → Type 0
  Fresh (error why) = Unit
  Fresh (value u) = u.once ≡ false

  recall_timeout-Fresh :
      (prev target args : String) (r : Answer String) → Fresh (recall_timeout f prev target args r)
  recall_timeout-Fresh prev target args (error why) = tt
  recall_timeout-Fresh prev target args (value timeout) = refl

  recall_args-Fresh :
      (d : Folder) (prev target : String) (r : Answer String)
      → Fresh (recall_args f d prev target r)
  recall_args-Fresh d prev target (error why) = tt
  recall_args-Fresh d prev target (value args) = recall_timeout-Fresh prev target args _

  recall-Fresh : (d : Folder) (image : String) (r : Answer String) → Fresh (recall f d image r)
  recall-Fresh d image (error why) = tt
  recall-Fresh d image (value prev) = recall_args-Fresh d prev _ _

  after_reads-Flipped :
      (r : Answer Armed) (arm_args : String) (now : ℕ) (d : Folder)
      → Fresh r
      → Flipped (record { holder = f.holder; since = now }) d (after_reads f r arm_args now d)
  unfolding acquire_lock
  after_reads-Flipped (error why) arm_args now d fresh = inl refl
  after_reads-Flipped (value u) arm_args now d fresh =
      locked-Flipped _ d u arm_args _ fresh (acquire-Taken d.lock _ d refl)

  -- With no other driver at the folder meanwhile: a flip that succeeds leaves a lock of its own driver and
  -- time, which it took where there was none or one older than the TTL, and a restore that has not run; one
  -- that fails leaves the folder as it was, or has taken the lock in the same way and left none, unless its
  -- own lock is one that cannot be removed, which then stays.
  pub flip-Flipped :
      (image arm_args : String) (now : ℕ) (d : Folder)
      → Flipped (record { holder = f.holder; since = now }) d (flip f image arm_args now d)
  unfolding flip before_lock
  flip-Flipped image arm_args now d =
      after_reads-Flipped (before_lock f image d) arm_args now d (recall-Fresh d image _)
