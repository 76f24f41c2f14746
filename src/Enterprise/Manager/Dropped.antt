-- ===== src/Enterprise/Manager/Dropped.antt =====
-- What goes with a framework that is removed, and what a restart finds going on.
use Prim.Native.String.{String}
use cube_cos_driver.Base.{
  ℕ, suc, ◌<◌, ◌==◌, Bool, true, false, ◌≡◌, ◌⊎◌, ◌∙◌, refl, sym, subst, List, [], ◌∷◌, none, some,
  arith, str_eq, eq_iff, if◌then◌else◌, Map, Bool-cases, inl, inr,
}
use cube_cos_driver.Base.Maps.{lookup, lookup-remove, lookup-insert-some}
use cube_cos_driver.Enterprise.Records.{is_appfw, Install}
use cube_cos_driver.Enterprise.Manager.{
  Manager, unlink, drop, drop_all, goes_with, file_name, cascade_after_uninstall, rehydrate, revive,
  revived, blank, listed, new_manager, is_running, is_done, is_install, key,
}

-- The key is not there, and the record's file is not, unless the disk refuses to remove it.
abbrev Gone : String → Install → Manager → Type 0
Gone k dep m =
    (lookup k m.installs ≡ none)
    × ((m.stuck (file_name dep.cluster_id dep.module_of) ≡ true)
        ⊎ (lookup (file_name dep.cluster_id dep.module_of) m.files ≡ none))

-- A file that is gone stays so.
unlink-none :
    (stays : Bool) (name other : String) (files : Map Install)
    → lookup other files ≡ none
    → lookup other (unlink stays name files) ≡ none
unlink-none true name other files h = h
unlink-none false name other files h = ground (arith, lookup-remove name other files)

unlink-gone :
    (stays : Bool) (name : String) (files : Map Install)
    → (stays ≡ true) ⊎ (lookup name (unlink stays name files) ≡ none)
unlink-gone true name files = inl refl
unlink-gone false name files = inr (ground (arith, lookup-remove name name files, eq_iff name name))

either-unlink :
    (b stays : Bool) (name other : String) (files : Map Install)
    → (b ≡ true) ⊎ (lookup other files ≡ none)
    → (b ≡ true) ⊎ (lookup other (unlink stays name files) ≡ none)
either-unlink b stays name other files (inl e) = inl e
either-unlink b stays name other files (inr e) = inr (unlink-none stays name other files e)

drop-Gone :
    (in_ : Install) (j : String) (q : ℕ) (k : String) (dep : Install) (m : Manager)
    → Gone k dep m
    → Gone k dep (drop in_ j q m)
unfolding drop
drop-Gone in_ j q k dep m g =
    let x = m.heap q in
    elim (Bool-cases (goes_with in_ x)) [
      | inl e ↦ rw e (
        ground (arith, lookup-remove j k m.installs),
        either-unlink (m.stuck (file_name dep.cluster_id dep.module_of))
            (m.stuck (file_name x.cluster_id x.module_of)) (file_name x.cluster_id x.module_of)
            (file_name dep.cluster_id dep.module_of) m.files g.1,
      )
      | inr e ↦ rw e g
    ]

drop_all-Gone :
    (in_ : Install) (ms : Map ℕ) (k : String) (dep : Install) (m : Manager)
    → Gone k dep m
    → Gone k dep (drop_all in_ ms m)
unfolding drop_all
drop_all-Gone in_ [] k dep m g = g
drop_all-Gone in_ ((j, q) ∷ ms) k dep m g =
    drop_all-Gone in_ ms k dep (drop in_ j q m) (drop-Gone in_ j q k dep m g)

drop-drops :
    (in_ : Install) (k : String) (r : ℕ) (m : Manager)
    → goes_with in_ (m.heap r) ≡ true
    → Gone k (m.heap r) (drop in_ k r m)
unfolding drop
drop-drops in_ k r m e =
    let x = m.heap r in
    rw e (
      ground (arith, eq_iff k k, lookup-remove k k m.installs),
      unlink-gone (m.stuck (file_name x.cluster_id x.module_of))
          (file_name x.cluster_id x.module_of) m.files,
    )

drop-stuck : (in_ : Install) (k : String) (r : ℕ) (m : Manager) → (drop in_ k r m).stuck ≡ m.stuck
unfolding drop
drop-stuck in_ k r m = elim (Bool-cases (goes_with in_ (m.heap r))) [
  | inl e ↦ rw e refl
  | inr e ↦ rw e refl
]

drop_all-stuck : (in_ : Install) (ms : Map ℕ) (m : Manager) → (drop_all in_ ms m).stuck ≡ m.stuck
unfolding drop_all
drop_all-stuck in_ [] m = refl
drop_all-stuck in_ ((k, r) ∷ ms) m = drop_all-stuck in_ ms (drop in_ k r m) ∙ drop-stuck in_ k r m

drop-heap : (in_ : Install) (k : String) (r : ℕ) (m : Manager) → (drop in_ k r m).heap ≡ m.heap
unfolding drop
drop-heap in_ k r m = elim (Bool-cases (goes_with in_ (m.heap r))) [
  | inl e ↦ rw e refl
  | inr e ↦ rw e refl
]

drop_all-drops :
    (in_ : Install) (ms : Map ℕ) (k : String) (r : ℕ) (m : Manager)
    → lookup k ms ≡ some r
    → goes_with in_ (m.heap r) ≡ true
    → Gone k (m.heap r) (drop_all in_ ms m)
unfolding drop_all lookup
drop_all-drops in_ [] k r m h e = ground arith
drop_all-drops in_ ((j, q) ∷ ms) k r m h e =
    let m' = drop in_ j q m in
    let same_heap = drop-heap in_ j q m in
    elim (Bool-cases (str_eq j k)) [
      | inl same ↦
          (let jk : j ≡ k = (eq_iff j k).0 same in
            let qr : q ≡ r = ground (arith, h) in
            drop_all-Gone in_ ms k (m.heap r) m' (
              subst (λ x. Gone k (m.heap r) (drop in_ x q m)) (sym jk)
                (subst (λ y. Gone k (m.heap r) (drop in_ k y m)) (sym qr)
                  (drop-drops in_ k r m e))))
      | inr other ↦
          subst (λ f. Gone k (f r) (drop_all in_ ms m')) same_heap
            (drop_all-drops in_ ms k r m' (ground (arith, h))
              (subst (λ f. goes_with in_ (f r) ≡ true) (sym same_heap) e))
    ]

-- When the removal of a framework is done, no install that goes with it, of another module on the same
-- cluster or host, is left in memory under its key, and none in the store unless the disk refuses to remove
-- its file.
pub cascade-drops :
    (r k_run : ℕ) (k : String) (m : Manager)
    → is_install (m.heap r).op ≡ false
    → is_done (m.heap r).state ≡ true
    → is_appfw (m.heap r).module_of ≡ true
    → lookup k m.installs ≡ some k_run
    → goes_with (m.heap r) (m.heap k_run) ≡ true
    → (lookup k (cascade_after_uninstall r m).installs ≡ none)
      × ((m.stuck (file_name (m.heap k_run).cluster_id (m.heap k_run).module_of) ≡ true)
          ⊎ (lookup
                (file_name (m.heap k_run).cluster_id (m.heap k_run).module_of)
                (cascade_after_uninstall r m).files
              ≡ none))
unfolding cascade_after_uninstall
cascade-drops r k_run k m op end fw h e =
    let in_ = m.heap r in
    let dep = m.heap k_run in
    let left = drop_all-drops in_ m.installs k k_run m h e in
    let name = file_name dep.cluster_id dep.module_of in
    rw (op, end, fw)
      (
        left.0,
        subst (λ g. (g name ≡ true) ⊎ (lookup name (drop_all in_ m.installs m).files ≡ none))
            (drop_all-stuck in_ m.installs m) left.1,
      )

-- Every install in memory is at an address that has been given out, and is not running.
unfoldable pub AllOver : Manager → Type 0
AllOver m =
    (k : String) (r : ℕ)
    → lookup k m.installs ≡ some r
    → (r < m.fresh) × (is_running (m.heap r).state ≡ false)

revived-over : (in_ : Install) → is_running (revived in_).state ≡ false
unfolding revived
revived-over in_ = elim (Bool-cases (is_running in_.state)) [
  | inl e ↦ rw e refl
  | inr e ↦ ground (arith, e)
]

module _ (writes : Install → Bool) where
  revive-AllOver : (in_ : Install) (m : Manager) → AllOver m → AllOver (revive writes in_ m)
  unfolding revive AllOver
  revive-AllOver in_ m v k r h =
      elim (lookup-insert-some (key in_.cluster_id in_.module_of) k m.fresh r m.installs h) [
        | inl e ↦
            subst
              (λ x.
                (x < suc m.fresh)
                × (is_running (if x == m.fresh then revived in_ else m.heap x).state ≡ false))
              e (omega arith, ground (arith, revived-over in_))
        | inr e ↦ (let (made, over) = v k r e in (omega (arith, made), ground (arith, made, over)))
      ]

  rehydrate-AllOver :
      (ins : List Install) (m : Manager) → AllOver m → AllOver (rehydrate writes ins m)
  unfolding rehydrate
  rehydrate-AllOver [] m v = v
  rehydrate-AllOver (in_ ∷ ins) m v = rehydrate-AllOver ins _ (revive-AllOver in_ m v)

  -- Just after a start of the driver, no install in memory is running, whatever the store holds.
  pub new_manager-over :
      (heap : ℕ → Install) (stuck : String → Bool) (files : Map Install) (sidecars : Map String)
      (k : String) (r : ℕ)
      → lookup k (new_manager writes heap stuck files sidecars).installs ≡ some r
      → is_running ((new_manager writes heap stuck files sidecars).heap r).state ≡ false
  unfolding new_manager blank AllOver lookup
  new_manager-over heap stuck files sidecars k r h =
      (rehydrate-AllOver (listed files) (blank heap stuck files sidecars) (λ j q e. ground arith) k
        r h).1
