-- ===== src/Storage/Saved.antt =====
-- What a Save leaves of its own cluster and of the others.
use Prim.Native.String.{String}
use cube_cos_driver.Base.{
  Bool, true, false, ◌&&◌, &&-true, all_of, subst, arith, eq_iff, Bool-cases, inl, inr, ◌≡◌, refl,
  ◌∙◌, List, [], ◌∷◌, Option, none, some, str_eq, Map,
}
use cube_cos_driver.Base.Maps.{lookup, insert, remove, lookup-insert, lookup-remove}
use cube_cos_driver.Clusters.{NodeConfig, ClusterDetail}
use cube_cos_driver.Clusters.Validate.{validate}
use cube_cos_driver.Generator.Render.{ControlInfo, get_control_info}
use cube_cos_driver.Generator.Snapshot.{Built, value, error, build_cluster_zip}
use cube_cos_driver.Storage.{
  Setting, ClusterDir, Disk, pop_fault, attempt, and_then, short_id, snapshots_of, write_each,
  add_snapshot, hosts, hosts_in, detail_at, wrote_aside, drop_plain, drop_export, exported,
  drop_stale, export_each, export, swap, write_aside, put_archive, put_snapshots, if_valid, save,
}

abbrev pub are_plain : Setting → Map String → Bool
are_plain w m = all_of (λ kv. w.is_plain kv.0) m

pub value_eq : {A : Type 0} {a b : A} → value a ≡ value b → a ≡ b
value_eq e = cc

-- The names that a Save uses in paths: of its own hosts, and of those of the description it replaces.
abbrev pub uses_plain : Setting → ClusterDetail → Disk → Bool
uses_plain w d s =
    all_of w.is_plain (hosts d.node_data)
    && all_of w.is_plain (hosts_in (detail_at w (lookup (short_id w d) s.dirs)))

plain_hosts :
    (w : Setting) (d : ClusterDetail) (s : Disk)
    → uses_plain w d s ≡ true
    → (all_of w.is_plain (hosts d.node_data) ≡ true)
      × (all_of w.is_plain (hosts_in (detail_at w (lookup (short_id w d) s.dirs))) ≡ true)
plain_hosts w d s plain =
    &&-true (all_of w.is_plain (hosts d.node_data))
      (all_of w.is_plain (hosts_in (detail_at w (lookup (short_id w d) s.dirs)))) plain

-- A property of disks that an operation keeps, whatever it ends with, if its parts keep it.
module _ (P : Disk → Type 0) where
  and_then-keeps :
      (r : Option String × Disk) (next : Disk → Option String × Disk)
      → P r.1
      → ((t : Disk) → P t → P (next t).1)
      → P (and_then r next).1
  and_then-keeps (none, s) next h k = k s h
  and_then-keeps (some why, s) next h k = h

  -- The list of faults is no part of what is kept.
  module _
      (faults_free : (t : Disk) (fs : List (Option String))
        → P t
        → P (record t { faults = fs })) where
    pop_fault-keeps : (fs : List (Option String)) (t : Disk) → P t → P (pop_fault fs t).1
    pop_fault-keeps [] t h = h
    pop_fault-keeps (f ∷ fs) t h = faults_free t fs h

    attempt-keeps : (t : Disk) → P t → P (attempt t).1
    unfolding attempt
    attempt-keeps t h = pop_fault-keeps t.faults t h

    module _ (w : Setting) where
      wrote_aside-keeps :
          (h bytes : String) (t : Disk) → w.is_plain h ≡ true → P t → P (wrote_aside w h bytes t)
      wrote_aside-keeps h bytes t plain k = rw plain k

      write_each-keeps :
          (xs : Map String) (t : Disk) → are_plain w xs ≡ true → P t → P (write_each w xs t).1
      unfolding write_each
      write_each-keeps [] t plain k = k
      write_each-keeps ((h, bytes) ∷ xs) t plain k =
          let (one, rest) = &&-true _ _ plain in
          and_then-keeps (attempt t) _ (attempt-keeps t k) (λ t1 k1.
            write_each-keeps xs (wrote_aside w h bytes t1) rest
              (wrote_aside-keeps h bytes t1 one k1))

      pub write_aside-keeps :
          (xs : Map String) (t : Disk) → are_plain w xs ≡ true → P t → P (write_aside w xs t).1
      unfolding write_aside
      write_aside-keeps xs t plain k = and_then-keeps (attempt t) _ (attempt-keeps t k) (λ t1 k1.
          and_then-keeps (attempt t1) _ (attempt-keeps t1 k1)
            (λ t2 k2. write_each-keeps xs t2 plain k2))

    -- Nor are the exports.
    module _ (exports_free : (t : Disk) (es : Map String) → P t → P (record t { exports = es }))
        (w : Setting) where
      exported-keeps :
          (h bytes : String) (t : Disk) → w.is_plain h ≡ true → P t → P (exported w h bytes t)
      exported-keeps h bytes t plain k = rw plain (exports_free t (insert h bytes t.exports) k)

      export_each-keeps :
          (xs : Map String) (t : Disk) → are_plain w xs ≡ true → P t → P (export_each w xs t).1
      unfolding export_each
      export_each-keeps [] t plain k = k
      export_each-keeps ((h, bytes) ∷ xs) t plain k =
          let (one, rest) = &&-true _ _ plain in
          and_then-keeps (attempt t) _ (attempt-keeps t k) (λ t1 k1.
            export_each-keeps xs (exported w h bytes t1) rest (exported-keeps h bytes t1 one k1))

      drop_plain-keeps : (b : Bool) (h : String) (t : Disk) → P t → P (drop_plain b h t)
      drop_plain-keeps true h t k = k
      drop_plain-keeps false h t k = exports_free t (remove h t.exports) k

      drop_stale-keeps :
          (xs : Map String) (hs : List String) (t : Disk)
          → all_of w.is_plain hs ≡ true
          → P t
          → P (drop_stale w xs hs t)
      unfolding drop_stale
      drop_stale-keeps xs [] t plain k = k
      drop_stale-keeps xs (h ∷ hs) t plain k =
          let (one, rest) = &&-true _ _ plain in
          drop_stale-keeps xs hs _ rest (dropped (lookup h xs) h t one k)
        where
          dropped :
              (o : Option String) (h : String) (t : Disk)
              → w.is_plain h ≡ true
              → P t
              → P (elim o [ none ↦ drop_export w h t | some bytes ↦ t ])
          dropped none h t plain k = rw plain (drop_plain-keeps (w.stays h) h t k)
          dropped (some bytes) h t plain k = k

      pub export-keeps :
          (stale : List String) (xs : Map String) (t : Disk)
          → all_of w.is_plain stale ≡ true
          → are_plain w xs ≡ true
          → P t
          → P (export w stale xs t).1
      unfolding export
      export-keeps stale xs t gone plain k = elim (Bool-cases w.exports_on) [
        | inl on ↦
            rw (on, export) (export_each-keeps xs _ plain (drop_stale-keeps xs stale t gone k))
        | inr off ↦ rw (off, export) k
      ]

insert-are_plain :
    (w : Setting) (h bytes : String) (xs : Map String)
    → w.is_plain h ≡ true
    → are_plain w xs ≡ true
    → are_plain w (insert h bytes xs) ≡ true
unfolding insert
insert-are_plain w h bytes [] one rest = ground arith
insert-are_plain w h bytes ((k, v) ∷ xs) one rest =
    ground (arith, insert-are_plain w h bytes xs, eq_iff k h)

added-are_plain :
    (w : Setting) (h : String) (b : Built String) (r : Built (Map String)) (m : Map String)
    → w.is_plain h ≡ true
    → ((m' : Map String) → r ≡ value m' → are_plain w m' ≡ true)
    → add_snapshot h b r ≡ value m
    → are_plain w m ≡ true
added-are_plain w h (error why) r m one rest e = absurd (ground arith)
added-are_plain w h (value bytes) (error why) m one rest e = absurd (ground arith)
added-are_plain w h (value bytes) (value m') m one rest e = go (lookup h m') e
  where
    go :
        (o : Option String)
        → value (elim o [ none ↦ insert h bytes m' | some later ↦ m' ]) ≡ value m
        → are_plain w m ≡ true
    go none k =
        subst (λ x. are_plain w x ≡ true) (value_eq k)
          (insert-are_plain w h bytes m' one (rest m' refl))
    go (some later) k = subst (λ x. are_plain w x ≡ true) (value_eq k) (rest m' refl)

-- The snapshots stand under the names of the hosts.
pub snapshots_of-are_plain :
    (w : Setting) (d : ClusterDetail) (ctl : ControlInfo) (ns : List NodeConfig) (m : Map String)
    → all_of w.is_plain (hosts ns) ≡ true
    → snapshots_of w d ctl ns ≡ value m
    → are_plain w m ≡ true
unfolding snapshots_of
snapshots_of-are_plain w d ctl [] m plain e = subst (λ x. are_plain w x ≡ true) (value_eq e) refl
snapshots_of-are_plain w d ctl (n ∷ ns) m plain e =
    let (one, rest) = &&-true _ _ plain in
    added-are_plain w n.hostname _ (snapshots_of w d ctl ns) m one
      (λ m' e'. snapshots_of-are_plain w d ctl ns m' rest e') e

-- Another cluster's folder and archive.
module _ (s : Disk) (id other : String) (apart : str_eq id other ≡ false) where
  abbrev Kept : Disk → Type 0
  Kept t = (lookup other t.dirs ≡ lookup other s.dirs) × (lookup other t.zips ≡ lookup other s.zips)

  swap-keeps : (zip : String) (dir : ClusterDir) (t : Disk) → Kept t → Kept (swap id zip dir t).1
  unfolding swap
  swap-keeps zip dir t h =
      and_then-keeps Kept (attempt t) _ (attempt-keeps Kept (λ u fs k. k) t h) (λ t1 h1.
        and_then-keeps Kept (attempt (record t1 { zips = insert id zip t1.zips })) _
          (attempt-keeps Kept (λ u fs k. k) (record t1 { zips = insert id zip t1.zips })
            (h1.0, lookup-insert id other zip t1.zips ∙ rw apart h1.1))
          (λ t2 h2.
            and_then-keeps Kept (attempt (record t2 { dirs = remove id t2.dirs })) _
              (attempt-keeps Kept (λ u fs k. k) (record t2 { dirs = remove id t2.dirs })
                (lookup-remove id other t2.dirs ∙ rw apart h2.0, h2.1))
              (λ t3 h3. (lookup-insert id other dir t3.dirs ∙ rw apart h3.0, h3.1))))

-- Where the names of the hosts, of the description and of the one that it replaces, are names inside a
-- folder: whatever a Save ends with, another cluster's folder and archive are as they were.
pub save-others :
    (w : Setting) (d : ClusterDetail) (s : Disk) (other : String)
    → str_eq (short_id w d) other ≡ false
    → uses_plain w d s ≡ true
    → (lookup other (save w d s).1.dirs ≡ lookup other s.dirs)
      × (lookup other (save w d s).1.zips ≡ lookup other s.zips)
unfolding save
save-others w d s other apart plain = valid (validate w.quote w.byte_length w.parse_ip w.nets d)
  where
    id : String
    id = short_id w d

    keeps : Disk → Type 0
    keeps = Kept s id other apart

    stale : List String
    stale = hosts_in (detail_at w (lookup id s.dirs))

    own : all_of w.is_plain (hosts d.node_data) ≡ true
    own = (plain_hosts w d s plain).0

    old : all_of w.is_plain stale ≡ true
    old = (plain_hosts w d s plain).1

    archived :
        (m : Map String) (b : Built String) → are_plain w m ≡ true → keeps (put_archive w d m b s).1
    archived m (error why) named = (refl, refl)
    archived m (value zip) named =
        and_then-keeps keeps (write_aside w m s) _
          (write_aside-keeps keeps (λ u fs k. k) w m s named (refl, refl))
          (λ t h.
            and_then-keeps keeps (swap id zip _ t) _ (swap-keeps s id other apart zip _ t h)
              (λ t1 h1. export-keeps keeps (λ u fs k. k) (λ u es k. k) w stale m t1 old named h1))

    snapped :
        (b : Built (Map String))
        → snapshots_of w d (get_control_info d.node_data) d.node_data ≡ b
        → keeps (put_snapshots w d b s).1
    snapped (error why) e = (refl, refl)
    snapped (value m) e =
        archived m (build_cluster_zip w.archiver id (w.json d) m)
          (snapshots_of-are_plain w d (get_control_info d.node_data) d.node_data m own e)

    valid :
        (v : Option String)
        → keeps
            (if_valid v
              (put_snapshots w d (snapshots_of w d (get_control_info d.node_data) d.node_data) s)
              s).1
    valid none = snapped (snapshots_of w d (get_control_info d.node_data) d.node_data) refl
    valid (some why) = (refl, refl)
