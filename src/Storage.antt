-- ===== src/Storage.antt =====
-- internal/storage/store.go: the clusters on the disk, their archives and the copies for export. A cluster's
-- folder is the text of its description, and its snapshots; a file that cannot be read is left out. A
-- temporary folder is built aside, so that only its errors are seen, and what a host name that is a path
-- reaches.
pub mod Saved
pub mod Detailed
mod Tests
use Prim.Native.String.{String}
use cube_cos_driver.Base.{
  ℕ, ltb, Bool, true, false, not, ◌||◌, List, [], ◌∷◌, map, Option, none, some, str_eq,
  if◌then◌else◌, Map,
}
use cube_cos_driver.Base.Maps.{lookup, insert, remove}
use cube_cos_driver.Enterprise.Text.{sprint}
use cube_cos_driver.Clusters.{NodeConfig, ClusterDetail}
use cube_cos_driver.Clusters.Networks.{Networks}
use cube_cos_driver.Clusters.Validate.{validate}
use cube_cos_driver.Generator.{Net}
use cube_cos_driver.Generator.Render.{ControlInfo, get_control_info}
use cube_cos_driver.Generator.Snapshot.{
  Archiver, Built, value, error, build_node_snapshot, build_cluster_zip,
}

-- A cluster's folder.
pub record ClusterDir : Type 0 where
  pub text : String
  pub snapshots : Map String

-- The disk: the folders by short id, the archives, the exported snapshots by host, and what the next
-- operations that may fail end with, `none` for a success.
pub record Disk : Type 0 where
  pub dirs : Map ClusterDir
  pub zips : Map String
  pub exports : Map String
  pub faults : List (Option String)

-- What Go's library says of texts and networks, the last 12 bytes of a text, the archives, the JSON text of a
-- description and what is read from such a text, and whether there is a folder for exports. A snapshot's
-- file has its host's name: `is_plain` says that this is a name inside the folder; for another name,
-- `write_outside` and `drop_outside` are what a write or a removal at that path does. The flag says that it
-- starts from the folder for exports, and not from the temporary one. `stays` and `zip_stays` say which
-- exports and archives cannot be removed.
pub record Setting : Type 0 where
  pub quote : String → String
  pub byte_length : String → ℕ
  pub parse_ip : String → Bool
  pub nets : Networks
  pub net : Net
  pub last12 : String → String
  pub archiver : Archiver
  pub json : ClusterDetail → String
  pub unmarshal : String → Built ClusterDetail
  pub is_plain : String → Bool
  pub write_outside : Bool → String → String → Disk → Disk
  pub drop_outside : String → Disk → Disk
  pub exports_on : Bool
  pub stays : String → Bool
  pub zip_stays : String → Bool

-- The next operation: its error, and the disk.
abbrev pub pop_fault : List (Option String) → Disk → Option String × Disk
pop_fault [] s = (none, s)
pop_fault (f ∷ fs) s = (f, record s { faults = fs })

unfoldable pub attempt : Disk → Option String × Disk
attempt s = pop_fault s.faults s

-- An operation, and what follows it when it succeeds.
abbrev pub and_then : Option String × Disk → (Disk → Option String × Disk) → Option String × Disk
and_then (none, s) next = next s
and_then (some why, s) next = (some why, s)

-- `ShortID`.
unfoldable pub short_id : Setting → ClusterDetail → String
short_id w d = let id = d.cluster_info.id in if ltb (w.byte_length id) 12 then id else w.last12 id

abbrev pub hosts : List NodeConfig → List String
hosts ns = map (λ n. n.hostname) ns

-- The snapshots of all nodes.
abbrev pub add_snapshot : String → Built String → Built (Map String) → Built (Map String)
add_snapshot host (error why) rest = error (sprint ("node " ∷ host ∷ ": " ∷ why ∷ []))
add_snapshot host (value bytes) (error why) = error why
add_snapshot host (value bytes) (value rest) =
    value (elim (lookup host rest) [ none ↦ insert host bytes rest | some later ↦ rest ])

unfoldable pub snapshots_of :
    Setting → ClusterDetail → ControlInfo → List NodeConfig → Built (Map String)
unfolding build_node_snapshot lookup insert
snapshots_of w d ctl [] = value []
snapshots_of w d ctl (n ∷ ns) =
    add_snapshot n.hostname (build_node_snapshot w.net w.archiver n d ctl) (snapshots_of w d ctl ns)

-- One attempt for each snapshot.
abbrev pub wrote_aside : Setting → String → String → Disk → Disk
wrote_aside w h bytes s = if w.is_plain h then s else w.write_outside false h bytes s

unfoldable pub write_each : Setting → Map String → Disk → Option String × Disk
unfolding attempt
write_each w [] s = (none, s)
write_each w ((h, bytes) ∷ rest) s =
    and_then (attempt s) (λ s1. write_each w rest (wrote_aside w h bytes s1))

-- The exports: those of hosts that are gone are removed, and each snapshot is written.
abbrev pub drop_plain : Bool → String → Disk → Disk
drop_plain true h s = s
drop_plain false h s = record s { exports = remove h s.exports }

abbrev pub drop_export : Setting → String → Disk → Disk
drop_export w h s = if w.is_plain h then drop_plain (w.stays h) h s else w.drop_outside h s

unfoldable pub drop_stale : Setting → Map String → List String → Disk → Disk
unfolding lookup remove
drop_stale w snapshots [] s = s
drop_stale w snapshots (h ∷ hs) s =
    drop_stale w snapshots hs
      (elim (lookup h snapshots) [ none ↦ drop_export w h s | some bytes ↦ s ])

abbrev pub exported : Setting → String → String → Disk → Disk
exported w h bytes s =
    if w.is_plain h
    then record s { exports = insert h bytes s.exports }
    else w.write_outside true h bytes s

unfoldable pub export_each : Setting → Map String → Disk → Option String × Disk
unfolding attempt insert
export_each w [] s = (none, s)
export_each w ((h, bytes) ∷ rest) s =
    and_then (attempt s) (λ s1. export_each w rest (exported w h bytes s1))

-- `detailAt`, `ErrNotFound` for a folder that is not there.
abbrev pub detail_at : Setting → Option ClusterDir → Built ClusterDetail
detail_at w none = error "not found"
detail_at w (some dir) = w.unmarshal dir.text

abbrev pub hosts_in : Built ClusterDetail → List String
hosts_in (error why) = []
hosts_in (value d) = hosts d.node_data

-- The end of `Save`.
unfoldable pub export : Setting → List String → Map String → Disk → Option String × Disk
unfolding drop_stale export_each
export w stale snapshots s =
    if w.exports_on then export_each w snapshots (drop_stale w snapshots stale s) else (none, s)

-- The swap: the archive, the removal of the old folder, the new one in its place.
abbrev pub put_dir : String → ClusterDir → Disk → Option String × Disk
put_dir id dir s = (none, record s { dirs = insert id dir s.dirs })

abbrev pub replace_dir : String → ClusterDir → Disk → Option String × Disk
replace_dir id dir s = and_then (attempt (record s { dirs = remove id s.dirs })) (put_dir id dir)

abbrev pub put_zip : String → String → ClusterDir → Disk → Option String × Disk
put_zip id zip dir s =
    and_then (attempt (record s { zips = insert id zip s.zips })) (replace_dir id dir)

unfoldable pub swap : String → String → ClusterDir → Disk → Option String × Disk
unfolding attempt insert remove
swap id zip dir s = and_then (attempt s) (put_zip id zip dir)

-- The temporary folder: it is made, and the description and the snapshots are written to it.
unfoldable pub write_aside : Setting → Map String → Disk → Option String × Disk
unfolding attempt write_each
write_aside w snapshots s =
    and_then (attempt s) (λ s1. and_then (attempt s1) (write_each w snapshots))

abbrev pub put_archive :
    Setting → ClusterDetail → Map String → Built String → Disk → Option String × Disk
put_archive w d snapshots (error why) s = (some why, s)
put_archive w d snapshots (value zip) s =
    let id = short_id w d in
    let stale = hosts_in (detail_at w (lookup id s.dirs)) in
    and_then (write_aside w snapshots s) (λ s1.
      and_then (swap id zip (record { text = w.json d; snapshots = snapshots }) s1)
        (export w stale snapshots))

abbrev pub put_snapshots :
    Setting → ClusterDetail → Built (Map String) → Disk → Option String × Disk
put_snapshots w d (error why) s = (some why, s)
put_snapshots w d (value snapshots) s =
    put_archive w d snapshots (build_cluster_zip w.archiver (short_id w d) (w.json d) snapshots) s

abbrev pub if_valid : Option String → Option String × Disk → Disk → Option String × Disk
if_valid none next s = next
if_valid (some why) next s = (some why, s)

-- `Save`.
unfoldable pub save : Setting → ClusterDetail → Disk → Option String × Disk
unfolding validate snapshots_of get_control_info build_cluster_zip short_id write_aside swap export
    lookup
save w d s =
    if_valid (validate w.quote w.byte_length w.parse_ip w.nets d)
      (put_snapshots w d (snapshots_of w d (get_control_info d.node_data) d.node_data) s) s

-- `Detail`.
unfoldable pub detail : Setting → String → Disk → Built ClusterDetail
unfolding lookup
detail w id s = detail_at w (lookup id s.dirs)

-- `Delete`. The removals of exports and of the archive are not asked for errors.
unfoldable pub drop_exports : Setting → List String → Disk → Disk
unfolding remove
drop_exports w [] s = s
drop_exports w (h ∷ hs) s = drop_exports w hs (drop_export w h s)

abbrev pub drop_zip : Setting → String → Disk → Disk
drop_zip w id s = if w.zip_stays id then s else record s { zips = remove id s.zips }

abbrev pub delete_dir : Setting → String → Built ClusterDetail → Disk → Option String × Disk
delete_dir w id (error why) s = (some why, s)
delete_dir w id (value d) s =
    and_then
      (attempt (drop_zip w id (if w.exports_on then drop_exports w (hosts d.node_data) s else s)))
      (λ s1. (none, record s1 { dirs = remove id s1.dirs }))

unfoldable pub delete : Setting → String → Disk → Option String × Disk
unfolding attempt drop_exports detail remove
delete w id s = delete_dir w id (detail w id s) s
