-- ===== src/Generator/Snapshot.antt =====
-- internal/generator/snapshot.go: the archive that a node is restored from and the archive of a cluster.
use Prim.Native.String.{String}
use cube_cos_driver.Base.{[], ◌∷◌, Option, none, some, Map}
use cube_cos_driver.Base.Maps.{lookup}
use cube_cos_driver.Enterprise.Text.{sprint}
use cube_cos_driver.Clusters.{NodeConfig, ClusterDetail}
use cube_cos_driver.Generator.{Net}
use cube_cos_driver.Generator.Validate.{validate_node_network}
use cube_cos_driver.Generator.Render.{ControlInfo, render_cubesys, render_network, render_time}

-- A value, or the text of an error.
pub data Built (A : Type 0) : Type 0 where
  value : A → Built A
  error : String → Built A

-- What is not the package's own: the names and contents of the embedded tree in the order of their names,
-- the text of the time, the order of the map's keys by `sort.Strings`, and the zip writer.
pub record Archiver : Type 0 where
  pub template : Map String
  pub now : String
  pub sorted : Map String → Map String
  pub zip : Map String → Built String

-- The files that are rendered for a node.
unfoldable pub rendered : Archiver → NodeConfig → ClusterDetail → ControlInfo → Map String
unfolding render_cubesys render_network render_time
rendered a n d ctl =
    ("Comment", sprint ("Generated for " ∷ d.cluster_info.name ∷ " on " ∷ a.now ∷ "\n" ∷ []))
    ∷ ("etc/policies/cubesys/cubesys1_0.yml", render_cubesys n d.cluster_config ctl)
    ∷ ("etc/policies/network/network1_0.yml", render_network n d.cluster_config)
    ∷ ("etc/policies/time/time1_0.yml", render_time d.cluster_config)
    ∷ []

abbrev pub content_or : String → Option String → String
content_or old none = old
content_or old (some new) = new

-- The tree with the rendered files in their places.
unfoldable pub with_rendered : Map String → Map String → Map String
unfolding lookup
with_rendered new [] = []
with_rendered new ((path, old) ∷ rest) =
    (path, content_or old (lookup path new)) ∷ with_rendered new rest

-- `BuildNodeSnapshot`.
abbrev pub snapshot_unless : Option String → Built String → Built String
snapshot_unless none b = b
snapshot_unless (some why) b = error why

unfoldable pub build_node_snapshot :
    Net → Archiver → NodeConfig → ClusterDetail → ControlInfo → Built String
unfolding validate_node_network rendered with_rendered
build_node_snapshot net a n d ctl =
    snapshot_unless (validate_node_network net n)
      (a.zip (with_rendered (rendered a n d ctl) a.template))

-- `BuildClusterZip`.
abbrev pub under : String → Map String → Map String
under short_id [] = []
under short_id ((host, bytes) ∷ rest) =
    (sprint (short_id ∷ "/" ∷ host ∷ ".snapshot" ∷ []), bytes) ∷ under short_id rest

unfoldable pub build_cluster_zip : Archiver → String → String → Map String → Built String
build_cluster_zip a short_id detail_json snapshots = a.zip (
    (sprint (short_id ∷ "/clusterDetail.json" ∷ []), detail_json)
    ∷ under short_id (a.sorted snapshots))
