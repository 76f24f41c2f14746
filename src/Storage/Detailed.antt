-- ===== src/Storage/Detailed.antt =====
-- What a Save that succeeds leaves of its cluster.
use Prim.Native.String.{String}
use cube_cos_driver.Base.{◌≡◌, some}
use cube_cos_driver.Base.Maps.{lookup}
use cube_cos_driver.Storage.{ClusterDir, Disk}

module _ (id : String) (dir : ClusterDir) where
  abbrev Holds : Disk → Type 0
  Holds t = lookup id t.dirs ≡ some dir
