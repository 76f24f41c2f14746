-- ===== src/Enterprise/Manager/Stops.antt =====
-- A cancel that comes while a manual step is at work.
use Prim.Native.String.{String}
use cube_cos_driver.Enterprise.Manager.{Manager}
