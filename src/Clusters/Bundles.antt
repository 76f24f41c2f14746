-- ===== src/Clusters/Bundles.antt =====
-- internal/model/preflight_bundle.go: the network that an installer sets up for a while and tests.
use Prim.Native.String.{String}
use cube_cos_driver.Base.{ℤ, List}

pub record PfLink : Type 0 where
  pub name : String
  pub kind : String
  pub members : List String
  pub parent : String
  pub vlan_id : ℤ
  pub ip : String
  pub roles : List String
  pub gateway : String

pub record PfPeer : Type 0 where
  pub hostname : String
  pub role : String
  pub ip : String

pub record PreflightBundle : Type 0 where
  pub hostname : String
  pub links : List PfLink
  pub peers : List PfPeer
