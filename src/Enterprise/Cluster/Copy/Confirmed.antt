-- ===== src/Enterprise/Cluster/Copy/Confirmed.antt =====
-- What a step of the kind that succeeds has confirmed.
use Prim.Native.String.{String}
use cube_cos_driver.Base.{ℕ, Bool, true, ◌≡◌, ◌⊎◌, List, Option, none, str_eq}
use cube_cos_driver.Enterprise.Text.{Library}
use cube_cos_driver.Enterprise.Records.{PlannedStep}
use cube_cos_driver.Enterprise.Cluster.{Client, Action}
use cube_cos_driver.Enterprise.Cluster.Copy.{show_image, check_present, import_file}

-- The command ran without an error and left the cluster as it is.
unfoldable pub Passed : (c : Client) → String → c.S → Type 0
Passed c cmd s' = (t : c.S) × (out : List String) × (c.run cmd t ≡ (out, none, s'))

module _ (lib : Library) (size_of : String → Option ℕ) (c : Client) where
  -- What the last command run has confirmed, of a step that gives whether it was skipped.
  abbrev pub Confirmed : PlannedStep → Bool → c.S → Type 0
  Confirmed ps r s' =
      Passed c (show_image ps.image_name) s'
      ⊎ (Passed c ps.present s' × ((str_eq ps.image_name "" ≡ true) ⊎ (r ≡ true)))

  second : PlannedStep → Action c.S Bool
  second ps = check_present lib size_of c (lib.base_name ps.local_path) ps.present

  third : PlannedStep → Action c.S Bool
  third ps = import_file lib size_of c ps (lib.base_name ps.local_path)
