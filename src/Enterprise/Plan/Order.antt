-- ===== src/Enterprise/Plan/Order.antt =====
-- The steps of a plan come in one fixed order, whatever the parameters and the staged files.
use Prim.Native.String.{String}
use cube_cos_driver.Base.{
  Bool, true, false, ◌||◌, not, ◌≡◌, List, [], ◌∷◌, map, Option, arith, str_eq, any_of,
}
use cube_cos_driver.Enterprise.Text.{Library}
use cube_cos_driver.Enterprise.Records.{
  Module, appfw, cmp, advisor, unknown_module, is_appfw, is_cmp, is_advisor, InstallParams,
  PlannedStep, Manifest,
}
use cube_cos_driver.Enterprise.Plan.{build_plan}

-- The first list is a sublist of the second.
unfoldable pub in_order : List String → List String → Bool
in_order [] later = true
in_order (x ∷ xs) [] = false
in_order (x ∷ xs) (y ∷ ys) = elim (str_eq x y) [
  | true ↦ in_order xs ys
  | false ↦ in_order (x ∷ xs) ys
]

abbrev pub names : List PlannedStep → List String
names = map (λ s. s.name)

abbrev pub install_order : List String
install_order =
    "preflight" ∷ "airgap-apply" ∷ "update_appctl" ∷ "import_extpack" ∷ "import_fs" ∷ "import_lb"
    ∷ "import" ∷ "framework_create" ∷ "app_register" ∷ "keycloak_extensions" ∷ "install_portal"
    ∷ "advisor_register" ∷ "advisor_provider_key" ∷ "install_advisor" ∷ "complete" ∷ []

module _ (lib : Library) (exists : String → Bool) (keycloak : String) where
  -- Whatever the module, the parameters and the staged files, the steps of a plan come in the order of
  -- `install_order`, each at most once.
  pub build_plan-in_order :
      (m : Module) (p : InstallParams) (simulate : Bool) (dir : String) (mf : Option Manifest)
      → in_order (names (build_plan lib exists keycloak m p simulate dir mf)) install_order ≡ true
  unfolding build_plan in_order is_appfw is_cmp is_advisor
  build_plan-in_order appfw p simulate dir mf = ground arith
  build_plan-in_order cmp p simulate dir mf = ground arith
  build_plan-in_order advisor p simulate dir mf = ground arith
  build_plan-in_order (unknown_module s) p simulate dir mf = ground arith

  -- A plan creates a framework exactly when the module is the framework itself or an OS image is given
  -- to make one from.
  pub build_plan-framework :
      (m : Module) (p : InstallParams) (simulate : Bool) (dir : String) (mf : Option Manifest)
      → any_of
          (str_eq "framework_create")
          (names (build_plan lib exists keycloak m p simulate dir mf))
        ≡ (is_appfw m || not (str_eq p.os_image ""))
  unfolding build_plan is_appfw is_cmp is_advisor
  build_plan-framework appfw p simulate dir mf = ground arith
  build_plan-framework cmp p simulate dir mf = ground arith
  build_plan-framework advisor p simulate dir mf = ground arith
  build_plan-framework (unknown_module s) p simulate dir mf = ground arith
