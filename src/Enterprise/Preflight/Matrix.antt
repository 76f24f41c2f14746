-- ===== src/Enterprise/Preflight/Matrix.antt =====
-- What the support matrix refuses, and what a passed check of the files says.
use Prim.Native.String.{String}
use cube_cos_driver.Base.{
  ℕ, ◌==◌, Bool, true, false, not, ◌&&◌, ◌||◌, ◌≡◌, refl, List, [], ◌∷◌, all_of, Option, none, some,
  arith, str_eq, eq_iff, Option-cases, Bool-cases, inl, inr,
}
use cube_cos_driver.Enterprise.Text.{Library, sprint}
use cube_cos_driver.Enterprise.Records.{Module, ModuleEntry, Manifest, PlannedStep}
use cube_cos_driver.Enterprise.Cluster.{Client, ok, bind-ok}
use cube_cos_driver.Enterprise.Manifests.{
  Verdict, refused, check_module, artifact_version, version_verdict, status_verdict, unlisted,
  entry, constrains, is_gated,
}
use cube_cos_driver.Enterprise.Preflight.{
  Disk, has_file, check_artifacts, check_size, check_sum, read_md5_sidecar,
}

abbrev pub is_refused : Verdict → Bool
is_refused (refused why) = true
is_refused _ = false

-- What a version of a module is refused for: it is not listed, and the install is not a lab's; or its
-- status is none of those that are let through.
abbrev pub rejects : Bool → Option ModuleEntry → Bool
rejects lab none = not lab
rejects lab (some e) =
    not
      (str_eq e.status "supported" || (str_eq e.status "deprecated" || str_eq e.status "untested"))

abbrev pub rejects_file : (String → Option ModuleEntry) → Bool → Option String → Bool
rejects_file entries lab none = true
rejects_file entries lab (some ver) = rejects lab (entries ver)

module _ (lib : Library) (find : String → String → Option String) where
  status-refused :
      (mf : Manifest) (m : Module) (ver : String) (lab : Bool) (e : ModuleEntry)
      → is_refused (status_verdict lib find mf m ver e) ≡ rejects lab (some e)
  unfolding status_verdict
  status-refused mf m ver lab e = elim (Bool-cases (str_eq e.status "blocked")) [
    | inl h ↦ rw ((eq_iff e.status "blocked").0 h) refl
    | inr h ↦ ground (arith, h)
  ]

  version-refused :
      (mf : Manifest) (m : Module) (lab : Bool) (ver : String)
      → is_refused (version_verdict lib find mf m lab ver) ≡ rejects lab (entry mf m ver)
  unfolding version_verdict
  version-refused mf m lab ver = by_entry (entry mf m ver)
    where
      by_entry :
          (o : Option ModuleEntry)
          → is_refused (elim o [
            | some e ↦ status_verdict lib find mf m ver e
            | none ↦ unlisted lib find mf m lab ver
          ])
            ≡ rejects lab o
      by_entry none = by_lab lab
        where
          by_lab : (b : Bool) → is_refused (unlisted lib find mf m b ver) ≡ not b
          by_lab true = refl
          by_lab false = refl
      by_entry (some e) = status-refused mf m ver lab e

  -- A module that a manifest constrains is refused exactly when its file names no version, when the
  -- version is not listed and the install is not a lab's, or when the version's status is not one that is
  -- let through: being a lab's install does not help a blocked version. Every other module is let in.
  pub check_module-refused :
      (mf : Manifest) (m : Module) (file : String) (lab : Bool)
      → is_refused (check_module lib find mf m file lab) ≡ (
          is_gated m
          && (constrains mf m && rejects_file (entry mf m) lab (artifact_version lib find m file)))
  unfolding check_module
  check_module-refused mf m file lab = elim (Option-cases (artifact_version lib find m file)) [
    | inl e ↦ rw e (ground arith)
    | inr (ver, e) ↦ rw e (ground (arith, version-refused mf m lab ver))
  ]

-- A staged file is not empty, and is of the sum that its sidecar names, if it has one.
abbrev pub sum_fits : Library → Option String → Option String → Bool
sum_fits lib (some want) (some got) = lib.equal_fold got want
sum_fits lib _ _ = false

module _ (lib : Library) (disk : Disk) (c : Client) where
  abbrev pub sidecar_fits : String → Option ℕ → Bool
  sidecar_fits path none = true
  sidecar_fits path (some _) =
      sum_fits lib (read_md5_sidecar lib disk c (sprint (path ∷ ".md5" ∷ []))) (disk.md5 path)

  abbrev pub size_fits : String → Option ℕ → Bool
  size_fits path none = true
  size_fits path (some n) =
      not (n == 0) && sidecar_fits path (disk.size (sprint (path ∷ ".md5" ∷ [])))

  unfoldable pub is_whole : PlannedStep → Bool
  is_whole ps = not (has_file lib disk c ps) || size_fits ps.local_path (disk.size ps.local_path)

  check_sum-fits :
      (name path : String) (n : ℕ) (s t : c.S) (out : List String)
      → check_sum lib disk c name path n s ≡ (out, ok tt, t)
      → sidecar_fits path (disk.size (sprint (path ∷ ".md5" ∷ []))) ≡ true
  unfolding check_sum
  check_sum-fits name path n s t out h = ground arith

  check_size-fits :
      (ps : PlannedStep) (name : String) (o : Option ℕ) (s t : c.S) (out : List String)
      → check_size lib disk c ps name o s ≡ (out, ok tt, t)
      → size_fits ps.local_path o ≡ true
  unfolding check_size
  check_size-fits ps name none s t out h = refl
  check_size-fits ps name (some n) s t out h =
      ground (arith, check_sum-fits name ps.local_path n s t out)

  -- When the check of a plan's files passes, each file that is staged for it is not empty and, if it has
  -- a sidecar, is of the sum that the sidecar names.
  pub check_artifacts-whole :
      (plan : List PlannedStep) (s t : c.S) (out : List String)
      → check_artifacts lib disk c plan s ≡ (out, ok tt, t)
      → all_of is_whole plan ≡ true
  unfolding check_artifacts is_whole
  check_artifacts-whole [] s t out h = refl
  check_artifacts-whole (ps ∷ plan) s t out h = elim (Bool-cases (has_file lib disk c ps)) [
    | inl e ↦
        (let (u, v, o1, o2, h1, h2) =
            bind-ok
              (check_size lib disk c ps (lib.base_name ps.local_path) (disk.size ps.local_path))
              (λ _. check_artifacts lib disk c plan) s t out tt (ground arith) in
          ground (
            arith,
            check_artifacts-whole plan v t o2 h2,
            check_size-fits ps _ (disk.size ps.local_path) s v o1 h1,
          ))
    | inr e ↦ ground (arith, check_artifacts-whole plan s t out)
  ]
