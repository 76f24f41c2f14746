-- ===== src/Enterprise/Manifests.antt =====
-- internal/enterprise/manifest.go, matrixversion.go and gate.go: the manifest that matches a cluster, and
-- what its support matrix allows. Go's regular expressions are the parameter `find`, which gives the
-- first group of a match.
pub mod Nearest
use Prim.Native.String.{String}
use cube_cos_driver.Base.{
  ℕ, ℤ, pos, negsuc, ◌+◌, ◌-◌, ltb, Bool, true, false, not, ◌&&◌, ◌||◌, List, [], ◌∷◌, ◌++◌, map,
  any_of, Option, none, some, str_eq, if◌then◌else◌, Map,
}
use cube_cos_driver.Base.Maps.{lookup, insert}
use cube_cos_driver.Enterprise.Text.{Library, sprint}
use cube_cos_driver.Enterprise.Records.{
  Module, appfw, cmp, advisor, unknown_module, module_name, ModuleEntry, Manifest,
}

-- `absDiff`. A stamp has no sign in its text, so it is not negative and nothing overflows.
unfoldable pub abs_diff : ℤ → ℤ → ℕ
abs_diff (pos a) (pos b) = if ltb b a then a - b else b - a
abs_diff (negsuc a) (negsuc b) = if ltb b a then a - b else b - a
abs_diff (pos a) (negsuc b) = a + b + 1
abs_diff (negsuc a) (pos b) = a + b + 1

-- `ManifestNames` and `FindManifest`.
abbrev pub manifest_names : List Manifest → List String
manifest_names = map (λ m. m.name)

unfoldable pub find_manifest : List Manifest → String → Option Manifest
find_manifest [] name = none
find_manifest (m ∷ ms) name = if str_eq m.name name then some m else find_manifest ms name

-- The first loop of `mergeManifests`, and the second, which passes over an override of a lower schema.
unfoldable pub add_all : List Manifest → Map Manifest → Map Manifest
add_all [] by_name = by_name
add_all (m ∷ ms) by_name = add_all ms (insert m.name m by_name)

abbrev pub is_lower : Manifest → Option Manifest → Bool
is_lower m none = false
is_lower m (some b) = ltb m.schema b.schema

unfoldable pub override_all : List Manifest → Map Manifest → Map Manifest
override_all [] by_name = by_name
override_all (m ∷ ms) by_name =
    override_all ms
      (if is_lower m (lookup m.name by_name) then by_name else insert m.name m by_name)

abbrev pub listed : Map Manifest → List String → List Manifest
listed by_name [] = []
listed by_name (n ∷ ns) = elim (lookup n by_name) [
  | none ↦ listed by_name ns
  | some m ↦ m ∷ listed by_name ns
]

module _ (lib : Library) where
  -- `mergeManifests`.
  unfoldable pub merge_manifests : List Manifest → List Manifest → List Manifest
  unfolding add_all override_all
  merge_manifests base override =
      let by_name = override_all override (add_all base []) in
      listed by_name (lib.sort (map (λ kv. kv.0) by_name))

  -- `ParseVersion`: the version, the build and the commit.
  unfoldable pub parse_version : String → String × String × String
  parse_version etc = elim (lib.split (lib.trim_prefix (lib.trim_space etc) "CUBE_") "_") [
    | [] ↦ ("", "", "")
    | (v ∷ []) ↦ (v, "", "")
    | (v ∷ b ∷ []) ↦ (v, b, "")
    | (v ∷ b ∷ c ∷ rest) ↦ (v, b, c)
  ]

  -- `buildStamp`.
  unfoldable pub build_stamp : String → ℤ
  build_stamp b = lib.int_value (lib.without b "-")

  unfoldable pub distance : String → Manifest → ℕ
  unfolding build_stamp abs_diff
  distance build m = abs_diff (build_stamp build) (build_stamp m.build)

  -- The nearest of the manifests after the best so far.
  unfoldable pub nearest : String → Manifest → List Manifest → Manifest
  unfolding distance
  nearest build best [] = best
  nearest build best (m ∷ ms) =
      nearest build (if ltb (distance build m) (distance build best) then m else best) ms

  unfoldable pub choose : String → List Manifest → Option Manifest
  unfolding nearest
  choose build [] = none
  choose build (m ∷ ms) = some (nearest build m ms)

  abbrev pub is_exact : String → Manifest → Bool
  is_exact commit m = not (str_eq commit "") && str_eq m.commit commit

  unfoldable pub scan : String → String → String → List Manifest → List Manifest → Option Manifest
  unfolding choose
  scan version build commit same [] = choose build same
  scan version build commit same (m ∷ ms) =
      if not (str_eq m.version version)
      then scan version build commit same ms
      else if is_exact commit m
      then some m
      else scan version build commit (same ++ m ∷ []) ms

  -- `MatchManifest`.
  unfoldable pub match_manifest : List Manifest → String → String → String → Option Manifest
  unfolding scan
  match_manifest ms version build commit = scan version build commit [] ms

-- `Constrains` and `Entry`.
abbrev pub entries_of : Manifest → Module → List ModuleEntry
entries_of mf m = elim (lookup (module_name m) mf.modules) [ none ↦ [] | some es ↦ es ]

unfoldable pub constrains : Manifest → Module → Bool
constrains mf m = elim (entries_of mf m) [ [] ↦ false | (_ ∷ _) ↦ true ]

unfoldable pub find_version : List ModuleEntry → String → Option ModuleEntry
find_version [] version = none
find_version (e ∷ es) version = if str_eq e.version version then some e else find_version es version

unfoldable pub entry : Manifest → Module → String → Option ModuleEntry
unfolding find_version
entry mf m version = find_version (entries_of mf m) version

-- What is found out about a module: nothing to say, a warning, or a refusal.
pub data Verdict : Type 0 where
  allowed : Verdict
  warned : String → Verdict
  refused : String → Verdict

abbrev pub is_gated : Module → Bool
is_gated cmp = true
is_gated advisor = true
is_gated _ = false

module _ (lib : Library) (find : String → String → Option String) where
  -- `ArtifactVersion`.
  unfoldable pub artifact_version : Module → String → Option String
  artifact_version cmp file = find "^cube-portal-(\\d+\\.\\d+\\.\\d+)(?:[+-][^/]*)?\\.pigz$" file
  artifact_version advisor file =
      find "^cube-advisor-(\\d+\\.\\d+\\.\\d+)(?:[+-][^/]*)?\\.pigz$" file
  artifact_version _ file = none

  unfoldable pub status_verdict : Manifest → Module → String → ModuleEntry → Verdict
  status_verdict mf m ver e =
      let about : String = sprint (module_name m ∷ " " ∷ ver ∷ []) in
      if str_eq e.status "blocked"
      then refused
          (sprint (about ∷ " is blocked on " ∷ mf.name ∷ ": " ∷ e.reason ∷ " " ∷ e.link ∷ []))
      else if str_eq e.status "deprecated" || str_eq e.status "untested"
      then warned (
          sprint (
            about
            ∷ " is "
            ∷ e.status
            ∷ " on "
            ∷ mf.name
            ∷ (if str_eq e.reason "" then "" else sprint (": " ∷ e.reason ∷ []))
            ∷ []))
      else if str_eq e.status "supported"
      then allowed
      else refused
          (sprint (about ∷ " has unknown status " ∷ lib.quote e.status ∷ " in " ∷ mf.name ∷ []))

  abbrev pub unlisted : Manifest → Module → Bool → String → Verdict
  unlisted mf m lab ver =
      let msg : String =
        sprint (module_name m ∷ " " ∷ ver ∷ " is not in the " ∷ mf.name ∷ " support matrix" ∷ []) in
      if lab
      then warned (sprint (msg ∷ " (lab install, continuing)" ∷ []))
      else refused (sprint (msg ∷ " (tick Lab install to override)" ∷ []))

  unfoldable pub version_verdict : Manifest → Module → Bool → String → Verdict
  unfolding entry status_verdict
  version_verdict mf m lab ver = elim (entry mf m ver) [
    | some e ↦ status_verdict mf m ver e
    | none ↦ unlisted mf m lab ver
  ]

  -- `CheckModule`.
  unfoldable pub check_module : Manifest → Module → String → Bool → Verdict
  unfolding constrains artifact_version version_verdict
  check_module mf m file lab =
      if not (is_gated m) || not (constrains mf m)
      then allowed
      else elim (artifact_version m file) [
        | none ↦
            refused
              (sprint ("can't read a " ∷ module_name m ∷ " version from " ∷ lib.quote file ∷ []))
        | some ver ↦ version_verdict mf m lab ver
      ]
