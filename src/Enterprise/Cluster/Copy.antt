-- ===== src/Enterprise/Cluster/Copy.antt =====
-- internal/enterprise/manager.go: `scpRun`, the step that puts a file on the cluster and runs a command.
pub mod Confirmed
use Prim.Native.String.{String}
use cube_cos_driver.Base.{
  ℕ, ℤ, pos, negsuc, Bool, true, false, not, ◌==◌, List, [], ◌∷◌, Option, none, some, str_eq,
  if◌then◌else◌,
}
use cube_cos_driver.Enterprise.Text.{Library, sprint}
use cube_cos_driver.Enterprise.Records.{PlannedStep}
use cube_cos_driver.Enterprise.Cluster.{
  Client, Action, ◌>>=◌, ◌>>◌, give, say, refuse, shown, succeeds, pushed,
}
use cube_cos_driver.Enterprise.Cluster.Probe.{remote_file_size}

abbrev pub show_image : String → String
show_image image = sprint ("source /etc/admin-openrc.sh && openstack image show " ∷ image ∷ [])

-- A size is the remote one.
abbrev pub same_size : ℕ → ℤ → Bool
same_size n (pos k) = n == k
same_size n (negsuc k) = false

abbrev pub unless_there : {S : Type 0} → Action S Bool → Bool → Action S Bool
unless_there work true = give true
unless_there work false = work

module _ (lib : Library) (size_of : String → Option ℕ) (c : Client) where
  -- Whether the image is in glance already; a step without an image has none.
  unfoldable pub image_present : String → Action c.S Bool
  image_present image = if str_eq image "" then give false else (do
    say (sprint ("Checking if image " ∷ lib.quote image ∷ " already exists…" ∷ []))
    there ← succeeds c (show_image image)
    say (
        if there
        then sprint ("Image " ∷ lib.quote image ∷ " already exists — skipping import." ∷ [])
        else sprint ("Image " ∷ lib.quote image ∷ " not found — importing." ∷ []))
    give there)

  -- Whether the step's own check passes already.
  unfoldable pub check_present : String → String → Action c.S Bool
  check_present file check = if str_eq check "" then give false else (do
    say (sprint ("Checking whether " ∷ file ∷ " is already imported…" ∷ []))
    there ← succeeds c check
    if there
        then (do
          say (
              sprint ("Everything " ∷ file ∷ " carries is already on the cluster — skipping." ∷ []))
          give true)
        else give false)

  -- Whether a file of the size is on the cluster; without a local size it is not asked for.
  unfoldable pub staged : Option ℕ → String → Action c.S Bool
  unfolding remote_file_size
  staged none path = give false
  staged (some n) path = do size ← remote_file_size lib c path; give (same_size n size)

  -- The upload, unless a file of the same size is on the cluster.
  unfoldable pub upload : String → String → String → Action c.S (Unit {0})
  unfolding staged
  upload local file dir = do
    there ← staged (size_of local) (sprint (dir ∷ "/" ∷ file ∷ []))
    if there
        then say (sprint (file ∷ " already staged on the cluster — skipping upload." ∷ []))
        else (do say (sprint ("Uploading " ∷ file ∷ " to " ∷ dir ∷ "…" ∷ [])); pushed c local dir)

  unfoldable pub confirm_check : String → String → Action c.S (Unit {0})
  confirm_check file check = if str_eq check "" then give tt else (do
    there ← succeeds c check
    if there
        then say (sprint (file ∷ " imported and confirmed." ∷ []))
        else refuse (
            sprint (
              "import of " ∷ file
              ∷ " finished but its images are not all on the cluster (check the command output)"
              ∷ [])))

  unfoldable pub confirm_image : String → Action c.S (Unit {0})
  confirm_image image = if str_eq image "" then give tt else (do
    say (sprint ("Verifying image " ∷ lib.quote image ∷ " was created…" ∷ []))
    there ← succeeds c (show_image image)
    if there
        then say (sprint ("Image " ∷ lib.quote image ∷ " confirmed." ∷ []))
        else refuse (
            sprint (
              "import finished but image "
              ∷ lib.quote image
              ∷ " was not created (check the command output)"
              ∷ [])))

  -- The checks after the command.
  unfoldable pub confirm : PlannedStep → String → Action c.S Bool
  unfolding confirm_check confirm_image
  confirm ps file = do confirm_check file ps.present; confirm_image ps.image_name; give false

  unfoldable pub import_file : PlannedStep → String → Action c.S Bool
  unfolding upload confirm
  import_file ps file = do
    upload ps.local_path file ps.remote_path
    say (
        sprint
          ((if str_eq ps.image_name "" then "Installing" else "Importing") ∷ " " ∷ file ∷ "…" ∷ []))
    shown c ps.cmd
    confirm ps file

  -- `scpRun`, which gives whether the step was skipped.
  unfoldable pub scp_run : PlannedStep → Action c.S Bool
  unfolding image_present check_present import_file
  scp_run ps =
      image_present ps.image_name
      >>= unless_there (
          check_present (lib.base_name ps.local_path) ps.present
          >>= unless_there (import_file ps (lib.base_name ps.local_path)))
