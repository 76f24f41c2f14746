-- ===== src/Pxe/Flipper.antt =====
-- internal/pxe/flipper.go: `Flip` arms an entry of the boot menu for a deploy under the shared lock and
-- gives the call that undoes it, as they run while no other driver is at the folder. The lines that an undo prints about its own errors are left out.
pub mod Locked
use Prim.Native.String.{String}
use cube_cos_driver.Base.{
  ℕ, Bool, true, false, not, ◌&&◌, Option, none, some, str_eq, if◌then◌else◌,
}
use cube_cos_driver.Pxe.{
  Patterns, Answer, value, error, Folder, current_default, set_default, current_timeout,
  set_timeout, entry_args, set_entry_args,
}
use cube_cos_driver.Pxe.Locking.{release, acquire_lock}

-- `Flipper`, with what Go's library finds in texts.
pub record Flipper : Type 0 where
  pub patterns : Patterns
  pub root : String
  pub holder : String

-- What the closures of Flip keep, and whether the returned one has run.
pub record Armed : Type 0 where
  pub target : String
  pub prev_default : String
  pub prev_args : String
  pub prev_timeout : String
  pub once : Bool

module _ (f : Flipper) where
  -- The closure `undo`, part by part.
  abbrev pub undo_default : Armed → Folder → Folder
  undo_default u d =
      if not (str_eq u.target u.prev_default)
      then (set_default f.patterns f.root u.prev_default d).1
      else d

  abbrev pub undo_timeout : Armed → Folder → Folder
  undo_timeout u d =
      if not (str_eq u.prev_timeout "") && not (str_eq u.prev_timeout "0")
      then (set_timeout f.patterns u.prev_timeout d).1
      else d

  unfoldable pub undo : Armed → Folder → Folder
  unfolding set_default set_entry_args set_timeout
  undo u d = undo_timeout u ((set_entry_args f.patterns u.target u.prev_args (undo_default u d)).1)

  -- The closure that Flip returns.
  unfoldable pub restore : Armed → Folder → Armed × Folder
  unfolding undo release
  restore u d = if u.once then (u, d) else (record u { once = true }, release (undo u d))

  -- Flip's writes under the lock: the default, the arguments and the timeout.
  abbrev pub timeout_set : Armed → Option String × Folder → Answer Armed × Folder
  timeout_set u (some why, d) = (error why, release (undo u d))
  timeout_set u (none, d) = (value u, d)

  abbrev pub args_set : Armed → Option String × Folder → Answer Armed × Folder
  args_set u (some why, d) = (error why, release (undo u d))
  args_set u (none, d) = timeout_set u (set_timeout f.patterns "0" d)

  abbrev pub default_set : Armed → String → Option String × Folder → Answer Armed × Folder
  default_set u arm_args (some why, d) = (error why, release d)
  default_set u arm_args (none, d) = args_set u (set_entry_args f.patterns u.target arm_args d)

  abbrev pub locked : Armed → String → Option String × Folder → Answer Armed × Folder
  locked u arm_args (some why, d) = (error why, d)
  locked u arm_args (none, d) = default_set u arm_args (
      if not (str_eq u.target u.prev_default)
      then set_default f.patterns f.root u.target d
      else (none, d))

  -- What is read before the lock is taken.
  abbrev pub recall_timeout : String → String → String → Answer String → Answer Armed
  recall_timeout prev target args (error why) = error why
  recall_timeout prev target args (value timeout) = value (record {
    target = target;
    prev_default = prev;
    prev_args = args;
    prev_timeout = timeout;
    once = false;
  })

  abbrev pub recall_args : Folder → String → String → Answer String → Answer Armed
  recall_args d prev target (error why) = error why
  recall_args d prev target (value args) =
      recall_timeout prev target args (current_timeout f.patterns d)

  abbrev pub recall : Folder → String → Answer String → Answer Armed
  recall d image (error why) = error why
  recall d image (value prev) =
      let target = if str_eq image "" then prev else image in
      recall_args d prev target (entry_args f.patterns target d)

  unfoldable pub before_lock : String → Folder → Answer Armed
  unfolding current_default entry_args current_timeout
  before_lock image d = recall d image (current_default f.patterns d)

  abbrev pub after_reads : Answer Armed → String → ℕ → Folder → Answer Armed × Folder
  after_reads (error why) arm_args now d = (error why, d)
  after_reads (value u) arm_args now d = locked u arm_args (acquire_lock f.holder now d)

  unfoldable pub flip : String → String → ℕ → Folder → Answer Armed × Folder
  unfolding before_lock acquire_lock set_default set_entry_args set_timeout undo release
  flip image arm_args now d = after_reads (before_lock image d) arm_args now d
