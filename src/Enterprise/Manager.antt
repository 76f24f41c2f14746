-- ===== src/Enterprise/Manager.antt =====
-- internal/enterprise/manager.go and store.go: the state of the manager of installations, and the parts
-- of its operations that run under its lock. An install is shared by its address in `heap`, as the
-- program shares it by pointer; `stuck` says which files of the store the disk refuses to remove; a run's context and its connection go by the run's address.
pub mod Steps
pub mod Calls
pub mod Runner
pub mod Heap
pub mod Ended
pub mod Events
pub mod Dropped
pub mod Stops
use Prim.Native.String.{String}
use cube_cos_driver.Base.{
  ℕ, suc, ◌==◌, Bool, true, false, not, ◌&&◌, ◌||◌, List, [], ◌∷◌, map, contains, Option, none,
  some, str_eq, if◌then◌else◌, Map,
}
use cube_cos_driver.Base.Maps.{lookup, insert, remove}
use cube_cos_driver.Enterprise.Text.{sprint}
use cube_cos_driver.Enterprise.Records.{
  Module, module_name, is_appfw, StepState, active, error, RunState, running, done, cancelled, Op,
  install, uninstall, InstallParams, Step, Install, PlannedStep,
}

pub record Manager : Type 0 where
  pub heap : ℕ → Install
  pub fresh : ℕ
  pub installs : Map ℕ
  pub cancels : Map ℕ
  pub clients : Map ℕ
  pub plans : Map (List PlannedStep)
  pub busy : Map Bool
  pub cancel_req : Map Bool
  pub ended : List ℕ
  pub closed : List ℕ
  pub removed : List String
  pub stuck : String → Bool
  pub files : Map Install
  pub sidecars : Map String

-- `key`, and the names of a record's file and of its password's.
abbrev pub key : String → Module → String
key cid m = sprint (cid ∷ "/" ∷ module_name m ∷ [])

abbrev pub file_name : String → Module → String
file_name cid m = sprint (cid ∷ "-" ∷ module_name m ∷ ".json" ∷ [])

abbrev pub sidecar_name : String → Module → String
sidecar_name cid m = sprint (cid ∷ "-" ∷ module_name m ∷ ".pw" ∷ [])

abbrev pub is_running : RunState → Bool
is_running running = true
is_running _ = false

abbrev pub is_done : RunState → Bool
is_done done = true
is_done _ = false

abbrev pub is_active : StepState → Bool
is_active active = true
is_active _ = false

abbrev pub is_install : Op → Bool
is_install install = true
is_install uninstall = false

-- Writes through a pointer.
abbrev pub put : ℕ → Install → Manager → Manager
put r in_ m = record m { heap = λ i. if i == r then in_ else m.heap i }

-- What a file keeps of a run: not the file of the provider's key.
abbrev pub stored : Install → Install
stored in_ = record in_ { params = record in_.params { advisor_provider_key_file = "" } }

-- `Store.Save`; whether the write succeeds is asked of the disk.
unfoldable pub save : (Install → Bool) → Install → Map Install → Map Install
save writes in_ files =
    if writes in_ then insert (file_name in_.cluster_id in_.module_of) (stored in_) files else files

-- A file is removed, unless the disk refuses to.
abbrev pub unlink {ℓ} : {A : Type ℓ} → Bool → String → Map A → Map A
unlink stays name files = if stays then files else remove name files

-- `Store.Delete` of a record, with its password; both removals are tried, and the callers that are modelled
-- do not ask for its error.
abbrev pub delete : String → Module → Manager → Manager
delete cid mod_ m = record m {
  files = unlink (m.stuck (file_name cid mod_)) (file_name cid mod_) m.files;
  sidecars = unlink (m.stuck (sidecar_name cid mod_)) (sidecar_name cid mod_) m.sidecars;
}

-- Flags the active steps.
abbrev pub flag : String → Step → Step
flag why s = if is_active s.state then record s { state = error; err = why } else s

module _ (writes : Install → Bool) where
  -- Writes the install and saves it.
  unfoldable pub commit : ℕ → Install → Manager → Manager
  unfolding save
  commit r in_ m = record (put r in_ m) { files = save writes in_ m.files }

  -- `terminate`.
  unfoldable pub terminate : ℕ → RunState → String → Manager → Manager
  unfolding commit
  terminate r state why m =
      let in_ = m.heap r in
      commit r (record in_ { state = state; steps = map (flag why) in_.steps }) m

-- The key holds this run.
abbrev pub holds : String → ℕ → Manager → Bool
holds k r m = elim (lookup k m.installs) [ none ↦ false | some q ↦ q == r ]

-- `cleanup`; `auto` says that the run has a context to end.
unfoldable pub cleanup : String → ℕ → Bool → Manager → Manager
cleanup k r auto m =
    let ended = if auto then r ∷ m.ended else m.ended in
    let file : String = (m.heap r).params.advisor_provider_key_file in
    let removed = if str_eq file "" then m.removed else file ∷ m.removed in
    let owner = holds k r m in
    record m {
      ended = ended;
      removed = removed;
      closed = r ∷ m.closed;
      cancels = if owner then remove k m.cancels else m.cancels;
      clients = if owner then remove k m.clients else m.clients;
      plans = if owner then remove k m.plans else m.plans;
      busy = if owner then remove k m.busy else m.busy;
      cancel_req = if owner then remove k m.cancel_req else m.cancel_req;
    }

-- `rollback`; whether there is a connection to close.
unfoldable pub rollback : String → ℕ → Bool → Manager → Manager
rollback k r dialed m =
    let owner = holds k r m in
    record m {
      installs = if owner then remove k m.installs else m.installs;
      clients = if owner then remove k m.clients else m.clients;
      plans = if owner then remove k m.plans else m.plans;
      closed = if dialed then r ∷ m.closed else m.closed;
    }

-- A record that goes with the framework: of another module, on the same cluster or host.
abbrev pub goes_with : Install → Install → Bool
goes_with in_ dep =
    not (is_appfw dep.module_of)
    && (str_eq dep.cluster_id in_.cluster_id
        || not (str_eq in_.host "") && str_eq dep.host in_.host)

unfoldable pub drop : Install → String → ℕ → Manager → Manager
drop in_ k r m =
    let dep = m.heap r in
    if goes_with in_ dep
    then delete dep.cluster_id dep.module_of (record m { installs = remove k m.installs })
    else m

unfoldable pub drop_all : Install → Map ℕ → Manager → Manager
unfolding drop
drop_all in_ [] m = m
drop_all in_ ((k, r) ∷ rest) m = drop_all in_ rest (drop in_ k r m)

-- `cascadeAfterUninstall`.
unfoldable pub cascade_after_uninstall : ℕ → Manager → Manager
unfolding drop_all
cascade_after_uninstall r m =
    let in_ = m.heap r in
    if is_install in_.op || not (is_done in_.state) || not (is_appfw in_.module_of)
    then m
    else drop_all in_ m.installs m

-- `rehydrate`: a run that was going on when the driver stopped has failed.
abbrev pub interrupted : Step → Step
interrupted s =
    if is_active s.state
    then record s {
      state = error;
      err = if str_eq s.err "" then "driver restarted while this step was running" else s.err;
    }
    else s

unfoldable pub revived : Install → Install
revived in_ =
    if is_running in_.state
    then record in_ { state = error; steps = map interrupted in_.steps }
    else in_

module _ (writes : Install → Bool) where
  unfoldable pub revive : Install → Manager → Manager
  unfolding revived save
  revive in_ m =
      let new = revived in_ in
      record (put m.fresh new m) {
        fresh = suc m.fresh;
        installs = insert (key in_.cluster_id in_.module_of) m.fresh m.installs;
        files = if is_running in_.state then save writes new m.files else m.files;
      }

  unfoldable pub rehydrate : List Install → Manager → Manager
  unfolding revive
  rehydrate [] m = m
  rehydrate (in_ ∷ ins) m = rehydrate ins (revive in_ m)

unfoldable pub blank : (ℕ → Install) → (String → Bool) → Map Install → Map String → Manager
blank heap stuck files sidecars = record {
  heap = heap;
  fresh = 0;
  installs = [];
  cancels = [];
  clients = [];
  plans = [];
  busy = [];
  cancel_req = [];
  ended = [];
  closed = [];
  removed = [];
  stuck = stuck;
  files = files;
  sidecars = sidecars;
}

-- `List` of the store: the files that hold an install with a cluster.
abbrev pub listed : Map Install → List Install
listed [] = []
listed ((name, in_) ∷ files) =
    let rest = listed files in if str_eq in_.cluster_id "" then rest else in_ ∷ rest

-- `NewManager`, less the scripts that it writes beside the images.
unfoldable pub new_manager :
    (Install → Bool) → (ℕ → Install) → (String → Bool) → Map Install → Map String → Manager
unfolding rehydrate blank
new_manager writes heap stuck files sidecars =
    rehydrate writes (listed files) (blank heap stuck files sidecars)
