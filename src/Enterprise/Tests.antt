-- ===== src/Enterprise/Tests.antt =====
-- The values at which the theorems on installations are tried.
mod Steps
mod Runs
use Prim.Native.String.{String}
use cube_cos_driver.Base.{
  ℕ, zero, suc, ℤ, pos, ◌+◌, Bool, true, false, List, [], ◌∷◌, Option, none, some, str_eq,
  if◌then◌else◌, Map,
}
use cube_cos_driver.Enterprise.Text.{Library, sprint}
use cube_cos_driver.Enterprise.Records.{
  Module, appfw, cmp, advisor, StepState, pending, active, RunState, running, done, Op, install,
  uninstall, InstallParams, Step, Install, Kind, run, scp_run, PlannedStep, ModuleEntry,
  ImportSettings, Manifest,
}
use cube_cos_driver.Enterprise.Cluster.{Client, Error, Result, ok, failed, Action}
use cube_cos_driver.Enterprise.Cluster.Copy.{show_image}
use cube_cos_driver.Enterprise.Manager.{Manager}

abbrev pub lib : Library
lib = record {
  join_path = λ a b c. sprint (a ∷ "/" ∷ b ∷ "/" ∷ c ∷ []);
  base_name = λ s. s;
  trim_suffix = λ s t. s;
  trim_prefix = λ s t. s;
  trim_space = λ s. s;
  trim_slashes = λ s. s;
  to_lower = λ s. s;
  fields = λ s. s ∷ [];
  encode = λ s. s;
  quote = λ s. s;
  quote_meta = λ s. s;
  parse_ip = λ s. true;
  int_value = λ s. if str_eq s "20260313" then pos 20260313 else pos 20260101;
  parses = λ s. true;
  split = λ s t. s ∷ [];
  without = λ s t. s;
  equal_fold = str_eq;
  sort = λ ss. ss;
  decimal = λ n. "n";
  duration = λ n. "d";
}

abbrev pub params : InstallParams
params = record {
  project = "p";
  public_net = "public";
  mgmt_net = "public";
  lb_ip = "10.0.0.9";
  os_image = "os.raw";
  extpack_file = "";
  framework = "p";
  app_file = "portal.pigz";
  fs_image = "fs.qcow2";
  lb_image = "lb.qcow2";
  advisor_file = "";
  advisor_lb_ip = "";
  advisor_pool = [];
  advisor_base_url = "";
  advisor_provider_url = "";
  advisor_provider_model = "";
  advisor_provider_key_file = "";
  storage_backend = "";
}

abbrev pub planned : String → Kind → PlannedStep
planned name kind = record {
  name = name;
  title = name;
  kind = kind;
  cmd = name;
  local_path = "f";
  remote_path = "/tmp";
  image_name = "image";
  present = "";
  framework = "p";
  lb_ip = "10.0.0.9";
}

abbrev pub one_step : Step
one_step = record {
  name = "a";
  title = "a";
  state = pending;
  output = "";
  err = "";
  started_at = none;
  finished_at = none;
}

abbrev pub installed : Module → Op → RunState → Install
installed m op state = record {
  cluster_id = "c";
  module_of = m;
  op = op;
  host = "10.0.0.1";
  started_at = 1;
  manual = true;
  manual_step = 0;
  simulate_airgap = false;
  params = params;
  steps = one_step ∷ [];
  current = 0;
  state = state;
  portal = "";
  warnings = [];
  manifest = "";
  lab = false;
}

-- Run 0 at the key "c/appfw", and run 1 at "c/cmp".
abbrev pub manager : Install → Manager
manager in_ = record {
  heap = λ i. elim i [ zero ↦ in_ | suc _ ↦ installed cmp install done ];
  fresh = 2;
  installs = ("c/appfw", 0) ∷ ("c/cmp", 1) ∷ [];
  cancels = [];
  clients = ("c/appfw", 0) ∷ [];
  plans = ("c/appfw", planned "a" run ∷ []) ∷ [];
  busy = ("c/appfw", true) ∷ [];
  cancel_req = [];
  ended = [];
  closed = [];
  removed = [];
  files = ("c-cmp.json", installed cmp install done) ∷ [];
  stuck = λ name. false;
  sidecars = [];
}

-- A cluster that has an image once a command other than a question has run on it.
abbrev pub imports : Client
imports = record {
  S = Bool;
  run = λ cmd s.
      if str_eq cmd (show_image "image")
      then ([], (if s then none else some (record { message = "no image"; lost = false })), s)
      else ([], none, if str_eq cmd "a" then true else s);
  push = λ path dir s. (none, s);
  cancelled = λ s. none;
  now = λ s. 0;
  pause = λ n s. (none, s);
}

-- A cluster on which nothing happens but time.
abbrev pub idle : Client
idle = record {
  S = ℕ;
  run = λ cmd s. ([], none, s);
  push = λ path dir s. (none, s);
  cancelled = λ s. none;
  now = λ s. s;
  pause = λ n s. (none, s + n);
}

abbrev pub manifest : String → String → Manifest
manifest name build = record {
  name = name;
  version = "3.1.0";
  commit = "abc";
  build = build;
  appctl = "";
  airgap_supported = none;
  os_image = none;
  import = record { tenant = ""; visibility = ""; storage_backend = ""; os = "" };
  schema = 1;
  advisor_release_key = none;
  modules =
      ("cmp", record { version = "2.1.0"; status = "blocked"; reason = "r"; link = "l" } ∷ []) ∷ [];
}
