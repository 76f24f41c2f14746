-- ===== src/Pxe/Tests.antt =====
-- The theorems on the boot menu at concrete inputs: a menu of one entry, armed by two drivers.
use Prim.Native.String.{String}
use cube_cos_driver.Base.{false, [], ◌∷◌, none, some}
use cube_cos_driver.Pxe.{Patterns, Folder, value}
use cube_cos_driver.Pxe.Flipper.{Flipper, flip}
use cube_cos_driver.Pxe.Flipper.Locked.{Flipped, flip-Flipped}

abbrev patterns : Patterns
patterns = record {
  to_lower = λ s. s;
  trim_space = λ s. s;
  lines = λ s. s ∷ [];
  quote = λ s. s;
  menu = λ s. "cube" ∷ [];
  default_groups = λ s. some ("cube" ∷ []);
  replace_default = λ s new. s;
  timeout_value = λ s. some "-1";
  replace_timeout = λ s new. s;
  args_value = λ s. some "";
  replace_args = λ s new. s;
}

abbrev driver : String → Flipper
driver name = record { patterns = patterns; root = "/tftp"; holder = name }

abbrev folder : Folder
folder = record {
  grub = value "menuentry 'cube' { linuxefi }";
  lock = none;
  stuck = λ l. false;
  faults = [];
}

flip-Flipped_example :
    Flipped
      (driver "a")
      (record { holder = "a"; since = 5 })
      folder
      (flip (driver "a") "" "autoinstall" 5 folder)
flip-Flipped_example = flip-Flipped (driver "a") "" "autoinstall" 5 folder
