-- ===== src/Storage/Tests.antt =====
-- The theorems on the store at concrete inputs: a cluster saved on a disk that has another one.
use Prim.Native.String.{String}
use cube_cos_driver.Base.{false, true, not, str_eq, ◌≡◌, refl, [], ◌∷◌}
use cube_cos_driver.Base.Maps.{lookup}
use cube_cos_driver.Generator.Snapshot.{Archiver, value}
use cube_cos_driver.Generator.Tests.{net}
use cube_cos_driver.Generator.Tests.Whole.{cluster, networks}
use cube_cos_driver.Storage.{Setting, Disk, short_id, save}
use cube_cos_driver.Storage.Saved.{save-others}

abbrev archiver : Archiver
archiver = record {
  template = ("Comment", "") ∷ [];
  now = "today";
  sorted = λ m. m;
  zip = λ m. value "zip";
}

abbrev setting : Setting
setting = record {
  quote = λ s. s;
  byte_length = λ s. 12;
  parse_ip = λ s. true;
  nets = networks;
  net = net;
  last12 = λ s. s;
  archiver = archiver;
  json = λ d. "json";
  unmarshal = λ s. value cluster;
  is_plain = λ h. not (str_eq h "../old/n1");
  write_outside = λ exports h bytes s. record s { dirs = [] };
  drop_outside = λ h s. s;
  exports_on = true;
  stays = λ h. false;
  zip_stays = λ id. false;
}

abbrev disk : Disk
disk = record {
  dirs = ("old", record { text = "json"; snapshots = [] }) ∷ [];
  zips = ("old", "zip") ∷ [];
  exports = [];
  faults = [];
}

save-others_example :
    (lookup "old" (save setting cluster disk).1.dirs ≡ lookup "old" disk.dirs)
    × (lookup "old" (save setting cluster disk).1.zips ≡ lookup "old" disk.zips)
unfolding short_id lookup
save-others_example = save-others setting cluster disk "old" refl refl
