-- ===== src/Pxe/Locking.antt =====
-- internal/pxe/pxe.go: `AcquireLock`, the lock file that guards the default entry. Its age is read from one
-- clock, in nanoseconds.
use Prim.Native.String.{String}
use cube_cos_driver.Base.{ℕ, ltb, ◌+◌, List, [], ◌∷◌, Option, none, some, if◌then◌else◌}
use cube_cos_driver.Enterprise.Text.{sprint}
use cube_cos_driver.Pxe.{Lock, Folder, next_fault}

-- `lockTTL`, 30 minutes.
abbrev pub lock_ttl : ℕ
lock_ttl = 1800000000000

-- The file is created anew, which may fail.
abbrev pub create_outcome :
    (String → String)
    → Lock
    → Folder
    → Option String × List (Option String)
    → Option String × Folder
create_outcome wrap l d (some why, fs) = (some (wrap why), record d { faults = fs })
create_outcome wrap l d (none, fs) = (none, record d { lock = some l; faults = fs })

-- A file that is there makes it fail.
abbrev pub create_over : Option Lock → (String → String) → Lock → Folder → Option String × Folder
create_over none wrap l d = create_outcome wrap l d (next_fault d.faults)
create_over (some old) wrap l d = (some (wrap "file exists"), d)

unfoldable pub create_lock : (String → String) → Lock → Folder → Option String × Folder
unfolding next_fault
create_lock wrap l d = create_over d.lock wrap l d

-- The closure `release` that AcquireLock returns: `os.Remove(path)`, whose error is not asked for. It
-- removes whatever lock is there, unless that cannot be removed.
abbrev pub released : Option Lock → Folder → Folder
released none d = d
released (some k) d = if d.stuck k then d else record d { lock = none }

unfoldable pub release : Folder → Folder
release d = released d.lock d

-- A lock that is held: stolen when it is older than the TTL.
unfoldable pub held_by : Lock → Lock → Folder → Option String × Folder
unfolding create_lock release
held_by old l d =
    if ltb (old.since + lock_ttl) l.since
    then create_lock (λ why. sprint ("lock held and stale-steal failed: " ∷ why ∷ [])) l (release d)
    else (
      some (
          sprint
            ("PXE default is busy (held by " ∷ old.holder ∷ ") — another deploy is booting" ∷ [])),
      d,
    )

abbrev pub acquire : Option Lock → Lock → Folder → Option String × Folder
acquire none l d = create_lock (λ why. why) l d
acquire (some old) l d = held_by old l d

unfoldable pub acquire_lock : String → ℕ → Folder → Option String × Folder
unfolding create_lock held_by
acquire_lock holder now d = acquire d.lock (record { holder = holder; since = now }) d
