-- ===== src/Generator.antt =====
-- internal/generator: the files that a node is restored from, the check of its network and the plan of its
-- preflight.
pub mod Masks
pub mod Validate
pub mod Preflight
pub mod Yaml
pub mod Render
pub mod Snapshot
pub mod Tests
use Prim.Native.String.{String}
use cube_cos_driver.Base.{ℕ, ℤ, Option}

-- An IPv4 address or mask, byte by byte.
pub record Octets : Type 0 where
  pub first : ℕ
  pub second : ℕ
  pub third : ℕ
  pub fourth : ℕ

-- What Go's library says of a text: `strings.TrimSpace`, `net.ParseIP` followed by `To4`, the `%q` of `fmt`,
-- `strconv.Itoa`, what stands behind the last dot, and `strconv.Atoi`.
pub record Net : Type 0 where
  pub trim_space : String → String
  pub parse_v4 : String → Option Octets
  pub quote : String → String
  pub decimal : ℕ → String
  pub after_dot : String → Option String
  pub atoi : String → Option ℤ
