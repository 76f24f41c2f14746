-- ===== src/Generator/Yaml.antt =====
-- internal/generator/yamlwriter.go: the texts of the policy files, line by line. A document is the list of
-- its lines, each without its line end.
use Prim.Native.String.{String}
use cube_cos_driver.Base.{ℕ, zero, suc, Bool, true, false, List, [], ◌∷◌, str_eq, if◌then◌else◌}
use cube_cos_driver.Enterprise.Text.{sprint}

-- The values that the writers pass to `kv`.
pub data Value : Type 0 where
  nil : Value
  text : String → Value
  flag : Bool → Value

-- `indentOf`.
abbrev pub spaces : ℕ → List String
spaces zero = []
spaces (suc n) = " " ∷ spaces n

unfoldable pub indent_of : ℕ → String
indent_of n = sprint (spaces n)

-- `header`.
abbrev pub header : String → List String
header comment = "---" ∷ sprint ("# " ∷ comment ∷ []) ∷ []

abbrev pub shown_value : Value → String
shown_value nil = " "
shown_value (text v) = if str_eq v "" then " " else sprint (" " ∷ v ∷ [])
shown_value (flag true) = " true"
shown_value (flag false) = " false"

-- `kv`.
unfoldable pub kv : ℕ → String → Value → String
unfolding indent_of
kv indent key v = sprint (indent_of indent ∷ key ∷ ":" ∷ shown_value v ∷ [])

-- `raw`.
unfoldable pub raw : ℕ → String → String
unfolding indent_of
raw indent line = sprint (indent_of indent ∷ line ∷ [])

-- `String`: the lines, each with its end.
unfoldable pub written : List String → String
written [] = ""
written (l ∷ ls) = sprint (l ∷ "\n" ∷ written ls ∷ [])
