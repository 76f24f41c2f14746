-- ===== src/Enterprise/Text.antt =====
-- internal/enterprise/plan.go: `shellQuote`, and the text functions that the package takes from Go's
-- library. `Library` names those whose code is not the repository's.
pub mod Quoting
use Prim.Native.Char.{Char, code}
use Prim.Native.String
use Prim.Native.String.{String}
use cube_cos_driver.Base.{
  str_eq, ℕ, ℤ, Bool, true, false, List, [], ◌∷◌, Option, none, some, ◌==◌, if◌then◌else◌,
}
use text.Mathlib.Text.{find?}

-- Path and text functions of Go's library: `filepath.Join` of three parts, `filepath.Base`,
-- `strings.TrimSuffix`, `TrimPrefix`, `TrimSpace`, `TrimRight` by slashes, `ToLower`, `Fields`, base64,
-- the `%q` of `fmt`, `regexp.QuoteMeta`, `net.ParseIP`, `strconv.ParseInt` (its number, and whether it
-- is one), `strings.Split`, `strings.ReplaceAll` with nothing, `strings.EqualFold`,
-- `sort.Strings`, and the texts of a number and of a duration in seconds.
pub record Library : Type 0 where
  pub join_path : String → String → String → String
  pub base_name : String → String
  pub trim_suffix : String → String → String
  pub trim_prefix : String → String → String
  pub trim_space : String → String
  pub trim_slashes : String → String
  pub to_lower : String → String
  pub fields : String → List String
  pub encode : String → String
  pub quote : String → String
  pub quote_meta : String → String
  pub parse_ip : String → Bool
  pub int_value : String → ℤ
  pub parses : String → Bool
  pub split : String → String → List String
  pub without : String → String → String
  pub equal_fold : String → String → Bool
  pub sort : List String → List String
  pub decimal : ℕ → String
  pub duration : ℕ → String

-- `fmt.Sprintf` of texts, part by part.
abbrev pub sprint : List String → String
sprint [] = ""
sprint (s ∷ ss) = String.◌++◌ s (sprint ss)

-- `strings.Join`.
abbrev pub join : String → List String → String
join sep [] = ""
join sep (s ∷ []) = s
join sep (s ∷ t ∷ ss) = String.◌++◌ s (String.◌++◌ sep (join sep (t ∷ ss)))

-- `strings.Contains`.
abbrev pub contains_text : String → String → Bool
contains_text s part = elim (find? s part) [ none ↦ false | some _ ↦ true ]

abbrev pub is_char : String → Char → Bool
is_char k c = str_eq (String.◌∷◌ c String.[]) k

abbrev pub is_quote : Char → Bool
is_quote = is_char "'"

-- What follows the opening quote: each quote is closed, escaped and opened again.
unfoldable pub quote_rest : String → String
quote_rest String.[] = "'"
quote_rest (String.◌∷◌ c s) =
    let rest = quote_rest s in
    if is_quote c
    then String.◌∷◌ "'" (String.◌∷◌ "\\" (String.◌∷◌ "'" (String.◌∷◌ "'" rest)))
    else String.◌∷◌ c rest

-- `shellQuote`.
unfoldable pub shell_quote : String → String
unfolding quote_rest
shell_quote v = String.◌∷◌ "'" (quote_rest v)
