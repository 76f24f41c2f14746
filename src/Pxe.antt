-- ===== src/Pxe.antt =====
-- internal/pxe/pxe.go: the boot menu grub.cfg of a PXE server, its entries, its default, its timeout and
-- the kernel arguments of an entry.
pub mod Locking
pub mod Flipper
mod Tests
use Prim.Native.String.{String}
use cube_cos_driver.Base.{
  ℕ, zero, suc, Bool, true, false, not, ◌&&◌, List, [], ◌∷◌, any_of, Option, none, some, str_eq,
  if◌then◌else◌,
}
use cube_cos_driver.Enterprise.Text.{sprint, join, contains_text}

-- What Go's library finds in a text: `strings.ToLower`, `TrimSpace`, `Split` at the line ends, the `%q` of
-- `fmt`, and the matches of the four expressions of the package. `menu` gives the first group of every match
-- of reMenu, `default_groups` the groups of the first match of reDefault, `timeout_value` the second group
-- of reTimeout's and `args_value` that of reEntryArgs'. The `replace` functions take a text and a template.
pub record Patterns : Type 0 where
  pub to_lower : String → String
  pub trim_space : String → String
  pub lines : String → List String
  pub quote : String → String
  pub menu : String → List String
  pub default_groups : String → Option (List String)
  pub replace_default : String → String → String
  pub timeout_value : String → Option String
  pub replace_timeout : String → String → String
  pub args_value : String → Option String
  pub replace_args : String → String → String

-- A value, or the text of an error.
pub data Answer (A : Type 0) : Type 0 where
  value : A → Answer A
  error : String → Answer A

pub record Lock : Type 0 where
  pub holder : String
  pub since : ℕ

-- The folder that the drivers share: the content of grub.cfg or the error of reading it, the file of the
-- lock, and what the next writes and creations of a file end with, `none` for a success. When the list is
-- used up they succeed. `stuck` says which locks the file system refuses to remove.
pub record Folder : Type 0 where
  pub grub : Answer String
  pub lock : Option Lock
  pub stuck : Lock → Bool
  pub faults : List (Option String)

-- `Entry`.
pub record Entry : Type 0 where
  pub name : String
  pub is_default : Bool

-- `grubPath`, for messages.
abbrev pub grub_path : String → String
grub_path root = sprint (root ∷ "/grub.cfg" ∷ [])

-- The error of the next write, and what is left of the faults.
unfoldable pub next_fault : List (Option String) → Option String × List (Option String)
next_fault [] = (none, [])
next_fault (f ∷ fs) = (f, fs)

-- `writeFileAtomic`: the new content, or the old one and an error.
abbrev pub write_outcome :
    String → Folder → Option String × List (Option String) → Option String × Folder
write_outcome text d (some why, fs) = (some why, record d { faults = fs })
write_outcome text d (none, fs) = (none, record d { grub = value text; faults = fs })

unfoldable pub write_file_atomic : String → Folder → Option String × Folder
unfolding next_fault
write_file_atomic text d = write_outcome text d (next_fault d.faults)

-- What is done with the text of grub.cfg: asked, and written.
abbrev pub read_with : {A : Type 0} → (String → Answer A) → Answer String → Answer A
read_with f (error why) = error why
read_with f (value text) = f text

abbrev pub put_text : Answer String → Folder → Option String × Folder
put_text (error why) d = (some why, d)
put_text (value out) d = write_file_atomic out d

abbrev pub edit_with : (String → Answer String) → Answer String → Folder → Option String × Folder
edit_with f (error why) d = (some why, d)
edit_with f (value text) d = put_text (f text) d

-- The first group that is not empty.
abbrev pub first_group : List String → String
first_group [] = ""
first_group (g ∷ gs) = if not (str_eq g "") then g else first_group gs

module _ (p : Patterns) where
  -- `currentDefault`.
  unfoldable pub current_default_of : String → String
  current_default_of text = elim (p.default_groups text) [ none ↦ "" | some gs ↦ first_group gs ]

  abbrev pub offered : String → List String → List Entry
  offered def [] = []
  offered def (n ∷ ns) =
      let rest = offered def ns in
      if contains_text (p.to_lower n) "local disk"
      then rest
      else record { name = n; is_default = str_eq n def } ∷ rest

  unfoldable pub list_entries : Folder → Answer (List Entry)
  unfolding current_default_of
  list_entries d =
      read_with (λ text. value (offered (current_default_of text) (p.menu text))) d.grub

  unfoldable pub current_default : Folder → Answer String
  unfolding current_default_of
  current_default d = read_with (λ text. value (current_default_of text)) d.grub

  unfoldable pub with_default : String → String → String → Answer String
  with_default root entry text =
      if not (any_of (λ n. str_eq n entry) (p.menu text))
      then error (sprint ("no menuentry " ∷ p.quote entry ∷ " in " ∷ grub_path root ∷ []))
      else elim (p.default_groups text) [
        | none ↦ error (sprint ("no 'set default=' line in " ∷ grub_path root ∷ []))
        | some gs ↦ value (p.replace_default text (sprint ("set default='" ∷ entry ∷ "'" ∷ [])))
      ]

  unfoldable pub set_default : String → String → Folder → Option String × Folder
  unfolding with_default write_file_atomic
  set_default root entry d = edit_with (with_default root entry) d.grub d

  unfoldable pub current_timeout : Folder → Answer String
  current_timeout d =
      read_with (λ text. elim (p.timeout_value text) [ none ↦ value "" | some v ↦ value v ]) d.grub

  -- `SetTimeout`, which does nothing when grub.cfg has no such line.
  abbrev pub put_timeout : Option String → String → Folder → Option String × Folder
  put_timeout none out d = (none, d)
  put_timeout (some old) out d = write_file_atomic out d

  abbrev pub timeout_edit : String → Answer String → Folder → Option String × Folder
  timeout_edit v (error why) d = (some why, d)
  timeout_edit v (value text) d =
      put_timeout (p.timeout_value text) (p.replace_timeout text (sprint ("${1}" ∷ v ∷ []))) d

  unfoldable pub set_timeout : String → Folder → Option String × Folder
  unfolding write_file_atomic
  set_timeout v d = timeout_edit v d.grub d

  -- `entryLine`, which gives the line itself.
  abbrev pub is_line_of : String → String → Bool
  is_line_of entry line =
      contains_text line (sprint ("'" ∷ entry ∷ "'" ∷ [])) && contains_text line "linuxefi"

  abbrev pub entry_line : String → List String → Option String
  entry_line entry [] = none
  entry_line entry (l ∷ ls) =
      let rest = entry_line entry ls in if is_line_of entry l then some l else rest

  -- `lines[i] = …`.
  abbrev pub replace_line : String → String → List String → List String
  replace_line entry new [] = []
  replace_line entry new (l ∷ ls) =
      let rest = replace_line entry new ls in if is_line_of entry l then new ∷ ls else l ∷ rest

  unfoldable pub entry_args : String → Folder → Answer String
  entry_args entry d =
      read_with
        (λ text. elim (entry_line entry (p.lines text)) [
          | none ↦ error (sprint ("no menuentry " ∷ p.quote entry ∷ []))
          | some l ↦ elim (p.args_value l) [ none ↦ value "" | some v ↦ value (p.trim_space v) ]
        ])
        d.grub

  -- The template with the new arguments.
  abbrev pub args_template : String → String
  args_template args =
      if not (str_eq args "")
      then sprint ("${1}" ∷ " " ∷ args ∷ "${3}" ∷ [])
      else sprint ("${1}" ∷ "${3}" ∷ [])

  unfoldable pub with_args : String → String → String → Answer String
  with_args entry args text = elim (entry_line entry (p.lines text)) [
    | none ↦ error (sprint ("no menuentry " ∷ p.quote entry ∷ []))
    | some l ↦ elim (p.args_value l) [
      | none ↦
          error (sprint ("menuentry " ∷ p.quote entry ∷ " has no erst_disable…pxe_ segment" ∷ []))
      | some _ ↦
          value
            (join "\n" (replace_line entry (p.replace_args l (args_template args)) (p.lines text)))
    ]
  ]

  unfoldable pub set_entry_args : String → String → Folder → Option String × Folder
  unfolding with_args write_file_atomic
  set_entry_args entry args d = edit_with (with_args entry args) d.grub d
