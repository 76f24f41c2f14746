-- ===== src/Enterprise/Text/Quoting.antt =====
-- A quoted value is one word for a POSIX shell, and the word is the value.
use Prim.Native.Char.{Char, code}
use Prim.Native.String
use Prim.Native.String.{String}
use Prim.Native.String.append
use cube_cos_driver.Base.{
  Bool, true, false, ◌&&◌, ◌||◌, ◌≡◌, refl, Option, none, some, arith, ltb, Bool-cases, eq_iff, inl,
  inr, ap, sym, ◌∙◌,
}
use cube_cos_driver.Enterprise.Text.{is_char, is_quote, quote_rest, shell_quote}

-- How a shell reads a command line: outside of quotes, behind a backslash there, inside quotes.
pub data Mode : Type 0 where
  bare escaped quoted : Mode

-- A letter or a digit. Every other character that is no quote and no backslash ends a bare word; a
-- shell reads some of those as part of the word, but none of them stands in a quoted value's frame.
abbrev pub is_plain : Char → Bool
is_plain c =
    (ltb 47 (code c) && ltb (code c) 58)
    || ((ltb 64 (code c) && ltb (code c) 91) || (ltb 96 (code c) && ltb (code c) 123))

abbrev pub push : Char → Option (String × String) → Option (String × String)
push c none = none
push c (some (w, rest)) = some (String.◌∷◌ c w, rest)

-- The first word of a command line and what follows it; `none` for a quote that stays open.
unfoldable pub first_word : Mode → String → Option (String × String)
first_word bare String.[] = some ("", "")
first_word escaped String.[] = none
first_word quoted String.[] = none
first_word escaped (String.◌∷◌ c s) = push c (first_word bare s)
first_word quoted (String.◌∷◌ c s) = elim (is_quote c) [
  | true ↦ first_word bare s
  | false ↦ push c (first_word quoted s)
]
first_word bare (String.◌∷◌ c s) = elim (is_quote c) [
  | true ↦ first_word quoted s
  | false ↦ elim (is_char "\\" c) [
    | true ↦ first_word escaped s
    | false ↦ elim (is_plain c) [
      | true ↦ push c (first_word bare s)
      | false ↦ some ("", String.◌∷◌ c s)
    ]
  ]
]

-- A word that is read on.
abbrev pub prefix : String → Option (String × String) → Option (String × String)
prefix v none = none
prefix v (some (w, rest)) = some (String.◌++◌ v w, rest)

prefix_cons :
    (c : Char) (v : String) (o : Option (String × String))
    → push c (prefix v o) ≡ prefix (String.◌∷◌ c v) o
prefix_cons c v none = refl
prefix_cons c v (some (w, rest)) = rw append.cons

prefix_nil : (o : Option (String × String)) → o ≡ prefix "" o
prefix_nil none = refl
prefix_nil (some (w, rest)) = rw append.nil

-- The frame of an escaped quote between two quoted parts.
frame :
    (t : String)
    → first_word quoted (String.◌∷◌ "'" (String.◌∷◌ "\\" (String.◌∷◌ "'" (String.◌∷◌ "'" t))))
      ≡ push "'" (first_word quoted t)
unfolding first_word
frame t = refl

quoted_other :
    (c : Char) (t : String)
    → is_quote c ≡ false
    → first_word quoted (String.◌∷◌ c t) ≡ push c (first_word quoted t)
unfolding first_word
quoted_other c t h = ground arith

opening : (t : String) → first_word bare (String.◌∷◌ "'" t) ≡ first_word quoted t
unfolding first_word
opening t = refl

head_of : Char → String → Char
head_of d String.[] = d
head_of d (String.◌∷◌ c s) = c

is_quote_eq : (c : Char) → is_quote c ≡ true → c ≡ "'"
unfolding head_of
is_quote_eq c h = ap (head_of c) ((eq_iff (String.◌∷◌ c String.[]) "'").0 h)

quoted_rest :
    (v rest : String)
    → first_word quoted (String.◌++◌ (quote_rest v) rest) ≡ prefix v (first_word bare rest)
unfolding quote_rest
quoted_rest String.[] rest =
    rw (append.cons, append.nil) (unfold first_word in prefix_nil (first_word bare rest))
quoted_rest (String.◌∷◌ c s) rest = elim (Bool-cases (is_quote c)) [
  | inl quote ↦
      rw (quote, quote_rest, append.cons, append.cons, append.cons, append.cons)
        (frame _
          ∙ ap (push "'") (quoted_rest s rest)
          ∙ prefix_cons "'" s _
          ∙ ap (λ x. prefix (String.◌∷◌ x s) (first_word bare rest)) (sym (is_quote_eq c quote)))
  | inr other ↦
      rw (other, append.cons)
        (quoted_other c _ other ∙ ap (push c) (quoted_rest s rest) ∙ prefix_cons c s _)
]

-- Whatever its characters, a quoted value in front of any text is read by a shell as the value, whole
-- and unchanged, followed by what the shell reads in that text as the rest of the word.
pub first_word-shell_quote :
    (v rest : String)
    → first_word bare (String.◌++◌ (shell_quote v) rest) ≡ prefix v (first_word bare rest)
unfolding shell_quote
first_word-shell_quote v rest =
    rw append.cons (opening (String.◌++◌ (quote_rest v) rest) ∙ quoted_rest v rest)
