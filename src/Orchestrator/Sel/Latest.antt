-- ===== src/Orchestrator/Sel/Latest.antt =====
-- What `Observe` returns, and what it returns when the anchor is gone.
use cube_cos_driver.Base.{
  ℕ, String, ◌≡◌, ◌≢◌, refl, true, false, List, [], ◌∷◌, Option, none, some, arith, ◌==◌,
  if◌then◌else◌, inl, inr, Bool-cases, ◌∙◌,
}
use cube_cos_driver.Orchestrator.Sel.{
  SelEntry, SelStatus, actionable, scan, observe, is_anchor, newer,
}
use cube_cos_driver.Orchestrator.Sel.Log.{behind, has_anchor, first_of_two, last_actionable}

first_of_two-newer :
    (a b l : Option SelStatus) → first_of_two a (newer l b) ≡ first_of_two (first_of_two a b) l
first_of_two-newer none none l = refl
first_of_two-newer none (some s) l = refl
first_of_two-newer (some t) b l = refl

module _ (text : List ℕ → String) where
  scan_past :
      (after : ℕ) (latest : Option SelStatus) (es : List (Option SelEntry))
      → scan text after true latest es ≡ first_of_two (last_actionable text es) latest
  unfolding scan last_actionable
  scan_past after latest [] = refl
  scan_past after latest (e ∷ es) =
      scan_past after (newer latest (actionable text e)) es
      ∙ first_of_two-newer (last_actionable text es) (actionable text e) latest

  first_of_two-none : (a : Option SelStatus) → first_of_two a none ≡ a
  first_of_two-none none = refl
  first_of_two-none (some s) = refl

  scan_before :
      (after : ℕ) (es : List (Option SelEntry))
      → scan text after false none es ≡ last_actionable text (behind after es)
  unfolding scan behind
  scan_before after [] = unfold last_actionable in refl
  scan_before after (e ∷ es) = elim (Bool-cases (is_anchor after e)) [
    | inl here ↦ rw here (scan_past after none es ∙ first_of_two-none (last_actionable text es))
    | inr not_here ↦ rw not_here (scan_before after es)
  ]

  -- `Observe` returns the last status that maps to a state, of the whole log when the anchor is 0,
  -- and of the part behind the entry with the anchor's handle otherwise.
  pub observe_lem :
      (after : ℕ) (es : List (Option SelEntry))
      → observe text after es ≡ last_actionable text (if after == 0 then es else behind after es)
  unfolding observe
  observe_lem after es = elim (Bool-cases (after == 0)) [
    | inl whole ↦ rw whole (scan_past after none es ∙ first_of_two-none (last_actionable text es))
    | inr part ↦ rw part (scan_before after es)
  ]

  behind_missing :
      (after : ℕ) (es : List (Option SelEntry)) → has_anchor after es ≡ false → behind after es ≡ []
  unfolding behind
  behind_missing after [] h = refl
  behind_missing after (e ∷ es) h = ground (arith, behind_missing after es)

  -- When the anchor is not 0 and no entry of the log has its handle, `Observe` returns nothing,
  -- whatever statuses the log holds.
  pub observe_missing_anchor :
      (after : ℕ) (es : List (Option SelEntry))
      → after ≢ 0
      → has_anchor after es ≡ false
      → observe text after es ≡ none
  unfolding last_actionable
  observe_missing_anchor after es h m =
      ground (arith, observe_lem after es, behind_missing after es)
