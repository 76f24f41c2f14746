-- ===== src/Orchestrator/Sel/Log.antt =====
-- The reading of a BMC's log as a reader of the source would describe it: the part behind the
-- anchor, and its last status that maps to a state.
use cube_cos_driver.Base.{ℕ, String, Bool, List, [], ◌∷◌, Option, none, some, if◌then◌else◌, any_of}
use cube_cos_driver.Orchestrator.Sel.{SelEntry, SelStatus, actionable, is_anchor}

-- The entries behind the first one that has the anchor's handle.
unfoldable pub behind : ℕ → List (Option SelEntry) → List (Option SelEntry)
behind after [] = []
behind after (e ∷ es) = let rest = behind after es in if is_anchor after e then es else rest

abbrev pub has_anchor : ℕ → List (Option SelEntry) → Bool
has_anchor after es = any_of (is_anchor after) es

abbrev pub first_of_two : Option SelStatus → Option SelStatus → Option SelStatus
first_of_two none t = t
first_of_two (some s) t = some s

-- The last status that maps to a state.
unfoldable pub last_actionable : (List ℕ → String) → List (Option SelEntry) → Option SelStatus
last_actionable text [] = none
last_actionable text (e ∷ es) = first_of_two (last_actionable text es) (actionable text e)
