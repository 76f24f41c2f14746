-- ===== src/Inventory/Facts/Merged.antt =====
-- Merging is a monoid action on the facts: the order of grouping does not matter.
use cube_cos_driver.Base.{ℕ, String, ◌≡◌, refl, List, [], ◌∷◌, arith}
use cube_cos_driver.Inventory.Facts.{Inventory, merge_inventory, list_or, number_or, text_or}

list_or_assoc {ℓ} :
    {A : Type ℓ} (a b c : List A) → list_or (list_or a b) c ≡ list_or a (list_or b c)
list_or_assoc [] b c = refl
list_or_assoc (x ∷ xs) b c = refl

number_or_assoc : (a b c : ℕ) → number_or (number_or a b) c ≡ number_or a (number_or b c)
number_or_assoc a b c = ground arith

text_or_assoc : (a b c : String) → text_or (text_or a b) c ≡ text_or a (text_or b c)
text_or_assoc a b c = ground arith

-- Three fetches leave the same facts whether the later two are merged first or the earlier two.
merge_inventory_assoc :
    (a b c : Inventory)
    → merge_inventory (merge_inventory a b) c ≡ merge_inventory a (merge_inventory b c)
unfolding merge_inventory
merge_inventory_assoc a b c = simp (list_or_assoc, number_or_assoc, text_or_assoc)
