-- ===== src/Base/Sorting.antt =====
-- Lists in the order of a numeric key.
use pigeongram_chat.Base.{ℕ, ◌≤◌, List, [], ◌∷◌, All}

module _ {ℓ} {A : Type ℓ} (key : A → ℕ) where
  -- Every element is at most all that follow it.
  abbrev pub IsSorted : List A → Type 0
  IsSorted [] = Unit {0}
  IsSorted (x ∷ xs) = All (λ y. key x ≤ key y) xs × IsSorted xs

module _ {ℓ κ} {A : Type ℓ} {P Q : A → Type κ} where
  pub All-mono : ((a : A) → P a → Q a) → (xs : List A) → All P xs → All Q xs
  All-mono f [] h = tt
  All-mono f (x ∷ xs) h = (f x h.0, All-mono f xs h.1)
