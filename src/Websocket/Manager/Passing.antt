-- ===== src/Websocket/Manager/Passing.antt =====
-- What goes on from results that may be missing keeps what holds of a manager.
use pigeongram_chat.Base.{ℕ, ◌≡◌, refl, Option, none, some}
use pigeongram_chat.Base.Dict.{Dict}
use pigeongram_chat.Websocket.Client.{Client}
use pigeongram_chat.Websocket.Manager.{Outside, Manager}

-- If there is a manager, then it has the property.
abbrev pub Passes : {W : Outside} → (Manager W → Type 0) → Option (Manager W) → Type 0
Passes P none = Unit
Passes P (some m) = P m

module _ {W : Outside} (P : Manager W → Type 0) where
  pub goes_on :
      {A : Type 0} (o : Option A) (f : A → Option (Manager W))
      → ((a : A) → o ≡ some a → Passes P (f a))
      → Passes P (elim o [ none ↦ none | some a ↦ f a ])
  goes_on none f w = tt
  goes_on (some a) f w = w a refl

  pub after_delivery :
      (o : Option (Dict ℕ Client × ℕ)) (f : Dict ℕ Client → ℕ → Manager W)
      → ((h : Dict ℕ Client) (n : ℕ) → o ≡ some (h, n) → P (f h n))
      → Passes P (elim o [ none ↦ none | some (h, n) ↦ some (f h n) ])
  after_delivery none f w = tt
  after_delivery (some (h, n)) f w = w h n refl

  pub chained :
      (o : Option (Manager W)) (f : Manager W → Option (Manager W))
      → Passes P o
      → ((m : Manager W) → P m → Passes P (f m))
      → Passes P (elim o [ none ↦ none | some m ↦ f m ])
  chained none f w g = tt
  chained (some m) f w g = g m w
