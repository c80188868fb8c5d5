-- ===== src/Cache.antt =====
-- The interface `Cache` (repository/cache/interface.go) and what its clients rely on. The two
-- implementations are below it: Cache/Memory for memory.go and Cache/Redis for redis.go.
pub mod Memory
pub mod Redis
use pigeongram_chat.Base.{
  ℕ, ◌≡◌, ◌≢◌, ◌<◌, ◌^◌, All, ◌≤◌, Bool, true, false, Option, none, some, List, [], ◌∷◌, ◌++◌, ◌==◌,
  nat_eq, list_eq, ltb, if◌then◌else◌, length, drop, ◌-◌, ◌&&◌,
}
use pigeongram_chat.Base.Text.{Text}
use pigeongram_chat.Base.Result.{Result, ok, err}
use pigeongram_chat.Models.{Message, User, Session}

-- Each method is given the time and returns its result beside the new state.
pub record Cache : Type 1 where
  pub State : Type 0
  pub get_recent_messages : ℕ → State → Result Text (Option (List Message)) × State
  pub set_recent_messages : ℕ → List Message → State → Result Text (Unit {0}) × State
  pub add_message : ℕ → Message → State → Result Text (Unit {0}) × State
  pub invalidate_messages : State → Result Text (Unit {0}) × State
  pub get_user : ℕ → Text → State → Result Text (Option User) × State
  pub set_user : ℕ → Text → Option User → State → Result Text (Unit {0}) × State
  pub invalidate_user : Text → State → Result Text (Unit {0}) × State
  pub get_session : ℕ → Text → State → Result Text (Option Session) × State
  pub set_session : ℕ → Text → Option Session → State → Result Text (Unit {0}) × State
  pub invalidate_session : Text → State → Result Text (Unit {0}) × State

-- The messages that a read yields to a client, which takes an error and `nil` for none.
abbrev pub found : Result Text (Option (List Message)) → List Message
found (ok none) = []
found (ok (some ms)) = ms
found (err e) = []

-- What the clients of a cache rely on, when the write did not fail: messages and sessions that were
-- just stored are read back, what was invalidated is not, and sessions do not disturb one another.
pub record IsLawful (C : Cache) : Type 0 where
  pub get-set_messages :
      (now : ℕ) (ms : List Message) (s : C.State)
      → All (λ m. m.id < 2 ^ 64) ms
      → (C.set_recent_messages now ms s).0 ≡ ok tt
      → found (C.get_recent_messages now (C.set_recent_messages now ms s).1).0 ≡ ms
  pub get-invalidate_messages :
      (now : ℕ) (s : C.State)
      → (C.invalidate_messages s).0 ≡ ok tt
      → found (C.get_recent_messages now (C.invalidate_messages s).1).0 ≡ []
  pub get-set_session :
      (now : ℕ) (k : Text) (v : Session) (s : C.State)
      → (C.set_session now k (some v) s).0 ≡ ok tt
      → (C.get_session now k (C.set_session now k (some v) s).1).0 ≡ ok (some v)
  pub get-set_session_ne :
      (now : ℕ) (k j : Text) (v : Option Session) (s : C.State)
      → k ≢ j
      → (C.set_session now k v s).0 ≡ ok tt
      → (C.get_session now j (C.set_session now k v s).1).0 ≡ (C.get_session now j s).0
  pub get-invalidate_session :
      (now : ℕ) (k : Text) (s : C.State)
      → (C.invalidate_session k s).0 ≡ ok tt
      → (C.get_session now k (C.invalidate_session k s).1).0 ≡ ok none
