-- ===== src/Websocket/Fleet.antt =====
-- Several servers at work on one database and one cache, which publish to one another through Redis
-- (`subscribeToRedis` of internal/websocket/manager.go, and the managers of cmd/server/main.go). A turn
-- is an event of one server, or a document on its way from one server to one that is subscribed; it
-- may be lost, late, or come twice.
pub mod Wrapping
pub mod Isolated
use pigeongram_chat.Base.{
  ℕ, zero, suc, Bool, true, false, ◌&&◌, ◌||◌, Option, none, some, List, [], ◌∷◌, ◌==◌, list_eq,
  nat_eq, map, select, if◌then◌else◌,
}
use pigeongram_chat.Base.Text.{Text, bytes}
use pigeongram_chat.Websocket.Manager.{Outside, Manager, Published}
use pigeongram_chat.Websocket.Manager.Cluster.{process_redis_message}
use pigeongram_chat.Websocket.Manager.Run.{Event, step, new_manager}

-- A server, which is down after a panic.
pub record Member (W : Outside) : Type 0 where
  pub manager : Manager W
  pub up : Bool

-- `relays i k j`: the k-th document that server `i` published comes to server `j`.
pub data Turn : Type 0 where
  acts : ℕ → Event → Turn
  relays : ℕ → ℕ → ℕ → Turn

-- The channels that `subscribeToRedis` subscribes to.
abbrev pub is_subscribed : Text → Bool
is_subscribed channel = channel == bytes "chat:messages" || channel == bytes "chat:files"

abbrev pub nth {ℓ} : {A : Type ℓ} → ℕ → List A → Option A
nth i [] = none
nth zero (x ∷ xs) = some x
nth (suc i) (x ∷ xs) = nth i xs

abbrev pub put {ℓ} : {A : Type ℓ} → ℕ → A → List A → List A
put i x [] = []
put zero x (y ∷ ys) = x ∷ ys
put (suc i) x (y ∷ ys) = y ∷ put i x ys

abbrev pub is_own : Turn → Bool
is_own (acts i e) = true
is_own (relays i k j) = false

module _ {W : Outside} where
  -- What a server does goes through, or ends it.
  unfoldable pub settle : Option (Manager W) → Member W → Member W
  settle none b = record b { up = false }
  settle (some m) b = record b { manager = m }

  unfoldable pub works : (Manager W → Option (Manager W)) → Member W → Member W
  unfolding settle
  works f b = if b.up then settle (f b.manager) b else b

  -- The tables and the cache are the same for all servers.
  abbrev pub given : W.database.State → W.cache.State → Member W → Member W
  given d c b = record b { manager = record (b.manager) { database = d; cache = c } }

  abbrev pub share : Member W → List (Member W) → List (Member W)
  share b members = map (given b.manager.database b.manager.cache) members

  -- One server at a place of the list works.
  unfoldable pub works_at : (Manager W → Option (Manager W)) → ℕ → List (Member W) → List (Member W)
  unfolding works
  works_at f i members = elim (nth i members) [
    | none ↦ members
    | some b ↦ share (works f b) (put i (works f b) members)
  ]

  -- `subscribeToRedis` hands the document to `processRedisMessages`.
  unfoldable pub delivered : Published → Manager W → Option (Manager W)
  unfolding process_redis_message
  delivered p m =
      if m.has_redis && is_subscribed p.channel then process_redis_message p.payload m else some m

  abbrev pub document : ℕ → Option (Member W) → Option Published
  document k none = none
  document k (some b) = nth k b.manager.published

  unfoldable pub turn : Turn → List (Member W) → List (Member W)
  unfolding works_at step delivered
  turn (acts i e) members = works_at (step e) i members
  turn (relays i k j) members = elim (document k (nth i members)) [
    | none ↦ members
    | some p ↦ works_at (delivered p) j members
  ]

  unfoldable pub turns : List Turn → List (Member W) → List (Member W)
  unfolding turn
  turns [] members = members
  turns (t ∷ ts) members = turns ts (turn t members)

-- Servers of these names that have just started, with Redis.
unfoldable pub start_fleet :
    (W : Outside) → W.database.State → W.cache.State → List Text → List (Member W)
unfolding new_manager
start_fleet W d c names =
    map (λ name. record { manager = new_manager W d c true name; up = true }) names
