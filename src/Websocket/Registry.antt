-- ===== src/Websocket/Registry.antt =====
-- The registry of servers in Redis (internal/websocket/server_registry.go): registration, the heartbeat
-- and the list of active servers. The Redis server is a parameter.
pub mod Alive
use pigeongram_chat.Base.{
  ℕ, zero, suc, ◌+◌, ◌*◌, ◌≤◌, ◌<◌, ◌≡◌, Option, none, some, List, [], ◌∷◌, ◌++◌, ◌==◌, list_eq,
  nat_eq, Bool, true, false, if◌then◌else◌, drop, length, ltb, any, All, not, ◌&&◌,
}
use pigeongram_chat.Base.Text.{Text, bytes, has_prefix}
use pigeongram_chat.Base.Dict.{Dict}
use pigeongram_chat.Base.Time.{second}
use pigeongram_chat.Base.Result.{Result, ok, err}

-- The commands of Redis that the registry uses, each with the time at which the server runs it: `HSET`,
-- `EXPIRE`, `DEL`, `KEYS` with a prefix, and `EXISTS`.
pub record HashServer : Type 1 where
  pub State : Type 0
  pub hset : Text → Dict Text Text → ℕ → State → Result Text (Unit {0}) × State
  pub expire : Text → ℕ → ℕ → State → Result Text (Unit {0}) × State
  pub del : Text → ℕ → State → Result Text (Unit {0}) × State
  pub keys : Text → ℕ → State → Result Text (List Text)
  pub exists : Text → ℕ → State → Result Text ℕ

-- `ServerRegistry`
pub record ServerRegistry : Type 0 where
  pub server_id : Text
  pub ttl : ℕ

-- `NewServerRegistry`
unfoldable pub new_server_registry : Text → ServerRegistry
new_server_registry server_id = record { server_id = server_id; ttl = 10 * second }

abbrev pub prefix : Text
prefix = bytes "server:"

abbrev pub registry_key : Text → Text
registry_key server_id = prefix ++ server_id

-- The hash that a registration writes; `stamp` is a time in RFC 3339.
abbrev pub server_info : Text → Text → Dict Text Text
server_info server_id stamp =
    (bytes "server_id", server_id)
    ∷ (bytes "started_at", stamp)
    ∷ (bytes "last_seen", stamp)
    ∷ (bytes "status", bytes "active")
    ∷ []

-- `err == nil && exists > 0`
abbrev pub is_alive : Result Text ℕ → Bool
is_alive (ok n) = ltb 0 n
is_alive (err e) = false

-- What servers do to the registry, each with its time.
pub data Event : Type 0 where
  registers : ServerRegistry → ℕ → Event
  beats : ServerRegistry → ℕ → Event
  leaves : ServerRegistry → ℕ → Event

module _ (H : HashServer) (stamp : ℕ → Text) where
  -- The expiry follows if the hash was written.
  unfoldable pub then_expire :
      ServerRegistry → ℕ → Result Text (Unit {0}) × H.State → Result Text (Unit {0}) × H.State
  then_expire r now (ok _, s) = H.expire (registry_key r.server_id) r.ttl now s
  then_expire r now (err e, s) = (err e, s)

  -- `Register`; without an error the heartbeat is started.
  unfoldable pub register : ServerRegistry → ℕ → H.State → Result Text (Unit {0}) × H.State
  unfolding then_expire
  register r now s =
      then_expire r now
        (H.hset (registry_key r.server_id) (server_info r.server_id (stamp now)) now s)

  -- One tick of `heartbeat`, which looks at no error.
  unfoldable pub heartbeat : ServerRegistry → ℕ → H.State → H.State
  heartbeat r now s =
      let (_, s1) = H.hset (registry_key r.server_id) ((bytes "last_seen", stamp now) ∷ []) now s in
      (H.expire (registry_key r.server_id) r.ttl now s1).1

  -- `Unregister`
  unfoldable pub unregister : ServerRegistry → ℕ → H.State → Result Text (Unit {0}) × H.State
  unregister r now s = H.del (registry_key r.server_id) now s

  -- The loop of `GetActiveServers`.
  unfoldable pub alive_servers : ℕ → H.State → List Text → List Text
  alive_servers now s [] = []
  alive_servers now s (key ∷ keys) =
      let rest = alive_servers now s keys in
      if is_alive (H.exists key now s) then drop (length prefix) key ∷ rest else rest

  -- `GetActiveServers`
  unfoldable pub get_active_servers : ℕ → H.State → Result Text (List Text)
  unfolding alive_servers
  get_active_servers now s = elim (H.keys prefix now s) [
    | err e ↦ err e
    | ok keys ↦ ok (alive_servers now s keys)
  ]

  unfoldable pub run_event : Event → H.State → H.State
  unfolding register heartbeat unregister
  run_event (registers r now) s = (register r now s).1
  run_event (beats r now) s = heartbeat r now s
  run_event (leaves r now) s = (unregister r now s).1

  unfoldable pub run_events : List Event → H.State → H.State
  unfolding run_event
  run_events [] s = s
  run_events (e ∷ events) s = run_events events (run_event e s)

-- What the life of a key is: there is no key, a key without an expiry, or one with a deadline.
pub data Life : Type 0 where
  gone : Life
  lasting : Life
  until : ℕ → Life

abbrev pub lives : ℕ → Life → Bool
lives now gone = false
lives now lasting = true
lives now (until d) = ltb now d

abbrev pub written : ℕ → Life → Life
written now l = if lives now l then l else lasting

abbrev pub limited : ℕ → ℕ → Life → Life
limited ttl now l = if lives now l then until (now + ttl) else gone

-- A Redis server that answers: `HSET` makes a key without an expiry or keeps the one that the key has,
-- `EXPIRE` sets a deadline on a key that is there, `DEL` removes the key, and the three concern no other
-- key. `KEYS` lists the keys with the prefix that are there, and `EXISTS` finds them.
pub record Expires (H : HashServer) : Type 0 where
  pub life : Text → H.State → Life
  pub hset_answers :
      (k : Text) (v : Dict Text Text) (now : ℕ) (s : H.State) → (H.hset k v now s).0 ≡ ok tt
  pub hset_life :
      (k : Text) (v : Dict Text Text) (now : ℕ) (s : H.State) (j : Text)
      → life j (H.hset k v now s).1 ≡ (if k == j then written now (life j s) else life j s)
  pub expire_life :
      (k : Text) (ttl now : ℕ) (s : H.State) (j : Text)
      → life j (H.expire k ttl now s).1 ≡ (if k == j then limited ttl now (life j s) else life j s)
  pub del_life :
      (k : Text) (now : ℕ) (s : H.State) (j : Text)
      → life j (H.del k now s).1 ≡ (if k == j then gone else life j s)
  pub keys_listed :
      (p : Text) (now : ℕ) (s : H.State)
      → (ks : List Text) × (H.keys p now s ≡ ok ks)
        × ((id : Text) → any (λ k. k == (p ++ id)) ks ≡ lives now (life (p ++ id) s))
        × All (λ k. (id : Text) × (k ≡ p ++ id)) ks
  pub exists_found :
      (k : Text) (now : ℕ) (s : H.State)
      → H.exists k now s ≡ ok (if lives now (life k s) then 1 else 0)

-- Whether a server that is listed until `d` renews its entry in time through the events, up to `now`,
-- and does not leave.
unfoldable pub in_time : Text → ℕ → List Event → ℕ → Bool
in_time id d [] now = ltb now d
in_time id d (registers r t ∷ events) now =
    if r.server_id == id
    then ltb t d && in_time id (t + r.ttl) events now
    else in_time id d events now
in_time id d (beats r t ∷ events) now =
    if r.server_id == id
    then ltb t d && in_time id (t + r.ttl) events now
    else in_time id d events now
in_time id d (leaves r t ∷ events) now =
    if r.server_id == id then false else in_time id d events now

-- No event of the server.
unfoldable pub is_silent : Text → List Event → Bool
is_silent id [] = true
is_silent id (registers r t ∷ events) = not (r.server_id == id) && is_silent id events
is_silent id (beats r t ∷ events) = not (r.server_id == id) && is_silent id events
is_silent id (leaves r t ∷ events) = not (r.server_id == id) && is_silent id events
