-- ===== src/Websocket/Manager.antt =====
-- The manager (internal/websocket/manager.go): its state, and one function for each case of the loop
-- of `Run`. A client is known by its address in a heap, since goroutines keep pointers to clients that
-- have left the manager's map. `none` is a panic: a send on a closed channel, a second close, or a
-- method of a nil repository. Goroutines that a case starts are pending tasks (Manager/Tasks).
pub mod Tasks
pub mod Cluster
pub mod Cases
pub mod Remote
pub mod Deliver
pub mod Invariant
pub mod Passing
pub mod Run
pub mod Safety
pub mod Online
pub mod Delivery
pub mod Arrival
pub mod Ending
pub mod Counting
pub mod Orders
pub mod Caching
use pigeongram_chat.Base.{
  ℕ, suc, ◌+◌, ◌-◌, Bool, true, false, not, ◌&&◌, Option, none, some, List, [], ◌∷◌, ◌++◌, ◌==◌,
  nat_eq, list_eq, ltb, if◌then◌else◌, length, is_empty, any, select,
}
use pigeongram_chat.Base.Text.{Text, bytes}
use pigeongram_chat.Base.Dict
use pigeongram_chat.Base.Dict.{Dict}
use pigeongram_chat.Base.Result.{Result, ok, err}
use pigeongram_chat.Models.{Message}
use pigeongram_chat.Json.{Json, Fields, null, num, str, obj, end, field}
use pigeongram_chat.Json.Structs.{TimeText, JsonText, EditRequest, encode_message}
use pigeongram_chat.Cache.{Cache}
use pigeongram_chat.Repository.{Database}
use pigeongram_chat.Websocket.Channels.{
  FileInfo, EventFile, info, info_pointer, key_only, FileEventData, OnlineData, offer, has_room,
}
use pigeongram_chat.Websocket.Client.{Client}
use pigeongram_chat.Websocket.History.{with_defaults}

-- What the manager uses and does not implement.
pub record Outside : Type 1 where
  pub cache : Cache
  pub database : Database
  pub times : TimeText
  pub texts : JsonText
  -- the text of a `[]byte` in a document
  pub base64 : Text → Text

pub record Metrics : Type 0 where
  pub active_connections : ℕ
  pub online_users : ℕ
  pub messages_total : ℕ
  pub files_uploaded_total : ℕ
  pub files_size_bytes : ℕ
  pub send_queue_full : ℕ
  pub file_queue_full : ℕ
  pub cache_hits : ℕ
  pub cache_misses : ℕ
  pub cache_updates : ℕ
  pub cache_sets : ℕ
  pub creates : ℕ
  pub create_errors : ℕ
  pub total_users : ℕ
  pub total_messages : ℕ

-- A goroutine that has been started and has not run yet.
pub data Task : Type 0 where
  send_history : ℕ → Task
  save_message : Message → Task
  update_cache : Message → Task

-- A message on a channel of Redis.
pub record Published : Type 0 where
  pub channel : Text
  pub payload : Json

pub record Manager (W : Outside) : Type 0 where
  pub heap : Dict ℕ Client
  pub clients : List ℕ
  pub online_users : Dict Text ℕ
  pub broadcast : List Message
  pub file_events : List FileEventData
  pub edits : List EditRequest
  pub has_msg_repo : Bool
  pub has_user_repo : Bool
  pub database : W.database.State
  pub has_cache : Bool
  pub cache : W.cache.State
  pub has_redis : Bool
  pub published : List Published
  pub server_id : Text
  pub metrics : Metrics
  pub tasks : List Task

unfoldable pub member : ℕ → List ℕ → Bool
unfolding any
member r refs = any (λ x. x == r) refs

unfoldable pub remove : ℕ → List ℕ → List ℕ
unfolding select
remove r refs = select (λ x. not (x == r)) refs

-- A send in a `select` with a default: the client afterwards, and whether the channel was full.
abbrev pub Send : Type 0
Send = Client → Option (Client × Bool)

unfoldable pub send_message : Message → Send
send_message m c =
    if c.closed
    then none
    else some (record c { send = offer 256 m c.send }, not (has_room 256 c.send))

unfoldable pub send_file_event : FileEventData → Send
send_file_event e c =
    if c.closed
    then none
    else some (
      record c { send_file_event = offer 32 e c.send_file_event },
      not (has_room 32 c.send_file_event),
    )

unfoldable pub send_online : OnlineData → Send
send_online d c =
    if c.closed
    then none
    else some (record c { send_online = offer 8 d c.send_online }, not (has_room 8 c.send_online))

-- `for client := range m.Clients { select ... }`: the heap afterwards and the number of full channels.
unfoldable pub deliver : Send → List ℕ → Dict ℕ Client → Option (Dict ℕ Client × ℕ)
deliver send [] h = some (h, 0)
deliver send (r ∷ refs) h = elim (Dict.lookup r h) [
  | none ↦ none
  | some c ↦ elim (send c) [
    | none ↦ none
    | some (c', full) ↦ elim (deliver send refs (Dict.insert r c' h)) [
      | none ↦ none
      | some (h', n) ↦ some (h', if full then suc n else n)
    ]
  ]
]

-- A map's entry for a client that is set once more stays one entry.
unfoldable pub add_ref : ℕ → List ℕ → List ℕ
unfolding member
add_ref r refs = if member r refs then refs else refs ++ (r ∷ [])

-- A client after the three channels are closed.
unfoldable pub close : Client → Option Client
close c = if c.closed then none else some (record c { closed = true })

module _ {W : Outside} where
  -- `broadcastOnlineUsers`
  unfoldable pub broadcast_online_users : Manager W → Option (Manager W)
  broadcast_online_users m =
      let users = Dict.keys m.online_users in
      elim (deliver (send_online (record { count = length users; users = users })) m.clients
        m.heap) [ none ↦ none | some (h, n) ↦ some (record m { heap = h }) ]

  -- `broadcastToLocalClients`
  unfoldable pub broadcast_to_local_clients : Message → Manager W → Option (Manager W)
  broadcast_to_local_clients message m = elim (deliver (send_message message) m.clients m.heap) [
    | none ↦ none
    | some (h, n) ↦ some (record m {
      heap = h;
      metrics = record (m.metrics) { send_queue_full = m.metrics.send_queue_full + n };
    })
  ]

  -- `broadcastFileEventToLocalClients`
  unfoldable pub broadcast_file_event : FileEventData → Manager W → Option (Manager W)
  broadcast_file_event event m = elim (deliver (send_file_event event) m.clients m.heap) [
    | none ↦ none
    | some (h, n) ↦ some (record m {
      heap = h;
      metrics = record (m.metrics) { file_queue_full = m.metrics.file_queue_full + n };
    })
  ]

  -- `case client := <-m.Register`, the state before the list of users goes out
  unfoldable pub joined : ℕ → Client → Manager W → Manager W
  joined r client m =
      let online = Dict.insert client.username r m.online_users in
      record m {
        clients = add_ref r m.clients;
        online_users = online;
        metrics = record (m.metrics) {
          active_connections = m.metrics.active_connections + 1;
          online_users = length online;
        };
      }

  unfoldable pub register : ℕ → Manager W → Option (Manager W)
  register r m = elim (Dict.lookup r m.heap) [
    | none ↦ none
    | some client ↦ elim (broadcast_online_users (joined r client m)) [
      | none ↦ none
      | some m' ↦ some (record m' { tasks = m'.tasks ++ (send_history r ∷ []) })
    ]
  ]

  -- `case client := <-m.Unregister`: the map and the channels, then the list of users
  unfoldable pub dropped : ℕ → Client → Manager W → Option (Manager W)
  dropped r client m =
      if member r m.clients
      then elim (close client) [
        | none ↦ none
        | some shut ↦ some (record m {
          clients = remove r m.clients;
          heap = Dict.insert r shut m.heap;
          metrics = record (m.metrics) { active_connections = m.metrics.active_connections - 1 };
        })
      ]
      else some m

  unfoldable pub offline : Text → Manager W → Manager W
  offline username m =
      let online = Dict.erase username m.online_users in
      record m {
        online_users = online;
        metrics = record (m.metrics) { online_users = length online };
      }

  unfoldable pub unregister : ℕ → Manager W → Option (Manager W)
  unregister r m = elim (Dict.lookup r m.heap) [
    | none ↦ none
    | some client ↦ elim (dropped r client m) [
      | none ↦ none
      | some m' ↦ broadcast_online_users (offline client.username m')
    ]
  ]
