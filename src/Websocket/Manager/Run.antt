-- ===== src/Websocket/Manager/Run.antt =====
-- The manager among the goroutines that use it (internal/websocket/manager.go, internal/websocket/client.go,
-- web/websocket.go): one event is one case of `Run`, one send of another goroutine, one pending task or
-- one round of a client's `WritePump`. A list of events is an interleaving.
use pigeongram_chat.Base.{ℕ, zero, suc, ◌≡◌, Bool, true, Option, none, some, List, [], ◌∷◌, nat_eq}
use pigeongram_chat.Base.Text.{Text}
use pigeongram_chat.Base.Dict
use pigeongram_chat.Models.{Message}
use pigeongram_chat.Json.{Json}
use pigeongram_chat.Json.Structs.{EditRequest}
use pigeongram_chat.Websocket.Channels.{FileEventData, offer}
use pigeongram_chat.Websocket.Client.{Client, new_client, Channel, write_round}
use pigeongram_chat.Websocket.Manager.{
  Outside, Manager, Metrics, Task, send_history, member, register, unregister,
}
use pigeongram_chat.Websocket.Manager.Cases.{
  handle_message, handle_file_event, handle_edit, online_tick, stats_tick,
}
use pigeongram_chat.Websocket.Manager.Cluster.{process_redis_message}
use pigeongram_chat.Websocket.Manager.Tasks.{run_task}

pub data Event : Type 0 where
  connects : ℕ → ℕ → Text → Event
  leaves : ℕ → Event
  takes_message : ℕ → Event
  takes_file_event : Event
  takes_edit : ℕ → Event
  receives : Json → Event
  ticks counts : Event
  posts_message : Message → Event
  posts_edit : EditRequest → Event
  posts_file_event : FileEventData → Event
  writes : ℕ → Channel → Event
  runs : ℕ → ℕ → Event

-- The pending task at an index, and those that are left without it.
unfoldable pub pick : ℕ → List Task → Option (Task × List Task)
pick i [] = none
pick zero (t ∷ ts) = some (t, ts)
pick (suc i) (t ∷ ts) = elim (pick i ts) [ none ↦ none | some (u, rest) ↦ some (u, t ∷ rest) ]

abbrev no_metrics : Metrics
no_metrics = record {
  active_connections = 0;
  online_users = 0;
  messages_total = 0;
  files_uploaded_total = 0;
  files_size_bytes = 0;
  send_queue_full = 0;
  file_queue_full = 0;
  cache_hits = 0;
  cache_misses = 0;
  cache_updates = 0;
  cache_sets = 0;
  creates = 0;
  create_errors = 0;
  total_users = 0;
  total_messages = 0;
}

-- `NewManager`, with the repositories and the cache that `main` always gives it.
unfoldable pub new_manager :
    (W : Outside) → W.database.State → W.cache.State → Bool → Text → Manager W
new_manager W database cache has_redis server_id = record {
  heap = [];
  clients = [];
  online_users = [];
  broadcast = [];
  file_events = [];
  edits = [];
  has_msg_repo = true;
  has_user_repo = true;
  database = database;
  has_cache = true;
  cache = cache;
  has_redis = has_redis;
  published = [];
  server_id = server_id;
  metrics = no_metrics;
  tasks = [];
}

module _ {W : Outside} where
  -- `WebSocketHandler` makes the client and sends it to `Register`.
  unfoldable pub connect : ℕ → ℕ → Text → Manager W → Option (Manager W)
  unfolding new_client
  connect r now username m =
      register r (record m { heap = Dict.insert r (new_client now username) m.heap })

  unfoldable pub write : ℕ → Channel → Manager W → Manager W
  write r channel m = elim (Dict.lookup r m.heap) [
    | none ↦ m
    | some c ↦ record m { heap = Dict.insert r (write_round channel c).1 m.heap }
  ]

  unfoldable pub step : Event → Manager W → Option (Manager W)
  unfolding connect write pick
  step (connects r now username) m = connect r now username m
  step (leaves r) m = unregister r m
  step (takes_message now) m = elim m.broadcast [
    | [] ↦ some m
    | message ∷ rest ↦ handle_message now message (record m { broadcast = rest })
  ]
  step takes_file_event m = elim m.file_events [
    | [] ↦ some m
    | event ∷ rest ↦ handle_file_event event (record m { file_events = rest })
  ]
  step (takes_edit now) m = elim m.edits [
    | [] ↦ some m
    | e ∷ rest ↦ handle_edit now e (record m { edits = rest })
  ]
  step (receives j) m = process_redis_message j m
  step ticks m = online_tick m
  step counts m = some (stats_tick m)
  step (posts_message message) m = some (record m { broadcast = offer 100 message m.broadcast })
  step (posts_edit e) m = some (record m { edits = offer 100 e m.edits })
  step (posts_file_event e) m = some (record m { file_events = offer 100 e m.file_events })
  step (writes r channel) m = some (write r channel m)
  step (runs now i) m = elim (pick i m.tasks) [
    | none ↦ some m
    | some (task, rest) ↦ run_task now task (record m { tasks = rest })
  ]

  unfoldable pub run : List Event → Manager W → Option (Manager W)
  run [] m = some m
  run (e ∷ es) m = elim (step e m) [ none ↦ none | some m' ↦ run es m' ]

  -- When an event may happen: a new client has a new address, an address that leaves is that of a
  -- client, and a history is sent only to a client that is still registered. The last is not the
  -- program's doing: it is the case that Manager/Online shows to be dangerous.
  abbrev pub TaskReady : Option (Task × List Task) → Manager W → Type 0
  TaskReady (some (send_history r, rest)) m = member r m.clients ≡ true
  TaskReady _ m = Unit {0}

  abbrev pub Ready : Event → Manager W → Type 0
  Ready (connects r now username) m = Dict.lookup r m.heap ≡ none
  Ready (leaves r) m = (c : Client) × (Dict.lookup r m.heap ≡ some c)
  Ready (runs now i) m = TaskReady (pick i m.tasks) m
  Ready _ m = Unit {0}

  -- The states that a manager comes to by events that are ready.
  pub data Reaches (m : Manager W) : Manager W → Type 0 where
    here : Reaches m m
    next : {k l : Manager W} (e : Event) → Reaches m k → Ready e k → step e k ≡ some l → Reaches m l
