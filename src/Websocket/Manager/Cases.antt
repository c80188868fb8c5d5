-- ===== src/Websocket/Manager/Cases.antt =====
-- The cases of `Run` for messages, file events and edits, the periodic work, and `GetStats`
-- (internal/websocket/manager.go).
use pigeongram_chat.Base.{
  ℕ, ◌+◌, Bool, true, ◌&&◌, Option, none, some, [], ◌∷◌, ◌++◌, ◌==◌, nat_eq, list_eq, if◌then◌else◌,
  length, is_empty,
}
use pigeongram_chat.Base.Text.{Text, bytes}
use pigeongram_chat.Base.Result.{Result, ok, err}
use pigeongram_chat.Models.{Message}
use pigeongram_chat.Json.Structs.{EditRequest}
use pigeongram_chat.Repository.{DbError}
use pigeongram_chat.Repository.Messages
use pigeongram_chat.Repository.Users
use pigeongram_chat.Websocket.Channels.{EventFile, info, FileEventData}
use pigeongram_chat.Websocket.History.{with_defaults}
use pigeongram_chat.Websocket.Manager.{
  Outside, Manager, Metrics, save_message, update_cache, broadcast_to_local_clients,
  broadcast_file_event, broadcast_online_users,
}
use pigeongram_chat.Websocket.Manager.Cluster.{publish_to_redis, publish_file_event}

-- The counters take an upload whose file is a `FileInfo` by value.
abbrev pub file_metrics : FileEventData → EventFile → Metrics → Metrics
file_metrics e (info f) k =
    if e.event_type == bytes "upload"
    then record k {
      files_uploaded_total = k.files_uploaded_total + 1;
      files_size_bytes = k.files_size_bytes + f.size;
    }
    else k
file_metrics e _ k = k

-- The message that clients get after an edit.
abbrev pub edited_message : ℕ → EditRequest → Message
edited_message now e = record {
  id = e.message_id;
  username = e.username;
  text = e.new_text;
  timestamp = now;
  edited = true;
}

-- A count that failed leaves the gauge as it was.
abbrev total_or : Result DbError ℕ → ℕ → ℕ
total_or (ok n) old = n
total_or (err e) old = old

-- The map that `GetStats` returns
pub record Stats : Type 0 where
  pub stats_server_id : Text
  pub clients_count : ℕ
  pub online_count : ℕ
  pub redis_enabled : Bool
  pub broadcast_queue_size : ℕ
  pub file_events_queue_size : ℕ

module _ {W : Outside} where
  -- `case message := <-m.Broadcast`, at the time `now`
  unfoldable pub accepted : Message → Manager W → Manager W
  unfolding publish_to_redis
  accepted message m = publish_to_redis message (record m {
    metrics = record (m.metrics) { messages_total = m.metrics.messages_total + 1 };
    tasks = m.tasks ++ (save_message message ∷ update_cache message ∷ []);
  })

  unfoldable pub handle_message : ℕ → Message → Manager W → Option (Manager W)
  handle_message now message m =
      if is_empty message.text
      then some m
      else broadcast_to_local_clients (with_defaults now message)
          (accepted (with_defaults now message) m)

  -- `case fileEvent := <-m.FileEvents`
  unfoldable pub handle_file_event : FileEventData → Manager W → Option (Manager W)
  unfolding publish_file_event
  handle_file_event event m =
      broadcast_file_event event
        (publish_file_event event (record m { metrics = file_metrics event event.file m.metrics }))

  abbrev pub invalidated : Manager W → Manager W
  invalidated m =
      if m.has_cache then record m { cache = (W.cache.invalidate_messages m.cache).1 } else m

  -- What follows the update: nothing on an error, else the cache is cleared and the clients are told.
  unfoldable pub after_update :
      ℕ → EditRequest → Result DbError (Unit {0}) → Manager W → Option (Manager W)
  after_update now e (err _) m = some m
  after_update now e (ok _) m = broadcast_to_local_clients (edited_message now e) (invalidated m)

  -- `case edit := <-m.EditMessage`
  unfoldable pub handle_edit : ℕ → EditRequest → Manager W → Option (Manager W)
  unfolding after_update
  handle_edit now e m =
      let (r, s) =
        Messages.update_message W.database now e.message_id e.new_text e.username m.database in
      if m.has_msg_repo then after_update now e r (record m { database = s }) else none

  -- A tick of `broadcastOnlineUsersPeriodically`
  unfoldable pub online_tick : Manager W → Option (Manager W)
  online_tick m = elim (broadcast_online_users m) [
    | none ↦ none
    | some m' ↦ some (record m' {
      metrics = record (m'.metrics) {
        online_users = length m'.online_users;
        active_connections = length m'.clients;
      };
    })
  ]

  -- A tick of `collectDBStatsPeriodically`
  unfoldable pub stats_tick : Manager W → Manager W
  stats_tick m =
      if m.has_msg_repo && m.has_user_repo
      then record m {
        metrics = record (m.metrics) {
          total_users = total_or (Users.count W.database m.database) m.metrics.total_users;
          total_messages = total_or (Messages.count W.database m.database) m.metrics.total_messages;
        };
      }
      else m

  -- `GetStats`
  unfoldable pub get_stats : Manager W → Stats
  get_stats m = record {
    stats_server_id = m.server_id;
    clients_count = length m.clients;
    online_count = length m.online_users;
    redis_enabled = m.has_redis;
    broadcast_queue_size = length m.broadcast;
    file_events_queue_size = length m.file_events;
  }
