-- ===== src/Websocket/Manager/Tasks.antt =====
-- The goroutines that a case of `Run` starts: the history of a new client, a message into the
-- database, a message into the cache (internal/websocket/manager.go).
use pigeongram_chat.Base.{
  ℕ, ◌+◌, not, ◌&&◌, Option, none, some, List, [], ◌∷◌, ◌++◌, if◌then◌else◌, is_empty, map, nat_eq,
}
use pigeongram_chat.Base.Text.{Text}
use pigeongram_chat.Base.Dict
use pigeongram_chat.Base.Result.{Result, ok, err}
use pigeongram_chat.Models.{Message, MessageEntity}
use pigeongram_chat.Cache.Memory.{last_hundred}
use pigeongram_chat.Repository.{DbError}
use pigeongram_chat.Repository.Messages
use pigeongram_chat.Websocket.Client.{Client}
use pigeongram_chat.Websocket.History.{row_message, history_of}
use pigeongram_chat.Websocket.Manager.{
  Outside, Manager, Metrics, Task, send_history, save_message, update_cache, send_message,
}

-- The loop that sends the history.
unfoldable pub send_all : List Message → Client → Option Client
unfolding send_message
send_all [] c = some c
send_all (m ∷ ms) c = elim (send_message m c) [ none ↦ none | some (c', full) ↦ send_all ms c' ]

-- The list that `updateCache` stores, and the counter that it raises.
unfoldable pub appended : Result Text (Option (List Message)) → Message → List Message
appended (ok (some cached)) message = last_hundred (cached ++ (message ∷ []))
appended _ message = message ∷ []

unfoldable pub counted : Result Text (Option (List Message)) → Metrics → Metrics
counted (ok (some cached)) k = record k { cache_updates = k.cache_updates + 1 }
counted _ k = record k { cache_sets = k.cache_sets + 1 }

module _ {W : Outside} where
  -- What the read of the cache at the start of `sendMessageHistory` yields, and what is counted.
  unfoldable pub hit_or_miss :
      Result Text (Option (List Message)) → Manager W → List Message × Manager W
  hit_or_miss (ok (some ms)) m =
      (ms, record m { metrics = record (m.metrics) { cache_hits = m.metrics.cache_hits + 1 } })
  hit_or_miss _ m =
      ([], record m { metrics = record (m.metrics) { cache_misses = m.metrics.cache_misses + 1 } })

  unfoldable pub from_cache : ℕ → Manager W → List Message × Manager W
  from_cache now m =
      if m.has_cache
      then hit_or_miss (W.cache.get_recent_messages now m.cache).0
          (record m { cache = (W.cache.get_recent_messages now m.cache).1 })
      else ([], m)

  -- The rows of the database as messages, which go into the cache.
  unfoldable pub from_rows :
      ℕ → Result DbError (List MessageEntity) → Manager W → List Message × Manager W
  from_rows now (err e) m = ([], m)
  from_rows now (ok rows) m = (
    map row_message rows,
    (if m.has_cache && not (is_empty (map row_message rows))
        then record m {
          cache = (W.cache.set_recent_messages now (map row_message rows) m.cache).1;
          metrics = record (m.metrics) { cache_sets = m.metrics.cache_sets + 1 };
        }
        else m),
  )

  -- The database is asked if the cache had nothing.
  unfoldable pub from_database : ℕ → List Message × Manager W → List Message × Manager W
  from_database now (cached, m) =
      if is_empty cached && m.has_msg_repo
      then from_rows now (Messages.get_recent W.database 100 m.database) m
      else (cached, m)

  -- The messages that `sendMessageHistory` works on, and the state once it has them.
  unfoldable pub gather : ℕ → Manager W → List Message × Manager W
  unfolding from_cache from_database
  gather now m = from_database now (from_cache now m)

  -- `sendMessageHistory` for the client at an address
  unfoldable pub run_history : ℕ → ℕ → Manager W → Option (Manager W)
  run_history now r m = elim (Dict.lookup r (gather now m).1.heap) [
    | none ↦ none
    | some c ↦ elim (send_all (history_of now (gather now m).0) c) [
      | none ↦ none
      | some c' ↦ some (record ((gather now m).1) { heap = Dict.insert r c' (gather now m).1.heap })
    ]
  ]

  -- `saveMessageToDB`; the id is given to a copy of the message that nobody reads.
  unfoldable pub saved : Result DbError ℕ → Manager W → Manager W
  saved (err e) m = record m {
    metrics = record (m.metrics) { create_errors = m.metrics.create_errors + 1 };
  }
  saved (ok id) m = record m { metrics = record (m.metrics) { creates = m.metrics.creates + 1 } }

  unfoldable pub run_save : Message → Manager W → Manager W
  unfolding saved
  run_save message m =
      if m.has_msg_repo
      then saved (Messages.create W.database message m.database).0
          (record m { database = (Messages.create W.database message m.database).1 })
      else m

  -- `updateCache`
  unfoldable pub run_update_cache : ℕ → Message → Manager W → Manager W
  run_update_cache now message m =
      if m.has_cache
      then record m {
        cache =
            (W.cache.set_recent_messages now
              (appended (W.cache.get_recent_messages now m.cache).0 message)
              (W.cache.get_recent_messages now m.cache).1).1;
        metrics = counted (W.cache.get_recent_messages now m.cache).0 m.metrics;
      }
      else m

  unfoldable pub run_task : ℕ → Task → Manager W → Option (Manager W)
  run_task now (send_history r) m = run_history now r m
  run_task now (save_message message) m = some (run_save message m)
  run_task now (update_cache message) m = some (run_update_cache now message m)
