-- ===== src/Tests/Chat.antt =====
-- The theorems on clients and the manager at concrete inputs.
use pigeongram_chat.Base.{
  ℕ, ◌≡◌, refl, true, not, ◌&&◌, none, some, List, [], ◌∷◌, ◌++◌, ◌==◌, nat_eq, list_eq, arith, map,
  select, list_beq,
}
use mathlib.Core.List.{Perm}
use pigeongram_chat.Base.Text.{Text, bytes}
use pigeongram_chat.Base.Dict.{lookup, insert, erase}
use pigeongram_chat.Base.Sorting.{IsSorted}
use pigeongram_chat.Models.{Message}
use pigeongram_chat.Json.{Json, str, obj, field, end}
use pigeongram_chat.Json.Structs.{EditRequest}
use pigeongram_chat.Cache.{found}
use pigeongram_chat.Cache.Memory.{get_recent_messages, new_memory_cache}
use pigeongram_chat.Cache.Memory.Lawful.{memory_cache, memory_cache-IsLawful}
use pigeongram_chat.Repository.Messages
use pigeongram_chat.Websocket.Client.{read_pump}
use pigeongram_chat.Websocket.Client.Frames.{IsInbox, empty_inbox, read_pump-posts}
use pigeongram_chat.Websocket.History.{
  row_message, has_text, with_defaults, history_of, exchange_sort, valid_messages,
}
use pigeongram_chat.Websocket.History.Order.{history_of-IsSorted}
use pigeongram_chat.Websocket.Channels.{FileEventData, key_only}
use pigeongram_chat.Websocket.Manager.{
  broadcast_to_local_clients, send_message, Manager, save_message, update_cache, member, unregister,
  remove, dropped, close, broadcast_online_users, deliver, offline, send_online,
}
use pigeongram_chat.Websocket.Manager.Cases.{handle_message, handle_edit, edited_message}
use pigeongram_chat.Websocket.Manager.Tasks.{
  hit_or_miss, from_rows, gather, run_history, run_update_cache,
}
use pigeongram_chat.Websocket.Manager.Delivery.{Sends, handle_message-Sends, handle_edit-refused}
use pigeongram_chat.Websocket.Manager.Caching.{hundred_newest, run_update_cache-appends}
use pigeongram_chat.Websocket.Manager.Caching.Newcomers.{handle_edit-hides}
use pigeongram_chat.Websocket.Client.{Client}
use pigeongram_chat.Websocket.Manager.Online.{unregister-forgets, run_history-late}
use pigeongram_chat.Tests.World.{world, lobby, lobby-IsValid, hello, connection}

handle_message-Sends_example :
    Sends
      (with_defaults 5 hello)
      lobby
      (save_message (with_defaults 5 hello) ∷ update_cache (with_defaults 5 hello) ∷ [])
      (handle_message 5 hello lobby)
handle_message-Sends_example = handle_message-Sends 5 hello lobby lobby-IsValid refl

abbrev request : Text → EditRequest
request name = record { message_id = 9; new_text = bytes "hi"; username = name }

handle_edit-refused_example : handle_edit 5 (request (bytes "bob")) lobby ≡ some lobby
unfolding list_beq
handle_edit-refused_example = handle_edit-refused 5 (request (bytes "bob")) lobby lobby-IsValid refl

-- The state after an edit.
abbrev told : ℕ → Client
told r = record (connection r) { send = edited_message 5 (request (bytes "alice")) ∷ [] }

abbrev edited : Manager world
edited = record lobby {
  heap = (1, told 1) ∷ (2, told 2) ∷ [];
  cache = (memory_cache.invalidate_messages lobby.cache).1;
}

handle_edit-hides_example :
    history_of 5 (gather 5 (run_update_cache 5 hello edited)).0 ≡ with_defaults 5 hello ∷ []
unfolding Messages.update_message list_beq handle_edit broadcast_to_local_clients deliver lookup
    send_message insert has_text
handle_edit-hides_example =
    handle_edit-hides memory_cache-IsLawful 5 (λ ms t. refl) (request (bytes "alice")) hello lobby
      edited refl refl refl refl refl (omega arith) refl

-- A frame that names somebody else.
abbrev forged : Json
forged =
    obj (field (bytes "username") (str (bytes "bob")) (field (bytes "text") (str (bytes "hi")) end))

read_pump-posts_example :
    IsInbox (bytes "alice") (read_pump (connection 1) ((5, forged) ∷ []) empty_inbox)
    × ((read_pump (connection 1) ((5, forged) ∷ []) empty_inbox).leaving ≡ connection 1 ∷ [])
read_pump-posts_example = read_pump-posts (connection 1) ((5, forged) ∷ [])

-- Two messages in the wrong order, and one without a text between them.
abbrev late : Message
late = record hello { timestamp = 8 }

abbrev mixed : List Message
mixed = late ∷ record hello { text = [] } ∷ hello ∷ []

history_of-IsSorted_example :
    IsSorted (λ m. m.timestamp) (history_of 9 mixed)
    × Perm (history_of 9 mixed) (map (with_defaults 9) (select has_text mixed))
history_of-IsSorted_example = history_of-IsSorted 9 mixed

run_update_cache-appends_example :
    found (memory_cache.get_recent_messages 5 (run_update_cache 5 hello lobby).cache).0
    ≡ hundred_newest (found (memory_cache.get_recent_messages 5 lobby.cache).0 ++ (hello ∷ []))
unfolding get_recent_messages new_memory_cache
run_update_cache-appends_example =
    run_update_cache-appends memory_cache-IsLawful 5 hello lobby refl (omega arith, tt) refl

abbrev removed : FileEventData
removed = record {
  event_type = bytes "delete";
  chat_id = bytes "general";
  file = key_only (bytes "chat-general/alice/1-a");
  username = bytes "alice";
  owner = bytes "alice";
  timestamp = 5;
}

-- The state after the second connection is gone: the first is still registered, nobody is online.
abbrev alone : Manager world
alone = record lobby {
  heap =
      (1, record (connection 1) { send_online = record { count = 0; users = [] } ∷ [] })
      ∷ (2, record (connection 2) { closed = true })
      ∷ [];
  clients = 1 ∷ [];
  online_users = [];
  metrics = record (lobby.metrics) { active_connections = 1; online_users = 0 };
}

unregister-forgets_example :
    (lookup (bytes "alice") alone.online_users ≡ none)
    × ((q : ℕ) → member q alone.clients ≡ (member q lobby.clients && not (q == 2)))
unfolding unregister lookup list_beq dropped member close broadcast_online_users deliver offline
    remove insert send_online erase
unregister-forgets_example = unregister-forgets 2 (connection 2) lobby alone refl refl

run_history-late_example : run_history 5 2 alone ≡ none
unfolding lookup gather history_of Messages.get_recent exchange_sort valid_messages hit_or_miss
    get_recent_messages new_memory_cache from_rows Messages.reverse_loop Messages.swap has_text
    row_message list_beq
run_history-late_example =
    run_history-late 5 2 (record (connection 2) { closed = true }) alone refl refl refl
