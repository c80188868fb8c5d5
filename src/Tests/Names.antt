-- ===== src/Tests/Names.antt =====
-- A frame that gives another author than the user who is connected.
use pigeongram_chat.Base.{◌≡◌, refl, [], ◌∷◌, true, nat_eq, list_eq}
use pigeongram_chat.Base.Text.{bytes}
use pigeongram_chat.Base.Dict.{lookup, insert}
use pigeongram_chat.Json.{Json, str, obj, end, field}
use pigeongram_chat.Cache.Memory.{new_memory_cache}
use pigeongram_chat.Websocket.Client.{Client}
use pigeongram_chat.Websocket.Manager.{
  Manager, send_history, deliver, broadcast_online_users, joined, register, add_ref, send_online,
}
use pigeongram_chat.Websocket.Manager.Run.{connects, new_manager, step}
use pigeongram_chat.Websocket.Talk.{reads}
use pigeongram_chat.Websocket.Authors.{Named, here, does, hears}
use pigeongram_chat.Websocket.Authors.Trusted.{talks-Named}
use pigeongram_chat.Tests.World.{world, connection}

abbrev forged : Json
forged =
    obj (field (bytes "username") (str (bytes "bob")) (field (bytes "text") (str (bytes "hi")) end))

abbrev start : Manager world
start = new_manager world tt (new_memory_cache 600) true (bytes "host-1")

abbrev told : Client
told = record (connection 1) {
  id = 2;
  connected_at = 2;
  send_online = record { count = 1; users = bytes "alice" ∷ [] } ∷ [];
}

abbrev one_joined : Manager world
one_joined = record start {
  heap = (1, told) ∷ [];
  clients = 1 ∷ [];
  online_users = (bytes "alice", 1) ∷ [];
  metrics = record (start.metrics) { active_connections = 1; online_users = 1 };
  tasks = send_history 1 ∷ [];
}

talks-Named_example : Named (λ u. u ≡ bytes "alice") (reads 5 told forged one_joined)
unfolding lookup step new_manager register insert broadcast_online_users deliver joined add_ref
    send_online
talks-Named_example =
    talks-Named {W = world} (λ u. u ≡ bytes "alice") tt (new_memory_cache 600) true (bytes "host-1")
      (reads 5 told forged one_joined)
      (hears 5 1 told forged (does {l = one_joined} (connects 1 2 (bytes "alice")) here refl refl)
        refl)
