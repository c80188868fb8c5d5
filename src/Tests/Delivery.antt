-- ===== src/Tests/Delivery.antt =====
-- The theorems on the way of messages to clients, at concrete inputs.
use pigeongram_chat.Base.{
  ℕ, ◌≡◌, refl, some, List, [], ◌∷◌, nat_eq, nat_beq_iff, arith, any, list_beq, list_eq,
}
use pigeongram_chat.Base.Text.{bytes, trim_space}
use pigeongram_chat.Base.Dict.{lookup}
use pigeongram_chat.Websocket.Channels.{FileEventData, key_only}
use pigeongram_chat.Websocket.Client.{
  read_text, read_frame, cut, checked, Client, Channel, from_send, from_file_events, from_online,
}
use pigeongram_chat.Websocket.Client.Writes.{written}
use pigeongram_chat.Websocket.Manager.{
  Manager, send_history, save_message, update_cache, member, broadcast_to_local_clients,
  broadcast_file_event, broadcast_online_users,
}
use pigeongram_chat.Websocket.Talk.{message_of, reads, reads-arrives}
use pigeongram_chat.Json.{Json, str, obj, end, field}
use pigeongram_chat.Json.Structs.{decode_typed, decode_text}
use pigeongram_chat.Websocket.Manager.Run.{run, step, takes_message}
use pigeongram_chat.Websocket.Manager.Invariant.{IsValid}
use pigeongram_chat.Websocket.Manager.Ending.{run_in, run_in-ends}
use pigeongram_chat.Websocket.Manager.Orders.{Alike, broadcasts-any_order}
use pigeongram_chat.Tests.World.{world, lobby, lobby-IsValid, hello, connection}

abbrev turns : List Channel
turns = from_online ∷ from_send ∷ from_file_events ∷ []

-- The frame names another author.
abbrev frame : Json
frame =
    obj
      (field (bytes "username") (str (bytes "bob")) (field (bytes "text") (str (bytes " hi ")) end))

reads-arrives_example :
    (m' : Manager world) × (step (takes_message 9) (reads 5 (connection 1) frame lobby) ≡ some m')
    × (c' : Client) × (lookup 2 m'.heap ≡ some c')
    × (written turns c' ≡ message_of (bytes "alice") (bytes "hi") 5 ∷ [])
unfolding member lookup read_frame list_beq cut checked trim_space decode_typed decode_text
    read_text
reads-arrives_example =
    reads-arrives 5 9 (connection 1) frame (bytes "alice") (bytes "hi") lobby 2 (connection 2) turns
      lobby-IsValid refl refl refl (omega arith) refl refl refl (omega arith)

abbrev notice : FileEventData
notice = record {
  event_type = bytes "delete";
  chat_id = bytes "general";
  file = key_only (bytes "k");
  username = bytes "alice";
  owner = bytes "alice";
  timestamp = 5;
}

swapped : (q : ℕ) → member q (1 ∷ 2 ∷ []) ≡ member q (2 ∷ 1 ∷ [])
unfolding member any
swapped q = ground (arith, nat_beq_iff 1 q, nat_beq_iff 2 q)

broadcasts-any_order_example :
    Alike
      (broadcast_to_local_clients hello lobby)
      (broadcast_to_local_clients hello (record lobby { clients = 2 ∷ 1 ∷ [] }))
    × Alike
        (broadcast_file_event notice lobby)
        (broadcast_file_event notice (record lobby { clients = 2 ∷ 1 ∷ [] }))
    × Alike
        (broadcast_online_users lobby)
        (broadcast_online_users (record lobby { clients = 2 ∷ 1 ∷ [] }))
unfolding member
broadcasts-any_order_example =
    broadcasts-any_order hello notice lobby (2 ∷ 1 ∷ []) lobby-IsValid (refl, (refl, tt)) swapped

-- The lobby with a history, a save and an update of the cache that have been started.
abbrev busy : Manager world
busy = record lobby { tasks = send_history 2 ∷ save_message hello ∷ update_cache hello ∷ [] }

run_in-ends_example :
    (m' : Manager world) × (run (run_in ((9, 1) ∷ (9, 1) ∷ (10, 0) ∷ [])) busy ≡ some m')
    × (m'.tasks ≡ [])
    × (m'.clients ≡ 1 ∷ 2 ∷ [])
    × IsValid m'
unfolding member
run_in-ends_example =
    run_in-ends ((9, 1) ∷ (9, 1) ∷ (10, 0) ∷ []) busy
      (record { inv = lobby-IsValid.inv; repo = lobby-IsValid.repo }) (refl, (tt, (tt, tt))) refl
