-- ===== src/Websocket/Manager/Cluster.antt =====
-- What the manager hands to Redis and takes from it (`publishToRedis`, `publishFileEventToRedis`,
-- `processRedisMessages` of internal/websocket/manager.go). A message that `Marshal` refuses, which
-- takes a year after 9999, is not modelled.
use mathlib.Core.Option
use pigeongram_chat.Base.{
  ℕ, Option, none, some, [], ◌∷◌, ◌++◌, ◌==◌, nat_eq, list_eq, if◌then◌else◌,
}
use pigeongram_chat.Base.Text.{Text, bytes}
use pigeongram_chat.Models.{Message}
use pigeongram_chat.Json.{
  Json, null, num, str, obj, end, field, into_string, into_struct, into_fields, names,
}
use pigeongram_chat.Json.Structs.{TimeText, encode_message, decode_message}
use pigeongram_chat.Websocket.Channels.{
  FileInfo, EventFile, info, info_pointer, key_only, decoded, FileEventData,
}
use pigeongram_chat.Websocket.Client.{of_payload}
use pigeongram_chat.Websocket.Manager.{
  Outside, Manager, broadcast_to_local_clients, broadcast_file_event,
}

abbrev info_json : TimeText → FileInfo → Json
info_json c f = obj (
    field (bytes "name") (str f.name) (
      field (bytes "size") (num f.size) (
        field (bytes "uploadedAt") (str (c.format_time f.uploaded_at)) (
          field (bytes "contentType") (str f.content_type) (
            field (bytes "uploaderId") (str f.uploader_id)
              (field (bytes "chatId") (str f.chat_id) (field (bytes "key") (str f.key) end)))))))

abbrev file_json : TimeText → EventFile → Json
file_json c (info f) = info_json c f
file_json c (info_pointer f) = info_json c f
file_json c (key_only k) = obj (field (bytes "key") (str k) end)
file_json c (decoded j) = j

unfoldable pub encode_file_event : TimeText → FileEventData → Json
encode_file_event c e = obj (
    field (bytes "eventType") (str e.event_type) (
      field (bytes "chatId") (str e.chat_id) (
        field (bytes "file") (file_json c e.file) (
          field (bytes "username") (str e.username) (
            field (bytes "owner") (str e.owner)
              (field (bytes "timestamp") (str (c.format_time e.timestamp)) end))))))

event_time : TimeText → Json → ℕ → Option ℕ
event_time c null old = some old
event_time c (str t) old = c.parse_time t
event_time c _ old = none

set_event : TimeText → Text → Json → FileEventData → Option FileEventData
unfolding event_time
set_event c key v e =
    if names (bytes "eventtype") key
    then Option.map (λ t. record e { event_type = t }) (into_string v e.event_type)
    else if names (bytes "chatid") key
    then Option.map (λ t. record e { chat_id = t }) (into_string v e.chat_id)
    else if names (bytes "file") key
    then some (record e { file = decoded v })
    else if names (bytes "username") key
    then Option.map (λ t. record e { username = t }) (into_string v e.username)
    else if names (bytes "owner") key
    then Option.map (λ t. record e { owner = t }) (into_string v e.owner)
    else if names (bytes "timestamp") key
    then Option.map (λ t. record e { timestamp = t }) (event_time c v e.timestamp)
    else some e

unfoldable pub decode_file_event : TimeText → Json → Option FileEventData
unfolding set_event names into_fields
decode_file_event c j = into_struct (set_event c) j (record {
  event_type = [];
  chat_id = [];
  file = decoded null;
  username = [];
  owner = [];
  timestamp = 0;
})

-- `struct { ServerID string; Data []byte }` as a document: bytes are written as a base64 string.
abbrev pub wrapped : Text → Text → Json
wrapped server_id text =
    obj (field (bytes "server_id") (str server_id) (field (bytes "data") (str text) end))

-- `struct { ServerID string; Data json.RawMessage }`, which takes the data as it stands.
pub record Envelope : Type 0 where
  pub server_id : Text
  pub payload : Option Json

set_envelope : Text → Json → Envelope → Option Envelope
set_envelope key v s =
    if names (bytes "server_id") key
    then Option.map (λ t. record s { server_id = t }) (into_string v s.server_id)
    else if names (bytes "data") key
    then some (record s { payload = some v })
    else some s

unfoldable pub decode_envelope : Json → Option Envelope
unfolding set_envelope names into_fields
decode_envelope j = into_struct set_envelope j (record { server_id = []; payload = none })

module _ {W : Outside} where
  -- The document that goes out on a channel; a failure of Redis is only logged.
  unfoldable pub publish : Text → Json → Manager W → Manager W
  publish channel j m =
      if m.has_redis
      then record m {
        published =
            m.published
            ++ (record {
              channel = channel;
              payload = wrapped m.server_id (W.base64 (W.texts.print j));
            }
                ∷ []);
      }
      else m

  unfoldable pub publish_to_redis : Message → Manager W → Manager W
  unfolding publish
  publish_to_redis message m = publish (bytes "chat:messages") (encode_message W.times message) m

  unfoldable pub publish_file_event : FileEventData → Manager W → Manager W
  unfolding publish
  publish_file_event event m = publish (bytes "chat:files") (encode_file_event W.times event) m

  -- The data of an envelope from another server: a chat message, else a file event, else nothing.
  unfoldable pub receive : Option Json → Manager W → Option (Manager W)
  receive p m = elim (of_payload (decode_message W.times) p) [
    | some message ↦ broadcast_to_local_clients message m
    | none ↦ elim (of_payload (decode_file_event W.times) p) [
      | some event ↦ broadcast_file_event event m
      | none ↦ some m
    ]
  ]

  -- A round of `processRedisMessages`, on a document
  unfoldable pub process_redis_message : Json → Manager W → Option (Manager W)
  unfolding receive
  process_redis_message j m = elim (decode_envelope j) [
    | none ↦ some m
    | some e ↦ if e.server_id == m.server_id then some m else receive e.payload m
  ]
