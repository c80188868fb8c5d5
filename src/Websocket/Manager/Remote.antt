-- ===== src/Websocket/Manager/Remote.antt =====
-- What one server publishes and another receives.
use pigeongram_chat.Base.{
  ◌≡◌, refl, true, Option, some, [], ◌∷◌, ◌++◌, ◌==◌, nat_eq, list_eq, if-both, list_beq,
}
use pigeongram_chat.Base.Text.{Text}
use pigeongram_chat.Models.{Message}
use pigeongram_chat.Json.{Json, str, into_fields}
use pigeongram_chat.Json.Structs.{decode_message}
use pigeongram_chat.Websocket.Channels.{FileEventData}
use pigeongram_chat.Websocket.Manager.{Outside, Manager, Published}
use pigeongram_chat.Websocket.Manager.Cluster.{
  wrapped, decode_envelope, decode_file_event, publish, publish_to_redis, publish_file_event,
  receive, process_redis_message,
}

-- A document that no server does anything about.
abbrev IsIgnored : Outside → Published → Type 0
IsIgnored W p = (l : Manager W) → process_redis_message p.payload l ≡ some l

decode_envelope-wrapped :
    (server_id text : Text)
    → decode_envelope (wrapped server_id text)
      ≡ some (record { server_id = server_id; payload = some (str text) })
unfolding decode_envelope into_fields list_beq
decode_envelope-wrapped server_id text = refl

module _ {W : Outside} where
  receive-str : (text : Text) (l : Manager W) → receive (some (str text)) l ≡ some l
  unfolding receive decode_message decode_file_event
  receive-str text l = refl

  pub process_redis_message-wrapped :
      (server_id text : Text) (l : Manager W)
      → process_redis_message (wrapped server_id text) l ≡ some l
  unfolding process_redis_message
  process_redis_message-wrapped server_id text l =
      rw (decode_envelope-wrapped server_id text, process_redis_message)
        (if-both (λ (o : Option (Manager W)). o ≡ some l) (server_id == l.server_id) refl
          (receive-str text l))

  publish-IsIgnored :
      (channel : Text) (j : Json) (m : Manager W)
      → m.has_redis ≡ true
      → (p : Published) × ((publish channel j m).published ≡ m.published ++ (p ∷ []))
        × IsIgnored W p
  unfolding publish
  publish-IsIgnored channel j m e = (
    record { channel = channel; payload = wrapped m.server_id (W.base64 (W.texts.print j)) },
    rw e refl,
    λ l. process_redis_message-wrapped m.server_id (W.base64 (W.texts.print j)) l,
  )

  -- With Redis, each chat message and each file event goes out as one document, and every server that
  -- receives the document, this one or another, whatever its state, does nothing about it: no client of
  -- it gets the message.
  publish_to_redis-IsIgnored :
      (message : Message) (event : FileEventData) (m : Manager W)
      → m.has_redis ≡ true
      → ((p : Published) × ((publish_to_redis message m).published ≡ m.published ++ (p ∷ []))
          × IsIgnored W p)
        × ((p : Published) × ((publish_file_event event m).published ≡ m.published ++ (p ∷ []))
            × IsIgnored W p)
  unfolding publish_to_redis publish_file_event
  publish_to_redis-IsIgnored message event m e =
      (publish-IsIgnored _ _ m e, publish-IsIgnored _ _ m e)
