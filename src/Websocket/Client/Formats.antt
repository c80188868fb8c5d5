-- ===== src/Websocket/Client/Formats.antt =====
-- The formats of a chat message that `ReadPump` takes (internal/websocket/client.go).
use pigeongram_chat.Base.{◌≡◌, refl, [], ◌∷◌, nat_eq, list_eq, list_beq}
use pigeongram_chat.Base.Text.{Text, bytes}
use pigeongram_chat.Json.{Json, str, obj, end, field}
use pigeongram_chat.Json.Structs.{decode_text, decode_named, decode_typed}
use pigeongram_chat.Websocket.Client.{read_text, read_frame, checked, payload_text}

-- The four ways to write a message with the text `t`.
abbrev pub text_object : Text → Json
text_object t = obj (field (bytes "text") (str t) end)

abbrev pub typed_object : Text → Json → Json
typed_object type data' = obj (field (bytes "type") (str type) (field (bytes "data") data' end))

read_text_frame : (own t : Text) → read_frame own (str t) ≡ checked (t, own)
unfolding read_frame read_text decode_typed decode_text decode_named list_beq
read_text_frame own [] = refl
read_text_frame own (c ∷ t) = refl

-- A text sent as a string, as an object with `text`, as a `message` with an object for data or as a
-- `chat` with a string for data makes the same frame.
read_frame_formats :
    (own t : Text)
    → (read_frame own (text_object t) ≡ read_frame own (str t))
      × (read_frame own (typed_object (bytes "message") (text_object t)) ≡ read_frame own (str t))
      × (read_frame own (typed_object (bytes "chat") (str t)) ≡ read_frame own (str t))
unfolding read_frame read_text decode_typed decode_text decode_named payload_text list_beq
read_frame_formats own [] = (refl, refl, refl)
read_frame_formats own (c ∷ t) = (refl, refl, refl)
