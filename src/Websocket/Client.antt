-- ===== src/Websocket/Client.antt =====
-- A client (internal/websocket/client.go): its channels, and how `ReadPump` turns a frame into an
-- edit, a chat message or nothing.
pub mod Frames
pub mod Formats
pub mod Writes
use pigeongram_chat.Base.{
  ℕ, suc, Bool, true, false, not, ◌||◌, Option, none, some, List, [], ◌∷◌, ◌++◌, ◌==◌, nat_eq,
  list_eq, ltb, if◌then◌else◌, length, take, is_empty,
}
use pigeongram_chat.Base.Text.{Text, bytes, trim_space}
use pigeongram_chat.Models.{Message}
use pigeongram_chat.Json.{Json}
use pigeongram_chat.Json.Structs.{
  decode_string, decode_text, decode_typed, decode_named, decode_edit, Typed, Named, EditRequest,
}
use pigeongram_chat.Websocket.Channels.{FileEventData, OnlineData, offer}

pub record Client : Type 0 where
  pub id : ℕ
  pub username : Text
  pub send : List Message
  pub send_file_event : List FileEventData
  pub send_online : List OnlineData
  pub closed : Bool
  pub connected_at : ℕ

-- `NewClient`; the id is the time in nanoseconds. The connection is outside the model.
unfoldable pub new_client : ℕ → Text → Client
new_client now username = record {
  id = now;
  username = username;
  send = [];
  send_file_event = [];
  send_online = [];
  closed = false;
  connected_at = now;
}

-- The text that a decoding yields; an error and "" both leave it empty.
abbrev pub text_or_empty : Option Text → Text
text_or_empty none = []
text_or_empty (some t) = t

-- `json.Unmarshal` of the field `data`, which fails if the field is missing.
abbrev pub of_payload {ℓ} : {A : Type ℓ} → (Json → Option A) → Option Json → Option A
of_payload decode none = none
of_payload decode (some j) = decode j

-- Format 3: an object with `type` and `data`, the data an object with a text or a string.
unfoldable pub payload_text : Option Json → Text
payload_text p =
    let first = text_or_empty (of_payload decode_text p) in
    if is_empty first then text_or_empty (of_payload decode_string p) else first

unfoldable pub typed_text : Option Typed → Text
unfolding payload_text
typed_text none = []
typed_text (some m) =
    if m.type == bytes "chat" || m.type == bytes "message" then payload_text m.payload else []

-- Format 4: an object with `username` and `text`, which may replace the author.
unfoldable pub named_text : Text → Option Named → Text × Text
named_text username none = ([], username)
named_text username (some m) =
    if is_empty m.text
    then ([], username)
    else if is_empty m.username
    then (m.text, username)
    else (m.text, m.username)

-- The formats in turn, each tried while the text is still empty.
unfoldable pub read_text : Text → Json → Text × Text
unfolding typed_text named_text
read_text own raw =
    let simple = text_or_empty (decode_string raw) in
    let object = if is_empty simple then text_or_empty (decode_text raw) else simple in
    let typed = if is_empty object then typed_text (decode_typed raw) else object in
    if is_empty typed then named_text own (decode_named raw) else (typed, own)

pub data Frame : Type 0 where
  edit : EditRequest → Frame
  bad_edit : Frame
  blank : Frame
  chat : Text → Text → Frame

abbrev pub cut_mark : Text
cut_mark = bytes "... (обрезано)"

-- `if len(text) > 10000 { text = text[:10000] + "... (обрезано)" }`, with the limit given.
unfoldable pub cut : ℕ → Text → Text
cut limit text = if ltb limit (length text) then take limit text ++ cut_mark else text

-- The checks of the text, and the author with it.
unfoldable pub checked : Text × Text → Frame
checked (text, username) =
    if is_empty text
    then blank
    else if is_empty (trim_space text)
    then blank
    else chat username (cut 10000 (trim_space text))

unfoldable pub edit_frame : Text → Option EditRequest → Frame
edit_frame own none = bad_edit
edit_frame own (some e) = edit (record e { username = own })

-- One round of the loop of `ReadPump`, up to what it sends.
unfoldable pub read_frame : Text → Json → Frame
unfolding edit_frame
read_frame own raw = elim (decode_typed raw) [
  | none ↦ checked (read_text own raw)
  | some base ↦
      if base.type == bytes "edit"
      then edit_frame own (of_payload decode_edit base.payload)
      else checked (read_text own raw)
]

-- The channels of the manager that `ReadPump` sends on.
pub record Inbox : Type 0 where
  pub broadcast : List Message
  pub edits : List EditRequest
  pub leaving : List Client

-- The non-blocking sends of a round at the time `now`.
unfoldable pub post : ℕ → Frame → Inbox → Inbox
post now (edit e) i = record i { edits = offer 100 e i.edits }
post now bad_edit i = i
post now blank i = i
post now (chat username text) i = record i {
  broadcast =
      offer 100
        (record { id = 0; username = username; text = text; timestamp = now; edited = false })
        i.broadcast;
}

-- `ReadPump`: the frames up to the read error, then the deferred `Unregister`.
unfoldable pub read_pump : Client → List (ℕ × Json) → Inbox → Inbox
unfolding post
read_pump c [] i = record i { leaving = i.leaving ++ (c ∷ []) }
read_pump c ((now, raw) ∷ frames) i = read_pump c frames (post now (read_frame c.username raw) i)

-- The channel that `select` of `WritePump` takes from, and what the round writes.
pub data Channel : Type 0 where
  from_send from_file_events from_online : Channel

pub data Written : Type 0 where
  waits : Written
  wrote_message : Message → Written
  wrote_file_event : FileEventData → Written
  wrote_online : OnlineData → Written
  close_frame : Written
  stopped : Written

-- A receive on an empty channel waits, or fails if the channel is closed.
unfoldable pub write_round : Channel → Client → Written × Client
write_round from_send c = elim c.send [
  | [] ↦ (if c.closed then close_frame else waits, c)
  | message ∷ rest ↦ (wrote_message message, record c { send = rest })
]
write_round from_file_events c = elim c.send_file_event [
  | [] ↦ (if c.closed then stopped else waits, c)
  | event ∷ rest ↦ (wrote_file_event event, record c { send_file_event = rest })
]
write_round from_online c = elim c.send_online [
  | [] ↦ (if c.closed then stopped else waits, c)
  | online ∷ rest ↦ (wrote_online online, record c { send_online = rest })
]
