-- ===== src/Web/Debug/Notices.antt =====
-- The test events of web/debug.go.
pub mod Tried
use pigeongram_chat.Base.{
  ℕ, Bool, false, not, Option, none, some, List, [], ◌∷◌, ◌==◌, nat_eq, list_eq, if◌then◌else◌,
  is_empty,
}
use pigeongram_chat.Base.Text.{Text, bytes}
use pigeongram_chat.Base.Dict
use pigeongram_chat.Base.Dict.{Dict}
use pigeongram_chat.Websocket.Channels.{FileInfo, FileEventData, info, offer}
use pigeongram_chat.Websocket.Client.{Client}
use pigeongram_chat.Websocket.Manager.{Outside, Manager, send_file_event}
use pigeongram_chat.Web.Files.{Answer, status, body}
use pigeongram_chat.Web.Debug.{or_general}

abbrev test_file : ℕ → Text → Text → Text → FileInfo
test_file now uploader chat_id key = record {
  name = bytes "test-file.txt";
  size = 1024;
  uploaded_at = now;
  content_type = [];
  uploader_id = uploader;
  chat_id = chat_id;
  key = key;
}

-- The event of `TestFileNotification`, by the user, and of `DebugSendTestEvent`, by "system".
abbrev pub test_event : ℕ → Text → Text → Text → FileEventData
test_event now username chat_id key = record {
  event_type = bytes "upload";
  chat_id = chat_id;
  file = info (test_file now username chat_id key);
  username = username;
  owner = [];
  timestamp = now;
}

-- The first client of the user, in the order of the map, is sent the event: the heap afterwards, and
-- whether its channel had room.
unfoldable pub send_to_first :
    Text → FileEventData → List ℕ → Dict ℕ Client → Option (Dict ℕ Client × Bool)
unfolding send_file_event
send_to_first target event [] h = some (h, false)
send_to_first target event (r ∷ refs) h =
    let rest = send_to_first target event refs h in
    elim (Dict.lookup r h) [
      | none ↦ none
      | some c ↦
          if c.username == target
          then elim (send_file_event event c) [
            | none ↦ none
            | some (c', full) ↦ some (Dict.insert r c' h, not full)
          ]
          else rest
    ]

module _ {W : Outside} where
  -- `TestFileNotification`
  unfoldable pub test_file_notification :
      ℕ → Text → Text → Manager W → Answer (Text × Text) × Manager W
  test_file_notification now username chat_id m = if is_empty username then (status 401, m) else (
    body (or_general chat_id, username),
    record m {
      file_events =
          offer 100
            (test_event now username (or_general chat_id)
              (bytes "chat-general/testuser/test-file.txt"))
            m.file_events;
    },
  )

  -- `DebugSendTestEvent`; `none` is a panic.
  unfoldable pub debug_send_test_event :
      ℕ → Text → Text → Text → Manager W → Option (Answer Bool × Manager W)
  unfolding send_to_first
  debug_send_test_event now username target chat_id m =
      if is_empty username
      then some (status 401, m)
      else elim (send_to_first (if is_empty target then username else target)
          (test_event now (bytes "system") (or_general chat_id)
            (bytes "chat-general/system/test-file.txt"))
          m.clients m.heap) [
            | none ↦ none
            | some (h, sent) ↦ some (body sent, record m { heap = h })
          ]
