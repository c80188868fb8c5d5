-- ===== src/Web/Uploads/Announced.antt =====
-- What `UploadComplete` tells the clients.
use pigeongram_chat.Base.{ℕ, ◌+◌, ◌≡◌, refl, false, some, is_empty, inl, inr}
use pigeongram_chat.Base.Text.{Text, bytes}
use pigeongram_chat.Base.Result.{Result, ok, err, Result-cases}
use pigeongram_chat.Websocket.Channels.{FileInfo, FileEventData, info_pointer, offer}
use pigeongram_chat.Storage.{Object, ObjectStore, get_file_info}
use pigeongram_chat.Storage.Links.{MinioClient}
use pigeongram_chat.Web.Files.{Hub, body}
use pigeongram_chat.Web.Uploads.{UploadReport, UploadTotals, upload_complete, clean_key, reported}

-- The event that a user's upload of a file to a chat is to make.
abbrev pub told : ℕ → Text → Text → FileInfo → FileEventData
told at chat_id username f = record {
  event_type = bytes "upload";
  chat_id = chat_id;
  file = info_pointer f;
  username = username;
  owner = username;
  timestamp = at;
}

-- The size that the store knows of, else 0.
abbrev pub known_size : Result Text Object → ℕ
known_size (ok o) = o.size
known_size (err e) = 0

module _ (S : ObjectStore) where
  -- The file is the one under the key, in the chat, of the size that the store knows of.
  abbrev pub IsReported : Text → Text → S.State → FileInfo → Type 0
  IsReported chat_id key s f =
      (f.key ≡ key) × (f.chat_id ≡ chat_id) × (f.size ≡ known_size (S.stat key s))

  reported-IsReported :
      (now : ℕ) (username : Text) (r : UploadReport) (key : Text) (s : S.State)
      → IsReported r.chat_id key s (reported now username r key (get_file_info S r.chat_id key s))
  unfolding reported get_file_info
  reported-IsReported now username r key s = elim (Result-cases (S.stat key s)) [
    | inl (o, e) ↦ rw (e, reported) (refl, refl, refl)
    | inr (e, missing) ↦ rw (missing, reported) (refl, refl, refl)
  ]

  -- A report of an upload by a user makes an event, if the channel has room for it, and is counted.
  pub upload_complete-announces :
      (m : MinioClient) (now later : ℕ) (username : Text) (r : UploadReport) (h : Hub S)
      (n : UploadTotals)
      → is_empty username ≡ false
      → (f : FileInfo) × IsReported r.chat_id (clean_key m.bucket_name r.key) h.objects f
        × (upload_complete S m now later username (some r) h n ≡ (
          body tt,
          record h { events = offer 100 (told later r.chat_id username f) h.events },
          record { files_uploaded = n.files_uploaded + 1; files_size = n.files_size + f.size },
        ))
  unfolding upload_complete
  upload_complete-announces m now later username r h n user = (
    reported now username r (clean_key m.bucket_name r.key)
        (get_file_info S r.chat_id (clean_key m.bucket_name r.key) h.objects),
    reported-IsReported now username r (clean_key m.bucket_name r.key) h.objects,
    rw user refl,
  )
