-- ===== src/Web/Uploads.antt =====
-- The handlers that take uploads and pass files through (web/file_handlers.go): `RequestUpload`,
-- `UploadComplete` and `ProxyDownload`, for the user that `getUserFromSession` found.
pub mod Bounds
pub mod Signed
pub mod Announced
pub mod Served
use pigeongram_chat.Base.{
  ℕ, zero, suc, ◌+◌, ◌-◌, true, false, ◌||◌, Option, none, some, List, [], ◌∷◌, ◌++◌, ◌==◌, nat_eq,
  ltb, leb, if◌then◌else◌, length, take, is_empty, map, Bool,
}
use pigeongram_chat.Base.Text.{Text, bytes, has_prefix}
use pigeongram_chat.Base.Dict.{Dict}
use pigeongram_chat.Base.Result.{Result, ok, err}
use pigeongram_chat.Websocket.Channels.{FileInfo, FileEventData, info_pointer, offer}
use pigeongram_chat.Storage.{
  ObjectStore, chat_prefix, push_part, second, get_file_info, without_time, spaces,
}
use pigeongram_chat.Storage.Paths.{base_name, extension}
use pigeongram_chat.Storage.Links.{Signer, MinioClient, generate_upload_url}
use pigeongram_chat.Web.Files.{Hub, FileRequest, Answer, status, body, unescape}

-- The characters that `RequestUpload` replaces, in its order.
unfoldable pub is_risky : ℕ → Bool
is_risky c =
    c == b'\''
    || c == b'"'
    || c == b'`'
    || c == b'$'
    || c == b'&'
    || c == b'|'
    || c == b';'
    || c == b'('
    || c == b')'
    || c == b'['
    || c == b']'
    || c == b'{'
    || c == b'}'

unfoldable pub without_risky : Text → Text
unfolding is_risky
without_risky name = map (λ c. if is_risky c then b'_' else c) name

-- The name cut to 200 bytes, its extension kept; `filename[:200-len(ext)]` panics below 0.
unfoldable pub shortened : Text → Option Text
unfolding extension
shortened name =
    let ext = extension name in
    if ltb 200 (length name)
    then if leb (length ext) 200 then some (take (200 - length ext) name ++ ext) else none
    else some name

unfoldable pub cleaned_name : Text → Option Text
unfolding shortened without_risky base_name
cleaned_name filename = shortened (without_risky (base_name filename))

-- The answer to a request for an upload.
pub record UploadForm : Type 0 where
  pub upload_url : Text
  pub form_data : Dict Text Text
  pub safe_filename : Text

unfoldable pub offered : Text → Result Text (Text × Dict Text Text) → Answer UploadForm
offered name (err e) = status 500
offered name (ok (url, form)) =
    body (record { upload_url = url; form_data = form; safe_filename = name })

unfoldable pub with_name :
    Signer → MinioClient → ℕ → ℕ → Text → Text → Option Text → Option (Answer UploadForm)
unfolding offered generate_upload_url
with_name g m now later username chat_id none = none
with_name g m now later username chat_id (some name) =
    some (offered name (generate_upload_url g m now later chat_id username name))

-- `RequestUpload`; `none` is a panic, which ends the request without an answer.
unfoldable pub request_upload :
    Signer → MinioClient → ℕ → ℕ → Text → Text → Text → Option (Answer UploadForm)
unfolding with_name cleaned_name
request_upload g m now later username chat_id filename =
    if is_empty username
    then some (status 401)
    else if is_empty chat_id || is_empty filename
    then some (status 400)
    else with_name g m now later username chat_id (cleaned_name filename)

-- `strings.Split` for a separator that is not empty; the counter holds the bytes of a separator
-- that are still to go.
split_text : Text → ℕ → Text → List Text
unfolding has_prefix push_part
split_text sep n [] = [] ∷ []
split_text sep (suc n) (c ∷ s) = split_text sep n s
split_text sep zero (c ∷ s) = elim (has_prefix (c ∷ s) sep) [
  | true ↦ [] ∷ split_text sep (length sep - 1) s
  | false ↦ push_part c (split_text sep zero s)
]

-- The key out of a whole address: what stands behind the bucket. There is a second part just when
-- the key contains the separator.
unfoldable pub clean_key : Text → Text → Text
unfolding split_text second
clean_key bucket key = elim (second (split_text (b'/' ∷ (bucket ++ (b'/' ∷ []))) 0 key)) [
  | none ↦ key
  | some part ↦ part
]

-- What the body of `UploadComplete` decodes to.
pub record UploadReport : Type 0 where
  pub chat_id : Text
  pub filename : Text
  pub key : Text

-- `FilesUploadedTotal` and `FilesSizeBytes`.
pub record UploadTotals : Type 0 where
  pub files_uploaded : ℕ
  pub files_size : ℕ

-- What is announced if the store does not know the file.
abbrev pub assumed_info : ℕ → Text → UploadReport → Text → FileInfo
assumed_info now username r key = record {
  name = r.filename;
  size = 0;
  uploaded_at = now;
  content_type = [];
  uploader_id = username;
  chat_id = r.chat_id;
  key = key;
}

unfoldable pub reported : ℕ → Text → UploadReport → Text → Result Text FileInfo → FileInfo
reported now username r key (err e) = assumed_info now username r key
reported now username r key (ok f) = f

abbrev pub uploaded_event : ℕ → Text → Text → FileInfo → FileEventData
uploaded_event now chat_id username f = record {
  event_type = bytes "upload";
  chat_id = chat_id;
  file = info_pointer f;
  username = username;
  owner = username;
  timestamp = now;
}

-- The name that a download gets.
unfoldable pub proxy_name : Text → Text
unfolding without_time base_name
proxy_name key = spaces (without_time (base_name key))

-- The key of a download; one that does not decode is taken as "".
unfoldable pub proxy_key : Text → Text
unfolding unescape
proxy_key key = elim (unescape key) [ none ↦ [] | some t ↦ t ]

-- What is served: the name, the length if it is known, and the object.
pub record Download (O : Type 0) : Type 0 where
  pub filename : Text
  pub content_length : Option ℕ
  pub content : O

module _ (S : ObjectStore) where
  abbrev pub announced :
      ℕ → Text → Text → FileInfo → Hub S → UploadTotals → Answer (Unit {0}) × Hub S × UploadTotals
  announced now chat_id username f h n = (
    body tt,
    record h { events = offer 100 (uploaded_event now chat_id username f) h.events },
    record { files_uploaded = n.files_uploaded + 1; files_size = n.files_size + f.size },
  )

  -- `UploadComplete`, with the request that the body decodes to, and the readings of the clock for
  -- the file and for the event
  unfoldable pub upload_complete :
      MinioClient
      → ℕ
      → ℕ
      → Text
      → Option UploadReport
      → Hub S
      → UploadTotals
      → Answer (Unit {0}) × Hub S × UploadTotals
  unfolding clean_key reported get_file_info
  upload_complete m now later username none h n =
      if is_empty username then (status 401, h, n) else (status 400, h, n)
  upload_complete m now later username (some r) h n =
      let key = clean_key m.bucket_name r.key in
      if is_empty username
      then (status 401, h, n)
      else announced later r.chat_id username
          (reported now username r key (get_file_info S r.chat_id key h.objects)) h n

  module _ {O : Type 0} (get : Text → S.State → Result Text O) (size : O → Option ℕ) where
    unfoldable pub served : Text → Result Text O → Answer (Download O)
    unfolding proxy_name
    served key (err e) = status 404
    served key (ok o) =
        body (record { filename = proxy_name key; content_length = size o; content = o })

    -- `ProxyDownload`
    unfoldable pub proxy_download : Text → FileRequest → Hub S → Answer (Download O)
    unfolding served proxy_key has_prefix
    proxy_download username r h =
        let key = proxy_key r.key in
        if is_empty username
        then status 401
        else if is_empty r.chat_id || is_empty r.key
        then status 400
        else if has_prefix key (chat_prefix r.chat_id)
        then served key (get key h.objects)
        else status 403
