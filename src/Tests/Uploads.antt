-- ===== src/Tests/Uploads.antt =====
-- The theorems on uploads and on files that are passed through, at concrete inputs.
use pigeongram_chat.Base.{
  ℕ, zero, suc, true, ltb→lt, ltb→le, ◌≡◌, ◌≤◌, refl, none, some, [], ◌∷◌, any, all, length,
}
use pigeongram_chat.Base.Text.{Text, bytes, has_prefix}
use pigeongram_chat.Base.Result.{ok}
use pigeongram_chat.Websocket.Channels.{FileInfo}
use pigeongram_chat.Storage.{
  Object, ObjectStore, owner_of, chat_prefix, split, push_part, last_part, get_file_info, read_key,
  shown, without_time, cut_dash, object_key, safe_name, is_unsafe, decimal,
}
use pigeongram_chat.Storage.Paths.{extension, base_name, last_name}
use pigeongram_chat.Storage.Links.{
  MinioClient, Signer, upload_policy, generate_upload_url, upload_address, local_address,
}
use pigeongram_chat.Web.Files.{Hub, body, unescape}
use pigeongram_chat.Web.Uploads.{
  UploadForm, UploadReport, request_upload, with_name, cleaned_name, shortened, without_risky,
  is_risky, offered, proxy_download,
}
use pigeongram_chat.Web.Uploads.Bounds.{cleaned_name-fits, request_upload-panics}
use pigeongram_chat.Web.Uploads.Signed.{request_upload-signs}
use pigeongram_chat.Web.Uploads.Served.{proxy_download-named}

abbrev pub minio : MinioClient
minio = record {
  bucket_name = bytes "files";
  region = bytes "us-east-1";
  upload_expiry = 3600000000000;
  download_expiry = 3600000000000;
  max_file_size = 104857600;
  public_endpoint = [];
}

abbrev pub signer : Signer
signer = record {
  sign_post = λ p. ok ((bytes "key", p.key) ∷ []);
  sign_get = λ bucket key expiry params. ok key;
  parse = λ endpoint. none;
}

abbrev image : Object
image = record { key = bytes "k"; size = 42; last_modified = 1; content_type = bytes "image/png" }

abbrev pub bucket : ObjectStore
bucket = record {
  State = Unit {0};
  stat = λ k s. ok image;
  list = λ p s. ok (image ∷ []);
  remove = λ k s. (ok tt, s);
}

abbrev hub : Hub bucket
hub = record { objects = tt; events = [] }

-- 201 bytes behind a dot.
abbrev dots : ℕ → Text
dots zero = []
dots (suc n) = b'x' ∷ dots n

cleaned_name-fits_example :
    (n : Text) × (cleaned_name (bytes "dir/a(1).png") ≡ some n)
    × (length n ≤ 200)
    × (extension n ≡ extension (without_risky (base_name (bytes "dir/a(1).png"))))
unfolding extension without_risky is_risky base_name last_name split push_part any
cleaned_name-fits_example = cleaned_name-fits (bytes "dir/a(1).png") (ltb→le 200 _ refl)

request_upload-panics_example :
    request_upload signer minio 0 0 (bytes "alice") (bytes "general") (b'.' ∷ dots 201) ≡ none
unfolding extension without_risky is_risky base_name last_name split push_part any
request_upload-panics_example =
    request_upload-panics signer minio 0 0 (bytes "alice") (bytes "general") (b'.' ∷ dots 201) refl
      refl refl (ltb→lt 200 _ refl)

abbrev form : UploadForm
form = record {
  upload_url = bytes "http://localhost:9000/files/";
  form_data = (bytes "key", bytes "chat-general/alice/17-a.png") ∷ [];
  safe_filename = bytes "a.png";
}

request_upload-signs_example :
    (key : Text) × (signer.sign_post (upload_policy minio key 5) ≡ ok form.form_data)
    × (owner_of key ≡ some (bytes "alice"))
    × (has_prefix key (chat_prefix (bytes "general")) ≡ true)
unfolding extension without_risky is_risky base_name last_name split push_part any shortened
    cleaned_name with_name offered request_upload generate_upload_url upload_address object_key
    safe_name is_unsafe decimal local_address
request_upload-signs_example =
    request_upload-signs signer minio 62135596817000000000 5 (bytes "alice") (bytes "general")
      (bytes "a.png") form refl refl refl

abbrev pub report : UploadReport
report = record {
  chat_id = bytes "g";
  filename = bytes "x";
  key = bytes "http://h/files/chat-g/bob/1-x";
}

abbrev served_info : FileInfo
served_info = record {
  name = bytes "x y";
  size = 42;
  uploaded_at = 1;
  content_type = bytes "image/png";
  uploader_id = bytes "bob";
  chat_id = bytes "g";
  key = bytes "chat-g/bob/1-x_y";
}

proxy_download-named_example :
    proxy_download bucket {O = Text}
      (λ k s. ok k)
      (λ o. some 3)
      (bytes "alice")
      (record { chat_id = bytes "g"; key = bytes "chat-g%2Fbob/1-x_y" })
      hub
    ≡ body (record {
      filename = bytes "x y";
      content_length = some 3;
      content = bytes "chat-g/bob/1-x_y";
    })
unfolding unescape has_prefix split push_part last_part get_file_info shown read_key without_time
    cut_dash all
proxy_download-named_example =
    proxy_download-named bucket (λ k s. ok k) (λ o. some 3) (bytes "alice")
      (record { chat_id = bytes "g"; key = bytes "chat-g%2Fbob/1-x_y" }) (bytes "chat-g/bob/1-x_y")
      (bytes "chat-g") (bytes "bob") (bytes "1-x_y") [] hub served_info (bytes "chat-g/bob/1-x_y")
      refl refl refl refl refl refl refl refl refl
