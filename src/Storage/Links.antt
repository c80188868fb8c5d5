-- ===== src/Storage/Links.antt =====
-- The links of internal/storage/minio.go: the form for an upload and the address of a download. The
-- client of MinIO that signs them and `url.Parse` are a parameter.
use pigeongram_chat.Base.{
  ℕ, ◌+◌, ◌-◌, ◌/◌, ◌==◌, nat_eq, not, ◌&&◌, Option, none, some, [], ◌∷◌, ◌++◌, if◌then◌else◌,
  is_empty,
}
use pigeongram_chat.Base.Text.{Text, bytes, has_prefix}
use pigeongram_chat.Base.Dict.{Dict}
use pigeongram_chat.Base.Time.{second}
use pigeongram_chat.Base.Result.{Result, ok, err}
use pigeongram_chat.Storage.{Object, ObjectStore, object_key, may_download}
use pigeongram_chat.Storage.Paths.{base_name}

-- `MinIOClient`, without the connection.
pub record MinioClient : Type 0 where
  pub bucket_name : Text
  pub region : Text
  pub upload_expiry : ℕ
  pub download_expiry : ℕ
  pub max_file_size : ℕ
  pub public_endpoint : Text

-- What `GenerateUploadURL` asks to be signed.
pub record Policy : Type 0 where
  pub bucket : Text
  pub key : Text
  pub expires : ℕ
  pub min_size : ℕ
  pub max_size : ℕ

-- The fields of `url.URL` that are read.
pub record Url : Type 0 where
  pub scheme : Text
  pub host : Text
  pub path : Text

-- `PresignedPostPolicy`, `PresignedGetObject` and `url.Parse`.
pub record Signer : Type 0 where
  pub sign_post : Policy → Result Text (Dict Text Text)
  pub sign_get : Text → Text → ℕ → Text → Result Text Text
  pub parse : Text → Option Url

-- `time.Now().Unix()`
abbrev pub unix : ℕ → ℕ
unix now = now / second - 62135596800

abbrev slash : Text
slash = bytes "/"

-- The address of the bucket behind the proxy.
unfoldable pub public_address : Url → Text → Text
public_address u bucket =
    (if is_empty u.scheme then bytes "https" else u.scheme)
    ++ (bytes "://"
        ++ ((if is_empty u.host then u.path else u.host) ++ (bytes "/minio/" ++ (bucket ++ slash))))

unfoldable pub local_address : Text → Text
local_address bucket = bytes "http://localhost:9000/" ++ (bucket ++ slash)

unfoldable pub upload_address : Signer → MinioClient → Text
unfolding public_address local_address
upload_address g m =
    if is_empty m.public_endpoint
    then local_address m.bucket_name
    else elim (g.parse m.public_endpoint) [
      | none ↦ local_address m.bucket_name
      | some u ↦ public_address u m.bucket_name
    ]

abbrev pub upload_policy : MinioClient → Text → ℕ → Policy
upload_policy m key now = record {
  bucket = m.bucket_name;
  key = key;
  expires = now + m.upload_expiry;
  min_size = 1;
  max_size = m.max_file_size;
}

-- `GenerateUploadURL`, with the two readings of the clock
unfoldable pub generate_upload_url :
    Signer → MinioClient → ℕ → ℕ → Text → Text → Text → Result Text (Text × Dict Text Text)
unfolding object_key base_name upload_address
generate_upload_url g m now later chat_id user_id filename =
    elim (g.sign_post
      (upload_policy m (object_key chat_id user_id (unix now) (base_name filename)) later)) [
        | err e ↦ err (bytes "ошибка создания presigned URL: " ++ e)
        | ok form ↦ ok (upload_address g m, form)
      ]

-- `reqParams.Encode()`
abbrev pub attachment : Text
attachment = bytes "response-content-disposition=attachment"

unfoldable pub download_address : Signer → MinioClient → Text → Text → Text
unfolding public_address
download_address g m key signed =
    if is_empty m.public_endpoint then signed else elim (g.parse m.public_endpoint) [
      | none ↦ signed
      | some u ↦ public_address u m.bucket_name ++ (key ++ (bytes "?" ++ attachment))
    ]

-- The end of `GenerateDownloadURL`.
unfoldable pub signed_link : Signer → MinioClient → Text → Result Text Object → Result Text Text
unfolding download_address
signed_link g m key (err e) = err e
signed_link g m key (ok o) = elim (g.sign_get m.bucket_name key m.download_expiry attachment) [
  | err e ↦ err (bytes "ошибка создания presigned URL: " ++ e)
  | ok signed ↦ ok (download_address g m key signed)
]

-- `GenerateDownloadURL`
unfoldable pub generate_download_url :
    (S : ObjectStore) → Signer → MinioClient → Text → Text → S.State → Result Text Text
unfolding signed_link may_download
generate_download_url S g m chat_id key s = signed_link g m key (may_download S chat_id key s)

-- `strings.TrimSuffix(s, "/")`
trim_slash : Text → Text
trim_slash [] = []
trim_slash (c ∷ []) = if c == b'/' then [] else c ∷ []
trim_slash (c ∷ d ∷ s) = c ∷ trim_slash (d ∷ s)

-- The protocol in front, if it is missing.
with_protocol : Text → Text
unfolding has_prefix
with_protocol endpoint =
    if not (has_prefix endpoint (bytes "http://")) && not (has_prefix endpoint (bytes "https://"))
    then bytes "http://" ++ endpoint
    else endpoint

-- `normalizePublicEndpoint`, with `none` for nil
unfoldable pub normalize_public_endpoint : Signer → Text → Option Url
unfolding trim_slash with_protocol
normalize_public_endpoint g endpoint =
    if is_empty endpoint then none else g.parse (trim_slash (with_protocol endpoint))

-- `replaceHostInURL`, with the writer of an address
unfoldable pub replace_host : (Url → Text) → Url → Text → Text
replace_host write u host = if is_empty host then write u else write (record u { host = host })
