-- ===== src/Storage/Buckets.antt =====
-- The calls of `MinIOClient` on the server as a whole (internal/storage/minio.go): `NewMinIOClient`,
-- `ListBuckets`, `GetObject` and `GetBucketName`. The client of MinIO is a parameter.
use pigeongram_chat.Base.{Bool, true, false, List, ◌++◌}
use pigeongram_chat.Base.Text.{Text, bytes}
use pigeongram_chat.Base.Result.{Result, ok, err}
use pigeongram_chat.Config.{MinioConfig}

-- `minio.New`, `BucketExists`, `MakeBucket`, `ListBuckets` and `GetObject`.
pub record BucketServer : Type 1 where
  pub State : Type 0
  pub Object : Type 0
  pub new : MinioConfig → Result Text State
  pub bucket_exists : Text → State → Result Text Bool
  pub make_bucket : Text → Text → State → Result Text (Unit {0}) × State
  pub list_buckets : State → Result Text (List Text)
  pub get_object : Text → Text → State → Result Text Object

abbrev pub prefixed : {A : Type 0} → Text → Result Text A → Result Text A
prefixed text (ok a) = ok a
prefixed text (err e) = err (text ++ e)

module _ (B : BucketServer) where
  abbrev made : Result Text (Unit {0}) × B.State → Result Text B.State
  made (ok _, s) = ok s
  made (err e, s) = err (bytes "ошибка создания bucket: " ++ e)

  -- The bucket is made if it is not there.
  unfoldable pub with_bucket : MinioConfig → B.State → Result Text Bool → Result Text B.State
  with_bucket c s (err e) = err (bytes "ошибка проверки bucket: " ++ e)
  with_bucket c s (ok true) = ok s
  with_bucket c s (ok false) = made (B.make_bucket c.bucket_name c.region s)

  -- `NewMinIOClient`
  unfoldable pub new_minio_client : MinioConfig → Result Text B.State
  unfolding with_bucket
  new_minio_client c = elim (B.new c) [
    | err e ↦ err (bytes "ошибка подключения к MinIO: " ++ e)
    | ok s ↦ with_bucket c s (B.bucket_exists c.bucket_name s)
  ]

  -- `ListBuckets`
  unfoldable pub list_buckets : B.State → Result Text (List Text)
  list_buckets s = B.list_buckets s

  -- `GetObject`
  unfoldable pub get_object : MinioConfig → Text → B.State → Result Text B.Object
  get_object c key s =
      prefixed (bytes "ошибка получения объекта: ") (B.get_object c.bucket_name key s)
