-- ===== src/Storage.antt =====
-- The store of files (internal/storage/minio.go): the keys of objects, what is read out of a key, and
-- the checks before a download and a deletion. The server that keeps the objects is a parameter; the
-- links that it signs are outside the model.
pub mod Owner
pub mod Names
pub mod Paths
pub mod Links
pub mod Buckets
use pigeongram_chat.Base.{
  ℕ, zero, suc, ◌+◌, ◌/◌, ◌%◌, Bool, true, false, not, ◌&&◌, ◌||◌, Option, none, some, List, [],
  ◌∷◌, ◌++◌, ◌==◌, nat_eq, list_eq, ltb, leb, if◌then◌else◌, length, is_empty, all, map,
}
use pigeongram_chat.Base.Text.{Text, bytes, has_prefix}
use pigeongram_chat.Base.Result.{Result, ok, err}
use pigeongram_chat.Websocket.Channels.{FileInfo}

-- `minio.ObjectInfo`, the fields that are read.
pub record Object : Type 0 where
  pub key : Text
  pub size : ℕ
  pub last_modified : ℕ
  pub content_type : Text

-- `StatObject`, `ListObjects` for a prefix and `RemoveObject` on the bucket.
pub record ObjectStore : Type 1 where
  pub State : Type 0
  pub stat : Text → State → Result Text Object
  pub list : Text → State → Result Text (List Object)
  pub remove : Text → State → Result Text (Unit {0}) × State

-- One more byte for the first part.
unfoldable pub push_part : ℕ → List Text → List Text
push_part c [] = (c ∷ []) ∷ []
push_part c (p ∷ parts) = (c ∷ p) ∷ parts

-- `strings.Split(s, sep)` for a separator of one byte
unfoldable pub split : ℕ → Text → List Text
unfolding push_part
split sep [] = [] ∷ []
split sep (c ∷ s) = let rest = split sep s in if c == sep then [] ∷ rest else push_part c rest

unfoldable pub last_part : Text → List Text → Text
last_part p [] = p
last_part p (q ∷ parts) = last_part q parts

-- `parts[1]` where there is one
unfoldable pub second : List Text → Option Text
second (p ∷ q ∷ parts) = some q
second _ = none

unfoldable pub owner_of : Text → Option Text
unfolding second split
owner_of key = second (split b'/' key)

-- The characters that a file name may not keep, in the order of `GenerateUploadURL`.
unfoldable pub is_unsafe : ℕ → Bool
is_unsafe c =
    c == b'\''
    || c == b'"'
    || c == b'`'
    || c == b' '
    || c == b'?'
    || c == b'*'
    || c == b':'
    || c == b'<'
    || c == b'>'
    || c == b'|'

unfoldable pub safe_name : Text → Text
unfolding is_unsafe
safe_name name = map (λ c. if is_unsafe c then b'_' else c) name

-- A number in decimal digits; the number itself is fuel enough.
unfoldable pub decimal : ℕ → ℕ → Text → Text
decimal zero n rest = rest
decimal (suc fuel) n rest =
    let digits = (b'0' + n % 10) ∷ rest in
    let more = decimal fuel (n / 10) digits in if ltb n 10 then digits else more

abbrev pub chat_prefix : Text → Text
chat_prefix chat_id = bytes "chat-" ++ (chat_id ++ (b'/' ∷ []))

-- `fmt.Sprintf("chat-%s/%s/%d-%s", ...)`; the file name is what `filepath.Base` leaves of it.
unfoldable pub object_key : Text → Text → ℕ → Text → Text
unfolding decimal safe_name
object_key chat_id user_id timestamp base =
    bytes "chat-"
    ++ (chat_id
        ++ (b'/'
            ∷ (user_id
                ++ (b'/' ∷ (decimal (suc timestamp) timestamp [] ++ (b'-' ∷ safe_name base))))))

-- `strings.Index(s, "-")`, and what stands before and behind it
unfoldable pub cut_dash : Text → Option (Text × Text)
cut_dash [] = none
cut_dash (c ∷ s) =
    let rest = cut_dash s in
    if c == b'-'
    then some ([], s)
    else elim rest [ none ↦ none | some (before, behind) ↦ some (c ∷ before, behind) ]

-- The name without the time in front of it.
unfoldable pub without_time : Text → Text
unfolding cut_dash all
without_time name = elim (cut_dash name) [
  | none ↦ name
  | some (before, behind) ↦
      if not (is_empty before) && all (λ c. leb b'0' c && leb c b'9') before then behind else name
]

-- The user and the file name that `ListFiles` reads out of a key; a key without a slash has neither.
unfoldable pub read_key : Text → List Text → Text × Text
unfolding without_time last_part
read_key key (p ∷ user ∷ q ∷ parts) = (user, without_time (last_part q parts))
read_key key (p ∷ user ∷ []) = (user, key)
read_key key _ = (bytes "unknown", key)

abbrev pub spaces : Text → Text
spaces name = map (λ c. if c == b'_' then b' ' else c) name

abbrev pub file_info : Text → Text × Text → Text → Object → FileInfo
file_info chat_id (user, name) key o = record {
  name = name;
  size = o.size;
  uploaded_at = o.last_modified;
  content_type = o.content_type;
  uploader_id = user;
  chat_id = chat_id;
  key = key;
}

-- In `GetFileInfo` the name of a key with three parts has its underscores turned into spaces.
unfoldable pub shown : List Text → Text × Text → Text × Text
shown (p ∷ user ∷ q ∷ parts) (u, name) = (u, spaces name)
shown _ r = r

abbrev pub removed {ℓ} : {T : Type ℓ} → Result Text (Unit {0}) × T → Result Text (Unit {0}) × T
removed (ok u, s) = (ok u, s)
removed (err e, s) = (err (bytes "ошибка удаления файла: " ++ e), s)

module _ (S : ObjectStore) where
  -- `ListFiles`
  unfoldable pub list_files : Text → S.State → Result Text (List FileInfo)
  unfolding read_key split
  list_files chat_id s = elim (S.list (chat_prefix chat_id) s) [
    | err e ↦ err e
    | ok objects ↦
        ok (map (λ o. file_info chat_id (read_key o.key (split b'/' o.key)) o.key o) objects)
  ]

  -- `GetFileInfo`
  unfoldable pub get_file_info : Text → Text → S.State → Result Text FileInfo
  unfolding read_key split shown
  get_file_info chat_id key s = elim (S.stat key s) [
    | err e ↦ err e
    | ok o ↦ ok (file_info chat_id (shown (split b'/' key) (read_key key (split b'/' key))) key o)
  ]

  -- The checks at the start of `GenerateDownloadURL`, which signs a link if there is no error.
  unfoldable pub may_download : Text → Text → S.State → Result Text Object
  unfolding has_prefix
  may_download chat_id key s =
      if has_prefix key (chat_prefix chat_id)
      then elim (S.stat key s) [ err e ↦ err (bytes "file not found: " ++ e) | ok o ↦ ok o ]
      else err (bytes "доступ запрещен: файл не принадлежит чату " ++ chat_id)

  -- The removal, for the owner that the key names.
  unfoldable pub remove_if : Text → Text → Option Text → S.State → Result Text (Unit {0}) × S.State
  remove_if key username none s = (err (bytes "некорректный формат ключа файла"), s)
  remove_if key username (some owner) s =
      if owner == username
      then removed (S.remove key s)
      else (err (bytes "доступ запрещен: только владелец может удалить файл"), s)

  -- `DeleteFile`
  unfoldable pub delete_file : Text → Text → Text → S.State → Result Text (Unit {0}) × S.State
  unfolding has_prefix remove_if owner_of
  delete_file chat_id key username s =
      if has_prefix key (chat_prefix chat_id)
      then elim (S.stat key s) [
        | err e ↦ (err (bytes "file not found: " ++ e), s)
        | ok o ↦ remove_if key username (owner_of key) s
      ]
      else (err (bytes "доступ запрещен: файл не принадлежит чату " ++ chat_id), s)
