-- ===== src/Web/Files.antt =====
-- The handlers of files (web/file_handlers.go): list, download and delete, for the user that
-- `getUserFromSession` found, "" for nobody.
pub mod Owned
use pigeongram_chat.Base.{
  ℕ, ◌+◌, ◌-◌, ◌*◌, ◌≡◌, refl, true, false, ◌&&◌, ◌||◌, Option, none, some, List, [], ◌∷◌, ◌==◌,
  nat_eq, list_eq, leb, if◌then◌else◌, if-both, is_empty,
}
use pigeongram_chat.Base.Text.{Text, bytes, has_prefix}
use pigeongram_chat.Base.Result.{Result, ok, err}
use pigeongram_chat.Websocket.Channels.{FileInfo, FileEventData, key_only, offer}
use pigeongram_chat.Storage.{ObjectStore, chat_prefix, owner_of, list_files, delete_file}
use pigeongram_chat.Storage.Links.{Signer, MinioClient, generate_download_url}
use pigeongram_chat.Storage.Owner.{is_owner}

-- The store and the channel `FileEvents` of the manager.
pub record Hub (S : ObjectStore) : Type 0 where
  pub objects : S.State
  pub events : List FileEventData

-- The chat and the key that a request names.
pub record FileRequest : Type 0 where
  pub chat_id : Text
  pub key : Text

-- A status other than 200, or the body.
pub data Answer {ℓ} (B : Type ℓ) : Type ℓ where
  status : ℕ → Answer B
  body : B → Answer B

abbrev hex_value : ℕ → Option ℕ
hex_value c =
    if leb b'0' c && leb c b'9'
    then some (c - b'0')
    else if leb b'a' c && leb c b'f'
    then some (c - b'a' + 10)
    else if leb b'A' c && leb c b'F'
    then some (c - b'A' + 10)
    else none

-- `url.QueryUnescape`
unfoldable pub unescape : Text → Option Text
unescape [] = some []
unescape (c ∷ []) = if c == b'%' then none else some ((if c == b'+' then b' ' else c) ∷ [])
unescape (c ∷ a ∷ []) = if c == b'%' then none else elim (unescape (a ∷ [])) [
  | none ↦ none
  | some t ↦ some ((if c == b'+' then b' ' else c) ∷ t)
]
unescape (c ∷ a ∷ b ∷ s) = elim (c == b'%') [
  | true ↦ elim (hex_value a) [
    | none ↦ none
    | some high ↦ elim (hex_value b) [
      | none ↦ none
      | some low ↦ elim (unescape s) [ none ↦ none | some t ↦ some ((16 * high + low) ∷ t) ]
    ]
  ]
  | false ↦ elim (unescape (a ∷ b ∷ s)) [
    | none ↦ none
    | some t ↦ some ((if c == b'+' then b' ' else c) ∷ t)
  ]
]

-- A key that does not decode is taken as it is.
unfoldable pub decoded_key : Text → Text
unfolding unescape
decoded_key key = elim (unescape key) [ none ↦ key | some t ↦ t ]

abbrev pub deleted_event : ℕ → Text → Text → Text → FileEventData
deleted_event now chat_id key username = record {
  event_type = bytes "delete";
  chat_id = chat_id;
  file = key_only key;
  username = username;
  owner = username;
  timestamp = now;
}

module _ (S : ObjectStore) where
  -- `ListFiles`
  unfoldable pub list_files_handler : Text → Text → Hub S → Answer (List FileInfo)
  unfolding list_files
  list_files_handler username chat_id h =
      if is_empty username
      then status 401
      else if is_empty chat_id
      then status 400
      else elim (list_files S chat_id h.objects) [ err e ↦ status 500 | ok files ↦ body files ]

  -- `GetDownloadURL`
  unfoldable pub download_handler : Signer → MinioClient → Text → FileRequest → Hub S → Answer Text
  unfolding generate_download_url decoded_key
  download_handler g m username r h =
      if is_empty username
      then status 401
      else if is_empty r.chat_id || is_empty r.key
      then status 400
      else elim (generate_download_url S g m r.chat_id (decoded_key r.key) h.objects) [
        | err e ↦ status 500
        | ok url ↦ body url
      ]

  -- The end of `DeleteFile`: the event goes out if the channel has room.
  unfoldable pub answered :
      ℕ → Text → Text → Text → Result Text (Unit {0}) × S.State → Hub S → Answer (Unit {0}) × Hub S
  answered now chat_id key username (err e, s) h = (status 500, record h { objects = s })
  answered now chat_id key username (ok _, s) h = (
    body tt,
    record h { objects = s; events = offer 100 (deleted_event now chat_id key username) h.events },
  )

  -- What follows once the owner is read out of the key.
  unfoldable pub delete_owned :
      ℕ → Text → Text → Text → Option Text → Hub S → Answer (Unit {0}) × Hub S
  unfolding answered delete_file
  delete_owned now chat_id key username none h = (status 400, h)
  delete_owned now chat_id key username (some owner) h =
      if owner == username
      then answered now chat_id key username (delete_file S chat_id key username h.objects) h
      else (status 403, h)

  -- `DeleteFile`, with the request that the body decodes to
  unfoldable pub delete_handler : ℕ → Text → Option FileRequest → Hub S → Answer (Unit {0}) × Hub S
  unfolding delete_owned decoded_key owner_of
  delete_handler now username none h =
      if is_empty username then (status 401, h) else (status 400, h)
  delete_handler now username (some r) h =
      let key = decoded_key r.key in
      if is_empty username
      then (status 401, h)
      else if is_empty r.chat_id || is_empty r.key
      then (status 400, h)
      else if has_prefix key (chat_prefix r.chat_id)
      then delete_owned now r.chat_id key username (owner_of key) h
      else (status 403, h)

  delete_owned-refused :
      (now : ℕ) (chat_id key username : Text) (o : Option Text) (h : Hub S)
      → is_owner username o ≡ false
      → (n : ℕ) × (delete_owned now chat_id key username o h ≡ (status n, h))
  unfolding delete_owned
  delete_owned-refused now chat_id key username none h other = (400, refl)
  delete_owned-refused now chat_id key username (some owner) h other = rw other (403, refl)

  -- A request to delete a file whose key, once decoded, does not name the user as the owner is refused:
  -- the store stays as it was, and no event goes out.
  pub delete_handler-refused :
      (now : ℕ) (username : Text) (r : FileRequest) (h : Hub S)
      → is_owner username (owner_of (decoded_key r.key)) ≡ false
      → (n : ℕ) × (delete_handler now username (some r) h ≡ (status n, h))
  unfolding delete_handler
  delete_handler-refused now username r h other =
      if-both Refused (is_empty username) (401, refl)
        (if-both Refused (is_empty r.chat_id || is_empty r.key) (400, refl)
          (if-both Refused (has_prefix (decoded_key r.key) (chat_prefix r.chat_id))
            (delete_owned-refused now r.chat_id (decoded_key r.key) username
              (owner_of (decoded_key r.key)) h other)
            (403, refl)))
    where
      Refused : Answer (Unit {0}) × Hub S → Type 0
      Refused p = (n : ℕ) × (p ≡ (status n, h))
