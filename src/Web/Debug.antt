-- ===== src/Web/Debug.antt =====
-- The pages that only look (web/debug.go, the debug handlers of web/file_handlers.go, the pages of
-- web/handlers.go), for the user that `getUserFromSession` found, and the test events of web/debug.go. A
-- page is the name of its template with the fields that it gets. Uptimes are left out.
pub mod Notices
use pigeongram_chat.Base.{
  ℕ, Bool, true, false, not, ◌&&◌, ◌||◌, Option, none, some, List, [], ◌∷◌, ◌==◌, nat_eq, list_eq,
  if◌then◌else◌, is_empty, length, map,
}
use pigeongram_chat.Base.Text.{Text, bytes}
use pigeongram_chat.Base.Dict
use pigeongram_chat.Base.Dict.{Dict}
use pigeongram_chat.Base.Result.{Result, ok, err}
use pigeongram_chat.Models.{MessageEntity}
use pigeongram_chat.Repository.{Database, DbError}
use pigeongram_chat.Repository.Messages
use pigeongram_chat.Storage.{ObjectStore, list_files, get_file_info}
use pigeongram_chat.Websocket.Channels.{FileInfo, FileEventData, info, offer}
use pigeongram_chat.Websocket.Client.{Client}
use pigeongram_chat.Websocket.Manager.{Outside, Manager, send_file_event}
use pigeongram_chat.Websocket.Manager.Cases.{Stats, get_stats}
use pigeongram_chat.Web.{Reply, go_to}
use pigeongram_chat.Web.Files.{Hub, Answer, status, body}

-- What `GET` of a page yields.
pub data Page : Type 0 where
  redirects : Text → Page
  renders : Text → Dict Text Text → Page

-- `LoginPage` and `RegisterPage`, with the error of the query
unfoldable pub login_page : Text → Text → Page
login_page username error =
    if not (is_empty username)
    then redirects (bytes "/chat")
    else renders (bytes "login.html") ((bytes "Error", error) ∷ [])

unfoldable pub register_page : Text → Text → Page
register_page username error =
    if not (is_empty username)
    then redirects (bytes "/chat")
    else renders (bytes "register.html") ((bytes "Error", error) ∷ [])

-- `ChatPage`; the template gets the name itself.
unfoldable pub chat_page : Text → Page
chat_page username =
    if is_empty username
    then redirects (bytes "/")
    else renders (bytes "chat.html") ((bytes ".", username) ∷ [])

abbrev pub or_general : Text → Text
or_general chat_id = if is_empty chat_id then bytes "general" else chat_id

-- `FilePage`
unfoldable pub file_page : Text → Text → Page
file_page username chat_id =
    if is_empty username
    then redirects (bytes "/")
    else renders (bytes "files.html")
        ((bytes "Username", username) ∷ (bytes "ChatID", or_general chat_id) ∷ [])

-- The kinds of cache that `getCacheType` tells apart.
pub data CacheKind : Type 0 where
  no_cache redis_kind memory_kind other_kind : CacheKind

unfoldable pub get_cache_type : CacheKind → Text
get_cache_type no_cache = bytes "none"
get_cache_type redis_kind = bytes "redis"
get_cache_type memory_kind = bytes "memory"
get_cache_type other_kind = bytes "unknown"

-- The answer of `DebugStatsHandler`; `GetStats` has no entry "clients", so this one is null.
pub record DebugStats : Type 0 where
  pub debug_server_id : Text
  pub debug_clients : ℕ
  pub clients_entry : Option (List Text)
  pub debug_redis : Bool
  pub cache_type : Text

-- A row of `DebugLastMessages`.
pub record MessageRow : Type 0 where
  pub row_id : ℕ
  pub row_username : Text
  pub row_text : Text
  pub row_timestamp : ℕ
  pub row_user_id : ℕ

abbrev pub message_row : MessageEntity → MessageRow
message_row m = record {
  row_id = m.id;
  row_username = m.user.username;
  row_text = m.content;
  row_timestamp = m.timestamp;
  row_user_id = m.user_id;
}

module _ {W : Outside} where
  -- `DebugStatsHandler`, without a manager or with one
  unfoldable pub debug_stats : CacheKind → Option (Manager W) → Answer DebugStats
  unfolding get_cache_type get_stats
  debug_stats kind none = status 503
  debug_stats kind (some m) = body (record {
    debug_server_id = (get_stats m).stats_server_id;
    debug_clients = (get_stats m).clients_count;
    clients_entry = none;
    debug_redis = m.has_redis;
    cache_type = get_cache_type kind;
  })

  -- `MetricsHandler`: the clients, the kind of cache and whether Redis is there
  unfoldable pub metrics_handler : CacheKind → Option (Manager W) → Answer (ℕ × Text × Bool)
  unfolding get_cache_type get_stats
  metrics_handler kind none = status 503
  metrics_handler kind (some m) =
      body ((get_stats m).clients_count, get_cache_type kind, m.has_redis)

  -- `DebugWebSocket`
  unfoldable pub debug_websocket : Text → Option (Manager W) → Answer (Text × ℕ × Bool)
  debug_websocket username none = status (if is_empty username then 401 else 500)
  debug_websocket username (some m) =
      if is_empty username then status 401 else body (m.server_id, length m.clients, m.has_redis)

module _ (D : Database) where
  unfoldable pub listed_messages : Result DbError (List MessageEntity) → Answer (List MessageRow)
  listed_messages (err e) = status 500
  listed_messages (ok ms) = body (map message_row ms)

  -- `DebugLastMessages`, without a repository or with one
  unfoldable pub debug_last_messages : Text → Option D.State → Answer (List MessageRow)
  unfolding listed_messages Messages.get_recent
  debug_last_messages username repo =
      if is_empty username
      then status 401
      else if not (username == bytes "admin") && not (username == bytes "test")
      then status 403
      else elim repo [ none ↦ status 500 | some s ↦ listed_messages (Messages.get_recent D 50 s) ]

module _ (S : ObjectStore) where
  -- `DebugTestMinIO`: the buckets, and the files of the chat "general"
  unfoldable pub debug_test_minio :
      (S.State → Result Text (List Text)) → Text → Hub S → Answer (List Text × List FileInfo)
  unfolding list_files
  debug_test_minio buckets username h =
      if is_empty username then status 401 else elim (buckets h.objects) [
        | err e ↦ status 500
        | ok names ↦ elim (list_files S (bytes "general") h.objects) [
          | err e ↦ status 500
          | ok files ↦ body (names, files)
        ]
      ]

  -- `DebugCheckFile`; `DebugFileExists` does the same for the chat "general".
  unfoldable pub debug_check_file : Text → Text → Text → Hub S → Answer (Result Text FileInfo)
  unfolding get_file_info
  debug_check_file username chat_id key h =
      if is_empty username
      then status 401
      else if is_empty key
      then status 400
      else body (get_file_info S (or_general chat_id) key h.objects)

  unfoldable pub debug_file_exists : Text → Text → Hub S → Answer (Result Text FileInfo)
  unfolding debug_check_file
  debug_file_exists username key h = debug_check_file username (bytes "general") key h
