-- ===== src/Server.antt =====
-- What `main` (cmd/server/main.go) puts together: the name of the server, whether Redis and the store of
-- files are used, the cache, and the routes. The connections are parameters; listening is left out.
pub mod Kept
pub mod Mux
pub mod App
pub mod Handling
pub mod Runs
use pigeongram_chat.Base.{
  ℕ, suc, Bool, true, false, not, ◌&&◌, Option, none, some, List, [], ◌∷◌, ◌++◌, ◌==◌, list_eq,
  nat_eq, if◌then◌else◌, is_empty,
}
use pigeongram_chat.Base.Text.{Text, bytes}
use pigeongram_chat.Base.Result.{Result, ok, err}
use pigeongram_chat.Config.{
  Env, DatabaseConfig, RedisConfig, MinioConfig, ℤ, new_default_config, is_enabled, load,
  new_minio_config, get_server_environment, get_cache_prefix,
}
use pigeongram_chat.Storage.{decimal}
use pigeongram_chat.Web.Debug.{CacheKind, redis_kind, memory_kind}

-- The flags of the command line.
pub record Flags : Type 0 where
  pub reset_db : Bool
  pub use_redis : Bool
  pub server_id : Text

-- What answers outside: Redis at a ping, the cache of Redis with its prefix when it is made, and MinIO
-- at the check of its bucket.
pub record Services : Type 0 where
  pub redis_answers : RedisConfig → Bool
  pub redis_cache_answers : RedisConfig → Text → Bool
  pub minio_answers : MinioConfig → Bool

-- The handlers that `main` registers, and `AuthMiddleware` around one of them.
pub data Handler : Type 0 where
  login_page login_handler register_page register_handler chat_page logout_handler : Handler
  web_socket_handler : Handler
  file_page request_upload upload_complete list_files get_download_url delete_file : Handler
  proxy_download : Handler
  test_file_notification debug_web_socket debug_send_test_event debug_check_file : Handler
  debug_last_messages debug_test_minio debug_file_exists : Handler
  prometheus static_files : Handler
  auth_middleware : Handler → Handler

pub record Started : Type 0 where
  pub name : Text
  pub database : DatabaseConfig
  pub has_redis : Bool
  pub cache_kind : CacheKind
  pub has_minio : Bool
  pub routes : List (Text × Handler)

-- `*serverID`, or the host and the time
unfoldable pub server_name : Flags → Text → ℕ → Text
unfolding decimal
server_name f hostname now =
    if is_empty f.server_id then hostname ++ (b'-' ∷ decimal (suc now) now []) else f.server_id

unfoldable pub database_config : Flags → Env → DatabaseConfig
unfolding new_default_config
database_config f env =
    let c = new_default_config env in if f.reset_db then record c { reset_db = true } else c

unfoldable pub redis_used : Services → Flags → RedisConfig → Env → Bool
unfolding is_enabled
redis_used s f c env = f.use_redis && is_enabled env && s.redis_answers c

-- The cache of Redis if there is a connection and the cache answers too, else the one in memory.
unfoldable pub cache_used : Services → Bool → RedisConfig → Env → CacheKind
unfolding get_cache_prefix
cache_used s has_redis c env =
    if has_redis && s.redis_cache_answers c (get_cache_prefix env) then redis_kind else memory_kind

abbrev pub public_routes : List (Text × Handler)
public_routes =
    (bytes "/", login_page)
    ∷ (bytes "/login", login_handler)
    ∷ (bytes "/register", register_page)
    ∷ (bytes "/register-handler", register_handler)
    ∷ (bytes "/chat", auth_middleware chat_page)
    ∷ (bytes "/logout", logout_handler)
    ∷ (bytes "/ws", auth_middleware web_socket_handler)
    ∷ []

abbrev pub file_routes : List (Text × Handler)
file_routes =
    (bytes "/files", file_page)
    ∷ (bytes "/api/files/upload-url", request_upload)
    ∷ (bytes "/api/files/upload-complete", upload_complete)
    ∷ (bytes "/api/files/list", list_files)
    ∷ (bytes "/api/files/download-url", get_download_url)
    ∷ (bytes "/api/files/delete", delete_file)
    ∷ (bytes "/api/files/download", proxy_download)
    ∷ []

abbrev pub debug_routes : List (Text × Handler)
debug_routes =
    (bytes "/debug/test-notify", test_file_notification)
    ∷ (bytes "/debug/websocket", debug_web_socket)
    ∷ (bytes "/debug/send-to-user", debug_send_test_event)
    ∷ (bytes "/debug/check-file", debug_check_file)
    ∷ (bytes "/debug/last-messages", debug_last_messages)
    ∷ (bytes "/debug/test-minio", debug_test_minio)
    ∷ (bytes "/debug/file-exists", debug_file_exists)
    ∷ []

unfoldable pub routes_for : Bool → Bool → List (Text × Handler)
routes_for has_minio development =
    public_routes
    ++ ((if has_minio then file_routes else [])
        ++ (((bytes "/metrics", prometheus) ∷ [])
            ++ ((if development && has_minio then debug_routes else [])
                ++ ((bytes "/static/", static_files) ∷ []))))

-- `main`, up to the start of the manager and the listening
unfoldable pub started : Services → (Text → Option ℤ) → Flags → Env → Text → ℕ → Started
unfolding server_name database_config redis_used cache_used routes_for load new_minio_config
    get_server_environment
started s parse_duration f env hostname now =
    let c = load parse_duration env in
    let has_redis = redis_used s f c env in
    let has_minio = s.minio_answers (new_minio_config parse_duration env) in
    record {
      name = server_name f hostname now;
      database = database_config f env;
      has_redis = has_redis;
      cache_kind = cache_used s has_redis c env;
      has_minio = has_minio;
      routes = routes_for has_minio (get_server_environment env == bytes "development");
    }
