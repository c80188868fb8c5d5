-- ===== src/Config.antt =====
-- The configuration that is read from the environment (config). `time.ParseDuration` computes with
-- floating point numbers and is a parameter.
pub mod Numbers
pub mod Postgres
use pigeongram_chat.Base.{
  ℕ, zero, suc, ◌+◌, ◌-◌, ◌*◌, ◌^◌, Bool, true, false, ◌&&◌, ◌||◌, Option, none, some, List, [],
  ◌∷◌, ◌++◌, ◌==◌, nat_eq, list_eq, ltb, leb, if◌then◌else◌, is_empty,
}
use pigeongram_chat.Base.Text.{Text, bytes}
use pigeongram_chat.Base.Dict.{Dict, lookup}
use pigeongram_chat.Base.Time.{minute, hour}
use pigeongram_chat.Storage.{decimal}

-- Go's signed integers.
pub data ℤ : Type 0 where
  pos negsuc : ℕ → ℤ

abbrev pub Env : Type 0
Env = Dict Text Text

-- `os.Getenv`
unfoldable pub getenv : Text → Env → Text
getenv key env = elim (lookup key env) [ none ↦ [] | some value ↦ value ]

-- `GetEnv`
unfoldable pub get_env : Text → Text → Env → Text
unfolding getenv
get_env key default env = let value = getenv key env in if is_empty value then default else value

-- Digits after a number that has been read.
unfoldable pub digits_value : ℕ → Text → Option ℕ
digits_value n [] = some n
digits_value n (c ∷ s) =
    let rest = digits_value (10 * n + (c - b'0')) s in
    if leb b'0' c && leb c b'9' then rest else none

-- The number within the range of 64 bits, with its sign.
unfoldable pub in_range : Bool → Option ℕ → Option ℤ
in_range negative none = none
in_range false (some n) = if ltb n (2 ^ 63) then some (pos n) else none
in_range true (some zero) = some (pos 0)
in_range true (some (suc n)) = if ltb n (2 ^ 63) then some (negsuc n) else none

unfoldable pub digits : Text → Option ℕ
unfolding digits_value
digits s = if is_empty s then none else digits_value 0 s

-- `strconv.ParseInt(s, 10, 64)`, and `strconv.Atoi` where an int has 64 bits
unfoldable pub parse_int : Text → Option ℤ
unfolding digits in_range
parse_int [] = none
parse_int (c ∷ s) =
    if c == b'-'
    then in_range true (digits s)
    else if c == b'+'
    then in_range false (digits s)
    else in_range false (digits (c ∷ s))

unfoldable pub or_default {ℓ} : {A : Type ℓ} → A → Option A → A
or_default d none = d
or_default d (some a) = a

-- `GetEnvAsInt` and `GetEnvAsInt64`
unfoldable pub get_env_as_int : Text → ℤ → Env → ℤ
unfolding getenv parse_int or_default
get_env_as_int key default env =
    let value = getenv key env in
    if is_empty value then default else or_default default (parse_int value)

-- `GetEnvAsBool`
unfoldable pub get_env_as_bool : Text → Bool → Env → Bool
unfolding getenv
get_env_as_bool key default env =
    let value = getenv key env in
    if is_empty value
    then default
    else value == bytes "true" || value == bytes "1" || value == bytes "yes"

-- `GetServerEnvironment`
unfoldable pub get_server_environment : Env → Text
unfolding get_env
get_server_environment env = get_env (bytes "SERVER_ENVIRONMENT") (bytes "development") env

-- `GetPublicURL`
unfoldable pub get_public_url : Env → Text
unfolding get_env
get_public_url env =
    let domain = get_env (bytes "DOMAIN") (bytes "localhost") env in
    let port = get_env (bytes "NGINX_PORT") (bytes "80") env in
    if port == bytes "80" || port == bytes "443"
    then bytes "http://" ++ domain
    else bytes "http://" ++ (domain ++ (b':' ∷ port))

-- `%d`
unfoldable pub show_int : ℤ → Text
unfolding decimal
show_int (pos n) = decimal (suc n) n []
show_int (negsuc n) = b'-' ∷ decimal (suc (suc n)) (suc n) []

pub record DatabaseConfig : Type 0 where
  pub host : Text
  pub port : ℤ
  pub user : Text
  pub password : Text
  pub db_name : Text
  pub ssl_mode : Text
  pub reset_db : Bool
  pub force : Bool

-- `NewDefaultConfig`
unfoldable pub new_default_config : Env → DatabaseConfig
unfolding get_env get_env_as_int get_env_as_bool
new_default_config env = record {
  host = get_env (bytes "DB_HOST") (bytes "localhost") env;
  port = get_env_as_int (bytes "DB_PORT") (pos 5432) env;
  user = get_env (bytes "DB_USER") (bytes "pigeongram") env;
  password = get_env (bytes "DB_PASSWORD") (bytes "pigeongram_secret") env;
  db_name = get_env (bytes "DB_NAME") (bytes "pigeongram") env;
  ssl_mode = get_env (bytes "DB_SSLMODE") (bytes "disable") env;
  reset_db = get_env_as_bool (bytes "PIGEONGRAM_RESET_DB") false env;
  force = get_env_as_bool (bytes "PIGEONGRAM_FORCE") false env;
}

-- `DatabaseConfig.DSN`
unfoldable pub dsn : DatabaseConfig → Text
unfolding show_int
dsn c =
    bytes "host="
    ++ (c.host
        ++ (bytes " port="
            ++ (show_int c.port
                ++ (bytes " user="
                    ++ (c.user
                        ++ (bytes " password="
                            ++ (c.password
                                ++ (bytes " dbname="
                                    ++ (c.db_name
                                        ++ (bytes " sslmode="
                                            ++ (c.ssl_mode ++ bytes " TimeZone=UTC")))))))))))

-- What `RedisConfigReader.Load` yields.
pub record RedisConfig : Type 0 where
  pub host : Text
  pub port : ℤ
  pub password : Text
  pub db : ℤ
  pub ttl : ℤ

-- `GetCachePrefix`
unfoldable pub get_cache_prefix : Env → Text
unfolding get_env
get_cache_prefix env = get_env (bytes "REDIS_PREFIX") (bytes "pigeongram") env

-- `IsEnabled`
unfoldable pub is_enabled : Env → Bool
unfolding get_env_as_bool
is_enabled env = get_env_as_bool (bytes "REDIS_ENABLED") true env

pub record MinioConfig : Type 0 where
  pub endpoint : Text
  pub access_key_id : Text
  pub secret_access_key : Text
  pub use_ssl : Bool
  pub bucket_name : Text
  pub region : Text
  pub upload_expiry : ℤ
  pub download_expiry : ℤ
  pub max_file_size : ℤ
  pub public_endpoint : Text

module _ (parse_duration : Text → Option ℤ) where
  -- `GetEnvAsDuration`
  unfoldable pub get_env_as_duration : Text → ℤ → Env → ℤ
  unfolding getenv or_default
  get_env_as_duration key default env =
      let value = getenv key env in
      if is_empty value then default else or_default default (parse_duration value)

  -- `RedisConfigReader.Load`
  unfoldable pub load : Env → RedisConfig
  unfolding get_env get_env_as_int get_env_as_duration
  load env = record {
    host = get_env (bytes "REDIS_HOST") (bytes "localhost") env;
    port = get_env_as_int (bytes "REDIS_PORT") (pos 6379) env;
    password = get_env (bytes "REDIS_PASSWORD") (bytes "redis_secret") env;
    db = get_env_as_int (bytes "REDIS_DB") (pos 0) env;
    ttl = get_env_as_duration (bytes "REDIS_TTL") (pos (5 * minute)) env;
  }

  -- `NewMinIOConfig`
  unfoldable pub new_minio_config : Env → MinioConfig
  unfolding get_env get_env_as_int get_env_as_bool get_env_as_duration
  new_minio_config env = record {
    endpoint = get_env (bytes "MINIO_ENDPOINT") (bytes "localhost:9000") env;
    access_key_id = get_env (bytes "MINIO_ACCESS_KEY") (bytes "minioadmin") env;
    secret_access_key = get_env (bytes "MINIO_SECRET_KEY") (bytes "minioadmin") env;
    use_ssl = get_env_as_bool (bytes "MINIO_USE_SSL") false env;
    bucket_name = get_env (bytes "MINIO_BUCKET") (bytes "pigeongram-files") env;
    region = get_env (bytes "MINIO_REGION") (bytes "us-east-1") env;
    upload_expiry = get_env_as_duration (bytes "MINIO_UPLOAD_EXPIRY") (pos (15 * minute)) env;
    download_expiry = get_env_as_duration (bytes "MINIO_DOWNLOAD_EXPIRY") (pos (24 * hour)) env;
    max_file_size = get_env_as_int (bytes "MINIO_MAX_FILE_SIZE") (pos (100 * 2 ^ 20)) env;
    public_endpoint = get_env (bytes "MINIO_PUBLIC_URL") [] env;
  }
