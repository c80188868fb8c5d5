-- ===== src/Cache/Redis/Connection.antt =====
-- The calls of `RedisCache` on the server as a whole (repository/cache/redis.go): `NewRedisCache`,
-- `Close`, `FlushAll` and `Stats`. The driver is a parameter.
use pigeongram_chat.Base.{[], ◌∷◌, ◌++◌}
use pigeongram_chat.Base.Text.{Text, bytes}
use pigeongram_chat.Base.Dict.{Dict}
use pigeongram_chat.Base.Result.{Result, ok, err}
use pigeongram_chat.Config.{ℤ}

pub record RedisConfig : Type 0 where
  pub host : Text
  pub port : ℤ
  pub password : Text
  pub db : ℤ
  pub ttl : ℤ
  pub prefix : Text

-- `redis.NewClient`, `Ping`, `Close`, `FlushAll` and `Info`.
pub record RedisDriver : Type 1 where
  pub State : Type 0
  pub new_client : RedisConfig → State
  pub ping : State → Result Text (Unit {0})
  pub close : State → Result Text (Unit {0}) × State
  pub flush_all : State → Result Text (Unit {0}) × State
  pub info : State → Result Text Text

-- `RedisCache`
pub record RedisCache (V : RedisDriver) : Type 0 where
  pub client : V.State
  pub ttl : ℤ
  pub prefix : Text

module _ (V : RedisDriver) where
  -- `NewRedisCache`
  unfoldable pub new_redis_cache : RedisConfig → Result Text (RedisCache V)
  new_redis_cache c = elim (V.ping (V.new_client c)) [
    | err e ↦ err (bytes "❌ Ошибка подключения к Redis: " ++ e)
    | ok _ ↦ ok (record { client = V.new_client c; ttl = c.ttl; prefix = c.prefix })
  ]

  -- `Close` and `FlushAll`
  unfoldable pub close : RedisCache V → Result Text (Unit {0}) × RedisCache V
  close r = ((V.close r.client).0, record r { client = (V.close r.client).1 })

  unfoldable pub flush_all : RedisCache V → Result Text (Unit {0}) × RedisCache V
  flush_all r = ((V.flush_all r.client).0, record r { client = (V.flush_all r.client).1 })

  -- `Stats`
  unfoldable pub stats : RedisCache V → Dict Text Text
  stats r = elim (V.info r.client) [
    | err e ↦ (bytes "error", e) ∷ []
    | ok text ↦ (bytes "info", text) ∷ []
  ]
