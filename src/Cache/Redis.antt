-- ===== src/Cache/Redis.antt =====
-- `RedisCache` (repository/cache/redis.go) over a Redis server, which is a parameter.
pub mod Lawful
pub mod Connection
use pigeongram_chat.Base.{
  ℕ, ◌-◌, ◌≡◌, ◌≢◌, Bool, true, false, Option, none, some, List, [], ◌∷◌, ◌++◌, ltb, if◌then◌else◌,
  length, drop, any,
}
use pigeongram_chat.Base.Text.{Text, bytes}
use pigeongram_chat.Base.Result.{Result, ok, err}
use pigeongram_chat.Models.{Message, User, Session}
use mathlib.Core.Option
use pigeongram_chat.Json.{Json, arr, null}
use pigeongram_chat.Json.Structs.{
  TimeText, JsonText, encode_items, decode_messages, encode_user, decode_user, encode_session,
  decode_session,
}
use pigeongram_chat.Cache.Memory.{is_same_message, last_hundred}

-- `redis.Nil` for a missing key, or any other error.
pub data RedisError : Type 0 where
  missing : RedisError
  failed : Text → RedisError

-- The commands that the cache sends. A key that has outlived its time is missing.
pub record RedisClient : Type 1 where
  pub State : Type 0
  pub get : ℕ → Text → State → Result RedisError Text
  -- key, value, time to live, at a time
  pub set : ℕ → Text → Text → ℕ → State → Result RedisError (Unit {0}) × State
  pub del : Text → State → Result RedisError (Unit {0}) × State

pub record Stores (R : RedisClient) : Type 0 where
  pub get-set :
      (now : ℕ) (k v : Text) (ttl : ℕ) (s : R.State)
      → (R.set now k v ttl s).0 ≡ ok tt
      → R.get now k (R.set now k v ttl s).1 ≡ ok v
  pub get-set_ne :
      (now : ℕ) (k j v : Text) (ttl : ℕ) (s : R.State)
      → k ≢ j
      → (R.set now k v ttl s).0 ≡ ok tt
      → R.get now j (R.set now k v ttl s).1 ≡ R.get now j s
  pub get-del :
      (now : ℕ) (k : Text) (s : R.State)
      → (R.del k s).0 ≡ ok tt
      → R.get now k (R.del k s).1 ≡ err missing

-- `keyMessages`, `keyUser` and `keySession`
unfoldable pub key_messages : Text → Text
key_messages prefix = prefix ++ bytes ":recent:messages"

unfoldable pub key_user : Text → Text → Text
key_user prefix username = prefix ++ (bytes ":user:" ++ username)

unfoldable pub key_session : Text → Text → Text
key_session prefix session_id = prefix ++ (bytes ":session:" ++ session_id)

-- The text of an error is kept; `redis.Nil` does not get this far.
abbrev error_text : RedisError → Text
error_text missing = bytes "redis: nil"
error_text (failed e) = e

abbrev from_redis : {A : Type 0} {S : Type 0} → Result RedisError A × S → Result Text A × S
from_redis (ok a, s) = (ok a, s)
from_redis (err e, s) = (err (error_text e), s)

-- A read: a missing key is `nil`, a value is decoded.
unfoldable pub read :
    {A : Type 0} → Result RedisError Text → (Text → Option (Option A)) → Result Text (Option A)
read (err missing) decode = ok none
read (err (failed e)) decode = err e
read (ok v) decode = elim (decode v) [ none ↦ err (bytes "json") | some r ↦ ok r ]

module _ (R : RedisClient) (c : TimeText) (t : JsonText) (prefix : Text) (ttl : ℕ) where
  unfoldable pub get_recent_messages : ℕ → R.State → Result Text (Option (List Message))
  unfolding read
  get_recent_messages now s =
      read (R.get now (key_messages prefix) s)
        (λ v. elim (t.parse v) [ none ↦ none | some j ↦ decode_messages c j ])

  unfoldable pub set_recent_messages : ℕ → List Message → R.State → Result Text (Unit {0}) × R.State
  set_recent_messages now messages s =
      from_redis (R.set now (key_messages prefix) (t.print (arr (encode_items c messages))) ttl s)

  -- `AddMessage`
  unfoldable pub add_message : ℕ → Message → R.State → Result Text (Unit {0}) × R.State
  add_message now message s = elim (get_recent_messages now s) [
    | err e ↦ (err e, s)
    | ok none ↦ set_recent_messages now (message ∷ []) s
    | ok (some messages) ↦
        if any (is_same_message message) messages
        then (ok tt, s)
        else set_recent_messages now (last_hundred (messages ++ (message ∷ []))) s
  ]

  unfoldable pub get_user : ℕ → Text → R.State → Result Text (Option User)
  unfolding read
  get_user now username s =
      read (R.get now (key_user prefix username) s)
        (λ v. elim (t.parse v) [ none ↦ none | some j ↦ Option.map some (decode_user j) ])

  unfoldable pub get_session : ℕ → Text → R.State → Result Text (Option Session)
  unfolding read
  get_session now session_id s =
      read (R.get now (key_session prefix session_id) s)
        (λ v. elim (t.parse v) [ none ↦ none | some j ↦ Option.map some (decode_session j) ])

  -- A `nil` pointer is written as `null`.
  unfoldable pub set_user : ℕ → Text → Option User → R.State → Result Text (Unit {0}) × R.State
  set_user now username user s =
      let j : Json = elim user [ none ↦ null | some u ↦ encode_user u ] in
      from_redis (R.set now (key_user prefix username) (t.print j) ttl s)

  unfoldable pub set_session :
      ℕ → Text → Option Session → R.State → Result Text (Unit {0}) × R.State
  set_session now session_id session s =
      let j : Json = elim session [ none ↦ null | some v ↦ encode_session v ] in
      from_redis (R.set now (key_session prefix session_id) (t.print j) ttl s)

module _ (R : RedisClient) (prefix : Text) where
  unfoldable pub invalidate_messages : R.State → Result Text (Unit {0}) × R.State
  invalidate_messages s = from_redis (R.del (key_messages prefix) s)

  unfoldable pub invalidate_user : Text → R.State → Result Text (Unit {0}) × R.State
  invalidate_user username s = from_redis (R.del (key_user prefix username) s)

  unfoldable pub invalidate_session : Text → R.State → Result Text (Unit {0}) × R.State
  invalidate_session session_id s = from_redis (R.del (key_session prefix session_id) s)
