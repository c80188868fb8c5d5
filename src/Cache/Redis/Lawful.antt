-- ===== src/Cache/Redis/Lawful.antt =====
-- `RedisCache` as an implementation of `Cache`, over a Redis server that stores what it is given.
use pigeongram_chat.Base.{
  ℕ, true, ◌≡◌, ◌≢◌, refl, Option, none, some, List, [], ◌∷◌, ◌++◌, nat_eq, list_eq, All,
}
use pigeongram_chat.Base.Sorting.{All-mono}
use pigeongram_chat.Base.Text.{Text, bytes}
use pigeongram_chat.Base.Result.{Result, ok, err}
use pigeongram_chat.Models.{Message, User, Session}
use pigeongram_chat.Json.{arr}
use pigeongram_chat.Json.Structs.{TimeText, JsonText, encode_items, encode_session, encode_user}
use pigeongram_chat.Json.RoundTrip.{
  IsReadable, decode-encode_messages, decode-encode_session, decode-encode_user,
}
use pigeongram_chat.Json.Written.{
  Reads, Parses, IsPlain, is_utf8, encode_items-are_flat, encode_session-written,
  encode_user-written,
}
use pigeongram_chat.Cache.{Cache, found}
use pigeongram_chat.Cache.Redis
use pigeongram_chat.Cache.Redis.{
  RedisClient, RedisError, missing, failed, Stores, key_session, key_messages, key_user, read,
  from_redis, error_text,
}

append_injective : {A : Type 0} (xs ys zs : List A) → xs ++ ys ≡ xs ++ zs → ys ≡ zs
append_injective [] ys zs e = e
append_injective (x ∷ xs) ys zs e = append_injective xs ys zs (cc)

key_session-injective : (prefix a b : Text) → key_session prefix a ≡ key_session prefix b → a ≡ b
unfolding key_session
key_session-injective prefix a b e =
    append_injective (bytes ":session:") a b (append_injective prefix _ _ e)

from_redis-ok :
    {A S : Type 0} (r : Result RedisError A × S) (a : A)
    → (from_redis r).0 ≡ ok a
    → (r.0 ≡ ok a) × ((from_redis r).1 ≡ r.1)
from_redis-ok (ok x, s) a e = (cc, refl)
from_redis-ok (err x, s) a e = cc

module _ (R : RedisClient) (c : TimeText) (t : JsonText) (prefix : Text) (ttl : ℕ) where
  abbrev pub redis_cache : Cache
  redis_cache = record {
    State = R.State;
    get_recent_messages = λ now s. (Redis.get_recent_messages R c t prefix ttl now s, s);
    set_recent_messages = λ now ms s. Redis.set_recent_messages R c t prefix ttl now ms s;
    add_message = λ now m s. Redis.add_message R c t prefix ttl now m s;
    invalidate_messages = λ s. Redis.invalidate_messages R prefix s;
    get_user = λ now k s. (Redis.get_user R c t prefix ttl now k s, s);
    set_user = λ now k u s. Redis.set_user R c t prefix ttl now k u s;
    invalidate_user = λ k s. Redis.invalidate_user R prefix k s;
    get_session = λ now k s. (Redis.get_session R c t prefix ttl now k s, s);
    set_session = λ now k v s. Redis.set_session R c t prefix ttl now k v s;
    invalidate_session = λ k s. Redis.invalidate_session R prefix k s;
  }

-- The laws of the interface (Cache.antt) for the messages and sessions that JSON can hold as they are.
pub record KeepsPlain (C : Cache) : Type 0 where
  pub get-set_messages :
      (now : ℕ) (ms : List Message) (s : C.State)
      → All IsPlain ms
      → (C.set_recent_messages now ms s).0 ≡ ok tt
      → found (C.get_recent_messages now (C.set_recent_messages now ms s).1).0 ≡ ms
  pub get-invalidate_messages :
      (now : ℕ) (s : C.State)
      → (C.invalidate_messages s).0 ≡ ok tt
      → found (C.get_recent_messages now (C.invalidate_messages s).1).0 ≡ []
  pub get-set_session :
      (now : ℕ) (k : Text) (v : Session) (s : C.State)
      → is_utf8 v.username ≡ true
      → (C.set_session now k (some v) s).0 ≡ ok tt
      → (C.get_session now k (C.set_session now k (some v) s).1).0 ≡ ok (some v)
  pub get-set_session_ne :
      (now : ℕ) (k j : Text) (v : Option Session) (s : C.State)
      → k ≢ j
      → (C.set_session now k v s).0 ≡ ok tt
      → (C.get_session now j (C.set_session now k v s).1).0 ≡ (C.get_session now j s).0
  pub get-invalidate_session :
      (now : ℕ) (k : Text) (s : C.State)
      → (C.invalidate_session k s).0 ≡ ok tt
      → (C.get_session now k (C.invalidate_session k s).1).0 ≡ ok none

plain_message-IsReadable : (c : TimeText) → Reads c → (m : Message) → IsPlain m → IsReadable c m
plain_message-IsReadable c reads m p = record {
  id_fits = p.id_fits;
  time_back = reads.back m.timestamp p.usual_time;
}

module _ (R : RedisClient) (c : TimeText) (t : JsonText) (prefix : Text) (ttl : ℕ)
    (stores : Stores R) (reads : Reads c) (parses : Parses t) where
  get-set_messages :
      (now : ℕ) (ms : List Message) (s : R.State)
      → All IsPlain ms
      → (Redis.set_recent_messages R c t prefix ttl now ms s).0 ≡ ok tt
      → found (
          Redis.get_recent_messages R c t prefix ttl now
            (Redis.set_recent_messages R c t prefix ttl now ms s).1)
        ≡ ms
  unfolding Redis.get_recent_messages Redis.set_recent_messages
  get-set_messages now ms s plain e =
      let readable = All-mono (plain_message-IsReadable c reads) ms plain in
      let value = t.print (arr (encode_items c ms)) in
      let done = from_redis-ok (R.set now (key_messages prefix) value ttl s) tt e in
      rw (done.1) (
        rw (stores.get-set now (key_messages prefix) value ttl s done.0) (
          rw (parses (arr (encode_items c ms)) (encode_items-are_flat c ms reads plain))
            (rw (decode-encode_messages c ms readable))))

  get-invalidate_messages :
      (now : ℕ) (s : R.State)
      → (Redis.invalidate_messages R prefix s).0 ≡ ok tt
      → found
          (Redis.get_recent_messages R c t prefix ttl now (Redis.invalidate_messages R prefix s).1)
        ≡ []
  unfolding Redis.get_recent_messages Redis.invalidate_messages
  get-invalidate_messages now s e =
      let done = from_redis-ok (R.del (key_messages prefix) s) tt e in
      rw (done.1) (rw (stores.get-del now (key_messages prefix) s done.0))

  get-set_session :
      (now : ℕ) (k : Text) (v : Session) (s : R.State)
      → is_utf8 v.username ≡ true
      → (Redis.set_session R c t prefix ttl now k (some v) s).0 ≡ ok tt
      → Redis.get_session R c t prefix ttl now k
          (Redis.set_session R c t prefix ttl now k (some v) s).1
        ≡ ok (some v)
  unfolding Redis.get_session Redis.set_session
  get-set_session now k v s utf8 e =
      let value = t.print (encode_session v) in
      let done = from_redis-ok (R.set now (key_session prefix k) value ttl s) tt e in
      rw (done.1) (
        rw (stores.get-set now (key_session prefix k) value ttl s done.0) (
          rw (parses (encode_session v) (encode_session-written v utf8))
            (rw (decode-encode_session v))))

  get-set_session_ne :
      (now : ℕ) (k j : Text) (v : Option Session) (s : R.State)
      → k ≢ j
      → (Redis.set_session R c t prefix ttl now k v s).0 ≡ ok tt
      → Redis.get_session R c t prefix ttl now j (Redis.set_session R c t prefix ttl now k v s).1
        ≡ Redis.get_session R c t prefix ttl now j s
  unfolding Redis.get_session Redis.set_session
  get-set_session_ne now k j v s d e =
      let done = from_redis-ok (R.set now (key_session prefix k) _ ttl s) tt e in
      rw (done.1) (
        rw (
          stores.get-set_ne now (key_session prefix k) (key_session prefix j) _ ttl s
            (λ p. d (key_session-injective prefix k j p)) done.0))

  get-invalidate_session :
      (now : ℕ) (k : Text) (s : R.State)
      → (Redis.invalidate_session R prefix k s).0 ≡ ok tt
      → Redis.get_session R c t prefix ttl now k (Redis.invalidate_session R prefix k s).1 ≡ ok none
  unfolding Redis.get_session Redis.invalidate_session
  get-invalidate_session now k s e =
      let done = from_redis-ok (R.del (key_session prefix k) s) tt e in
      rw (done.1) (rw (stores.get-del now (key_session prefix k) s done.0))

  -- Over a server that stores what it is given, the Redis cache reads back what it stored, if the
  -- texts are UTF-8, the ids fit 64 bits and the times lie from 1970 on and before 9999; it forgets
  -- what was invalidated, and sessions do not disturb one another.
  pub redis_cache-KeepsPlain : KeepsPlain (redis_cache R c t prefix ttl)
  redis_cache-KeepsPlain = record {
    get-set_messages = get-set_messages;
    get-invalidate_messages = get-invalidate_messages;
    get-set_session = get-set_session;
    get-set_session_ne = get-set_session_ne;
    get-invalidate_session = get-invalidate_session;
  }

  -- A user with a name in UTF-8 that was stored comes back with an empty password: the tag of the field keeps it out of
  -- the document, while the memory cache returns it.
  redis_forgets_password :
      (now : ℕ) (k : Text) (u : User) (s : R.State)
      → is_utf8 u.username ≡ true
      → (Redis.set_user R c t prefix ttl now k (some u) s).0 ≡ ok tt
      → Redis.get_user R c t prefix ttl now k (Redis.set_user R c t prefix ttl now k (some u) s).1
        ≡ ok (some (record { username = u.username; password = [] }))
  unfolding Redis.get_user Redis.set_user
  redis_forgets_password now k u s utf8 e =
      let value = t.print (encode_user u) in
      let done = from_redis-ok (R.set now (key_user prefix k) value ttl s) tt e in
      rw (done.1) (
        rw (stores.get-set now (key_user prefix k) value ttl s done.0)
          (rw (parses (encode_user u) (encode_user-written u utf8)) (rw (decode-encode_user u))))
