-- ===== src/Tests/Stores.antt =====
-- The theorems on caches, documents and rows at concrete inputs.
use pigeongram_chat.Base.{
  List, if-both, if◌then◌else◌, Option, none, drop, ◌==◌, nat_eq, list_eq, beq_refl, subst, ℕ, ◌≡◌,
  ◌≤◌, refl, true, list_beq, some, [], ◌∷◌, arith, any, leb,
}
use pigeongram_chat.Base.Text.{Text, bytes, trim_space}
use pigeongram_chat.Base.Result.{err, Result, ok, ok-injective}
use pigeongram_chat.Base.Dict.{lookup}
use pigeongram_chat.Models.{User, UserEntity, SessionEntity}
use pigeongram_chat.Cache.Memory.{
  MemoryCache, add_message, is_same_message, cleanup, get_recent_messages, get_user, get_session,
  new_memory_cache,
}
use pigeongram_chat.Cache.Memory.Messages.{IsRecent, add_message-IsRecent}
use pigeongram_chat.Cache.Memory.Cleanup.{cleanup_unobservable}
use pigeongram_chat.Cache.Redis.Lawful.{redis_cache, KeepsPlain, redis_cache-KeepsPlain}
use pigeongram_chat.Repository.{
  Database, DbError, record_not_found, failed, UsersLawful, UsersApart,
}
use pigeongram_chat.Repository.Sessions.{create_user_session}
use pigeongram_chat.Repository.Users
use pigeongram_chat.Repository.Users.{Bcrypt, Accepts}
use pigeongram_chat.Web.{Site, Form, holds, register, created, login}
use pigeongram_chat.Web.Registered.{login-register}
use pigeongram_chat.Cache.Memory.Lawful.{memory_cache}
use pigeongram_chat.Tests.Documents.{times, texts, times-Reads, texts-Parses}
use pigeongram_chat.Tests.World.{row, server, server-Stores, hello, cached}

add_message-IsRecent_example :
    IsRecent (add_message 5 hello cached).messages
    × (any (is_same_message hello) (add_message 5 hello cached).messages ≡ true)
unfolding new_memory_cache
add_message-IsRecent_example =
    add_message-IsRecent 5 hello cached (record { bounded = omega arith; distinct = tt })

-- A cache with a user who was stored at 100, swept at 5000.
abbrev with_user : MemoryCache
with_user = record {
  messages = hello ∷ [];
  messages_time = 100;
  users =
      (
        bytes "alice",
        record {
          user = some (record { username = bytes "alice"; password = [] });
          timestamp = 100;
        },
      )
      ∷ [];
  sessions = [];
  stats = record { hits = 0; misses = 0; size = 0 };
  ttl = 1000;
}

cleanup_unobservable_example :
    ((get_recent_messages 6000 (cleanup 5000 with_user)).0 ≡ (get_recent_messages 6000 with_user).0)
    × ((get_user 6000 (bytes "alice") (cleanup 5000 with_user)).0
        ≡ (get_user 6000 (bytes "alice") with_user).0)
    × ((get_session 6000 (bytes "alice") (cleanup 5000 with_user)).0
        ≡ (get_session 6000 (bytes "alice") with_user).0)
unfolding lookup
cleanup_unobservable_example =
    cleanup_unobservable 5000 6000 (bytes "alice") with_user
      (record { users = (refl, tt); sessions = tt }) (omega arith)

redis_cache-KeepsPlain_example : KeepsPlain (redis_cache server times texts (bytes "chat") 1000)
redis_cache-KeepsPlain_example =
    redis_cache-KeepsPlain server times texts (bytes "chat") 1000 server-Stores times-Reads
      texts-Parses

abbrev secret : User
secret = record { username = bytes "alice"; password = bytes "hash" }

leb→le : (a b : ℕ) → leb a b ≡ true → a ≤ b
leb→le a b h = ground arith

-- The user who was created last, and the ids of the sessions.
abbrev Rows : Type 0
Rows = Option UserEntity × List Text

abbrev newest : Rows → Result DbError UserEntity
newest (none, old) = err record_not_found
newest (some u, old) = ok u

-- The id of a session is stored once.
abbrev open_session : SessionEntity → Rows → Result DbError (Unit {0}) × Rows
open_session v (u, ids) =
    if any (λ id. id == v.session_id) ids
    then (err (failed (bytes "duplicate key")), (u, ids))
    else (ok tt, (u, v.session_id ∷ ids))

-- A table of users that holds the user who was created last, and one of sessions.
abbrev accounts : Database
accounts = record {
  State = Rows;
  first_user = λ name s. newest s;
  first_user_by_id = λ id s. newest s;
  create_user = λ u s. (ok tt, (some u, s.1));
  create_message = λ m s. (ok 10, s);
  create_session = open_session;
  update_last_seen = λ id now s. (ok tt, s);
  first_message = λ id s. ok (row id);
  first_session = λ id s. err record_not_found;
  update_content = λ m text now s. (ok tt, s);
  find_messages = λ offset limit s. ok [];
  delete_session = λ id s. (ok tt, s);
  delete_expired = λ now s. (ok tt, s);
  count_users = λ s. ok 1;
  count_messages = λ s. ok 0;
}

accounts-UsersLawful : UsersLawful accounts
accounts-UsersLawful = record { created = λ u s e. (u, refl, refl) }

abbrev salted : Bcrypt
salted = record { generate = λ salt p. ok (salt ∷ p); compare = λ h p. drop 1 h == p }

salted-Accepts : Accepts salted
salted-Accepts salt p h e =
    subst (λ k. (drop 1 k == p) ≡ true) (ok-injective (salt ∷ p) h e) (beq_refl p)

same_newest : (s : Rows) (ids : List Text) → newest (s.0, ids) ≡ newest s
same_newest (none, old) ids = refl
same_newest (some u, old) ids = refl

accounts-UsersApart : UsersApart accounts
accounts-UsersApart = record {
  kept = λ name v s.
      if-both (λ (p : Result DbError (Unit {0}) × Rows). newest p.1 ≡ newest s)
        (any (λ id. id == v.session_id) s.1) (same_newest s s.1)
        (same_newest s (v.session_id ∷ s.1));
}

abbrev empty_site : Site accounts memory_cache
empty_site = record { database = (none, []); has_cache = true; cache = new_memory_cache 1000 }

abbrev registration : Form
registration = record {
  is_post = true;
  username = bytes "alice";
  password = bytes "hash";
  confirm = bytes "hash";
}

login-register_example :
    (login salted 6
      (bytes "s2")
      registration
      (register salted 9 5 (bytes "s1") registration empty_site).1).0.cookie
    ≡ holds (bytes "s2")
unfolding register created Users.get_by_username Users.create Users.hash_password trim_space
    list_beq any create_user_session
login-register_example =
    login-register salted 9 5 6 (bytes "s1") (bytes "s2") registration empty_site
      accounts-UsersLawful accounts-UsersApart salted-Accepts (λ w found. refl) refl
