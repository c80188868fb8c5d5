-- ===== src/Cache/Memory.antt =====
-- `MemoryCache` (repository/cache/memory.go). Each method runs under its lock, so it is one step;
-- the counters are 64-bit patterns.
pub mod Messages
pub mod Cleanup
pub mod Lawful
use pigeongram_chat.Base.{
  ℕ, ◌+◌, ◌-◌, ◌%◌, ◌^◌, Bool, true, false, not, ◌&&◌, ◌||◌, Option, none, some, List, [], ◌∷◌,
  ◌++◌, ◌==◌, nat_eq, list_eq, ltb, if◌then◌else◌, length, drop, is_empty, any,
}
use pigeongram_chat.Base.Text.{Text}
use pigeongram_chat.Base.Time.{is_older}
use pigeongram_chat.Base.Dict
use pigeongram_chat.Base.Dict.{Dict}
use pigeongram_chat.Models.{Message, User, Session}

pub record CachedUser : Type 0 where
  pub user : Option User
  pub timestamp : ℕ

pub record CachedSession : Type 0 where
  pub session : Option Session
  pub timestamp : ℕ

pub record CacheStats : Type 0 where
  pub hits : ℕ
  pub misses : ℕ
  pub size : ℕ

pub record MemoryCache : Type 0 where
  pub messages : List Message
  pub messages_time : ℕ
  pub users : Dict Text CachedUser
  pub sessions : Dict Text CachedSession
  pub stats : CacheStats
  pub ttl : ℕ

unfoldable pub new_memory_cache : ℕ → MemoryCache
new_memory_cache ttl = record {
  messages = [];
  messages_time = 0;
  users = [];
  sessions = [];
  stats = record { hits = 0; misses = 0; size = 0 };
  ttl = ttl;
}

unfoldable pub update_stats : Bool → MemoryCache → MemoryCache
update_stats hit c = record c {
  stats =
      if hit
      then record (c.stats) { hits = (c.stats.hits + 1) % 2 ^ 64 }
      else record (c.stats) { misses = (c.stats.misses + 1) % 2 ^ 64 };
}

unfoldable pub get_recent_messages : ℕ → MemoryCache → Option (List Message) × MemoryCache
unfolding update_stats
get_recent_messages now c =
    if is_older c.ttl now c.messages_time
    then (none, update_stats false c)
    else if is_empty c.messages
    then (none, update_stats false c)
    else (some c.messages, update_stats true c)

unfoldable pub set_recent_messages : ℕ → List Message → MemoryCache → MemoryCache
set_recent_messages now messages c = record c { messages = messages; messages_time = now }

-- The test for a duplicate: id and edit mark are not compared.
unfoldable pub is_same_message : Message → Message → Bool
is_same_message message msg =
    msg.username == message.username
    && msg.text == message.text
    && msg.timestamp == message.timestamp

-- `if len(s) > 100 { s = s[len(s)-100:] }`
unfoldable pub last_hundred {ℓ} : {A : Type ℓ} → List A → List A
last_hundred xs = if ltb 100 (length xs) then drop (length xs - 100) xs else xs

unfoldable pub add_message : ℕ → Message → MemoryCache → MemoryCache
add_message now message c =
    if any (is_same_message message) c.messages
    then c
    else record c { messages = last_hundred (c.messages ++ (message ∷ [])); messages_time = now }

unfoldable pub invalidate_messages : MemoryCache → MemoryCache
invalidate_messages c = record c { messages = []; messages_time = 0 }

-- What a timed entry yields: nothing when it is missing or older than the time to live.
abbrev fresh_user : ℕ → ℕ → Option CachedUser → Option CachedUser
fresh_user ttl now none = none
fresh_user ttl now (some e) = if is_older ttl now e.timestamp then none else some e

abbrev pub fresh_session : ℕ → ℕ → Option CachedSession → Option CachedSession
fresh_session ttl now none = none
fresh_session ttl now (some e) = if is_older ttl now e.timestamp then none else some e

unfoldable pub get_user : ℕ → Text → MemoryCache → Option User × MemoryCache
unfolding update_stats
get_user now username c = elim (fresh_user c.ttl now (Dict.lookup username c.users)) [
  | none ↦ (none, update_stats false c)
  | some cached ↦ (cached.user, update_stats true c)
]

unfoldable pub set_user : ℕ → Text → Option User → MemoryCache → MemoryCache
set_user now username user c = record c {
  users = Dict.insert username (record { user = user; timestamp = now }) c.users;
}

unfoldable pub invalidate_user : Text → MemoryCache → MemoryCache
invalidate_user username c = record c { users = Dict.erase username c.users }

unfoldable pub get_session : ℕ → Text → MemoryCache → Option Session × MemoryCache
unfolding update_stats
get_session now session_id c = elim (fresh_session c.ttl now (Dict.lookup session_id c.sessions)) [
  | none ↦ (none, update_stats false c)
  | some cached ↦ (cached.session, update_stats true c)
]

unfoldable pub set_session : ℕ → Text → Option Session → MemoryCache → MemoryCache
set_session now session_id session c = record c {
  sessions = Dict.insert session_id (record { session = session; timestamp = now }) c.sessions;
}

unfoldable pub invalidate_session : Text → MemoryCache → MemoryCache
invalidate_session session_id c = record c { sessions = Dict.erase session_id c.sessions }

unfoldable pub get_stats : MemoryCache → CacheStats
get_stats c = record (c.stats) { size = length c.messages }

unfoldable pub cleanup : ℕ → MemoryCache → MemoryCache
unfolding invalidate_messages
cleanup now c =
    let swept = record c {
      users = Dict.retain (λ e. not (is_older c.ttl now e.timestamp)) c.users;
      sessions = Dict.retain (λ e. not (is_older c.ttl now e.timestamp)) c.sessions;
    } in
    if is_older c.ttl now c.messages_time then invalidate_messages swept else swept
