-- ===== src/Tests/World.antt =====
-- A database of two rows, a Redis server, and a manager over them with two connections of one user.
use pigeongram_chat.Base.{
  ℕ, refl, true, false, Option, none, some, List, [], ◌∷◌, leb, if◌then◌else◌, arith, beq_refl,
  list_beq_iff, nat_eq, list_eq,
}
use pigeongram_chat.Base.Text.{Text, bytes}
use pigeongram_chat.Base.Result.{Result, ok, err}
use pigeongram_chat.Base.Dict.{Dict, lookup, insert, erase, lookup-insert, lookup-erase}
use pigeongram_chat.Models.{Message, UserEntity, MessageEntity}
use pigeongram_chat.Repository.{Database, record_not_found}
use pigeongram_chat.Cache.Memory.{MemoryCache, new_memory_cache}
use pigeongram_chat.Cache.Memory.Lawful.{memory_cache}
use pigeongram_chat.Cache.Redis.{RedisClient, RedisError, missing, Stores}
use pigeongram_chat.Websocket.Client.{Client}
use pigeongram_chat.Websocket.Manager.{Outside, Manager, member}
use pigeongram_chat.Websocket.Manager.Deliver.{IsOpen}
use pigeongram_chat.Websocket.Manager.Invariant.{IsValid}
use pigeongram_chat.Tests.Documents.{times, texts}

abbrev pub alice : UserEntity
alice = record {
  id = 7;
  username = bytes "alice";
  password = bytes "hash";
  last_seen = 1;
  created_at = 1;
  updated_at = 1;
  deleted_at = none;
}

abbrev pub row : ℕ → MessageEntity
row n = record {
  id = n;
  user_id = 7;
  content = bytes "hello";
  timestamp = n;
  created_at = n;
  updated_at = n;
  deleted_at = none;
  edited = false;
  edited_at = none;
  user = alice;
}

abbrev pub rows : List MessageEntity
rows = row 9 ∷ row 4 ∷ []

abbrev pub tables : Database
tables = record {
  State = Unit {0};
  first_user = λ name s. ok alice;
  first_user_by_id = λ id s. ok alice;
  create_user = λ u s. (ok tt, s);
  create_message = λ m s. (ok 10, s);
  create_session = λ v s. (ok tt, s);
  update_last_seen = λ id now s. (ok tt, s);
  first_message = λ id s. ok (row id);
  first_session = λ id s. err record_not_found;
  update_content = λ m text now s. (ok tt, s);
  find_messages = λ offset limit s. if leb 2 limit then ok rows else ok [];
  delete_session = λ id s. (ok tt, s);
  delete_expired = λ now s. (ok tt, s);
  count_users = λ s. ok 1;
  count_messages = λ s. ok 2;
}

abbrev pub world : Outside
world = record {
  cache = memory_cache;
  database = tables;
  times = times;
  texts = texts;
  base64 = λ t. t;
}

abbrev pub answer : Option Text → Result RedisError Text
answer none = err missing
answer (some v) = ok v

abbrev pub server : RedisClient
server = record {
  State = Dict Text Text;
  get = λ now k s. answer (lookup k s);
  set = λ now k v ttl s. (ok tt, insert k v s);
  del = λ k s. (ok tt, erase k s);
}

pub server-Stores : Stores server
server-Stores = record {
  get-set = λ now k v ttl s e. ground (arith, lookup-insert k k v s, beq_refl k);
  get-set_ne = λ now k j v ttl s d e. ground (arith, lookup-insert j k v s, list_beq_iff k j);
  get-del = λ now k s e. ground (arith, lookup-erase k k s, beq_refl k);
}

abbrev pub connection : ℕ → Client
connection r = record {
  id = r;
  username = bytes "alice";
  send = [];
  send_file_event = [];
  send_online = [];
  closed = false;
  connected_at = 1;
}

pub connection-IsOpen : (r : ℕ) → IsOpen (connection r)
connection-IsOpen r = record {
  still_open = refl;
  send_fits = omega arith;
  files_fit = omega arith;
  online_fits = omega arith;
}

abbrev pub hello : Message
hello = record {
  id = 0;
  username = bytes "alice";
  text = bytes "hello";
  timestamp = 3;
  edited = false;
}

abbrev pub cached : MemoryCache
cached = new_memory_cache 1000

-- Two connections of one user; the second is the one that the map of users names.
abbrev pub lobby : Manager world
lobby = record {
  heap = (1, connection 1) ∷ (2, connection 2) ∷ [];
  clients = 1 ∷ 2 ∷ [];
  online_users = (bytes "alice", 2) ∷ [];
  broadcast = [];
  file_events = [];
  edits = [];
  has_msg_repo = true;
  has_user_repo = true;
  database = tt;
  has_cache = true;
  cache = cached;
  has_redis = true;
  published = [];
  server_id = bytes "a";
  metrics = record {
    active_connections = 2;
    online_users = 1;
    messages_total = 0;
    files_uploaded_total = 0;
    files_size_bytes = 0;
    send_queue_full = 0;
    file_queue_full = 0;
    cache_hits = 0;
    cache_misses = 0;
    cache_updates = 0;
    cache_sets = 0;
    creates = 0;
    create_errors = 0;
    total_users = 0;
    total_messages = 0;
  };
  tasks = [];
}

pub lobby-IsValid : IsValid lobby
unfolding member lookup
lobby-IsValid = record {
  inv = record {
    distinct = (refl, (refl, tt));
    opens = (connection-IsOpen 1, (connection-IsOpen 2, tt));
    active_count = refl;
    shown_count = refl;
    listed = ((refl, refl), tt);
    one_entry = (refl, tt);
  };
  repo = refl;
}
