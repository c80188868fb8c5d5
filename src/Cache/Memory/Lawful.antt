-- ===== src/Cache/Memory/Lawful.antt =====
-- `MemoryCache` as an implementation of `Cache`.
use pigeongram_chat.Base.{
  ℕ, ◌≡◌, Option, none, some, List, [], ◌∷◌, ◌==◌, nat_eq, list_eq, list_beq_iff, if◌then◌else◌,
  arith, beq_refl,
}
use pigeongram_chat.Base.Text.{Text}
use pigeongram_chat.Base.Result.{ok}
use pigeongram_chat.Base.Dict.{lookup-insert, lookup-erase}
use pigeongram_chat.Models.{Message, Session}
use pigeongram_chat.Cache.{Cache, IsLawful, found}
use pigeongram_chat.Cache.Memory
use pigeongram_chat.Cache.Memory.{
  MemoryCache, CachedSession, get_recent_messages, set_recent_messages, invalidate_messages,
  get_session, set_session, invalidate_session,
}

-- No method of it returns an error.
abbrev pub memory_cache : Cache
memory_cache = record {
  State = MemoryCache;
  get_recent_messages = λ now c. let (r, c') = Memory.get_recent_messages now c in (ok r, c');
  set_recent_messages = λ now ms c. (ok tt, Memory.set_recent_messages now ms c);
  add_message = λ now m c. (ok tt, Memory.add_message now m c);
  invalidate_messages = λ c. (ok tt, Memory.invalidate_messages c);
  get_user = λ now k c. let (r, c') = Memory.get_user now k c in (ok r, c');
  set_user = λ now k u c. (ok tt, Memory.set_user now k u c);
  invalidate_user = λ k c. (ok tt, Memory.invalidate_user k c);
  get_session = λ now k c. let (r, c') = Memory.get_session now k c in (ok r, c');
  set_session = λ now k v c. (ok tt, Memory.set_session now k v c);
  invalidate_session = λ k c. (ok tt, Memory.invalidate_session k c);
}

get-set_messages :
    (now : ℕ) (ms : List Message) (c : MemoryCache)
    → found (ok (get_recent_messages now (set_recent_messages now ms c)).0) ≡ ms
unfolding get_recent_messages set_recent_messages
get-set_messages now [] c = ground arith
get-set_messages now (m ∷ ms) c = ground arith

get-invalidate_messages :
    (now : ℕ) (c : MemoryCache)
    → found (ok (get_recent_messages now (invalidate_messages c)).0) ≡ []
unfolding get_recent_messages invalidate_messages
get-invalidate_messages now c = ground arith

get-set_session :
    (now : ℕ) (k j : Text) (v : Option Session) (c : MemoryCache)
    → (get_session now j (set_session now k v c)).0
      ≡ (if k == j then v else (get_session now j c).0)
unfolding get_session set_session
get-set_session now k j v c =
    ground (arith, lookup-insert j k (record { session = v; timestamp = now }) c.sessions)

get-invalidate_session :
    (now : ℕ) (k : Text) (c : MemoryCache) → (get_session now k (invalidate_session k c)).0 ≡ none
unfolding get_session invalidate_session
get-invalidate_session now k c = ground (arith, lookup-erase k k c.sessions, beq_refl k)

-- The memory cache keeps the laws of the interface.
pub memory_cache-IsLawful : IsLawful memory_cache
memory_cache-IsLawful = record {
  get-set_messages = λ now ms c h e. get-set_messages now ms c;
  get-invalidate_messages = λ now c e. get-invalidate_messages now c;
  get-set_session = λ now k v c e. ground (arith, get-set_session now k k (some v) c, beq_refl k);
  get-set_session_ne =
      λ now k j v c d e. ground (arith, get-set_session now k j v c, list_beq_iff k j);
  get-invalidate_session = λ now k c e. ground (arith, get-invalidate_session now k c);
}
