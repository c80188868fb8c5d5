-- ===== src/Cache/Memory/Cleanup.antt =====
-- The sweep of the memory cache (`cleanup` of repository/cache/memory.go), and the form of its maps.
use pigeongram_chat.Base.{ℕ, ◌≤◌, ◌≡◌, not, arith, nat_eq, list_eq}
use pigeongram_chat.Base.Text.{Text}
use pigeongram_chat.Base.Time.{is_older}
use pigeongram_chat.Base.Dict.{NodupKeys, lookup-retain, retain-NodupKeys}
use pigeongram_chat.Cache.Memory.{MemoryCache, get_recent_messages, get_user, get_session, cleanup}

-- Both maps hold one entry for a key.
pub record IsValid (c : MemoryCache) : Type 0 where
  pub users : NodupKeys c.users
  pub sessions : NodupKeys c.sessions

get_recent_messages-cleanup :
    (now later : ℕ) (c : MemoryCache)
    → now ≤ later
    → (get_recent_messages later (cleanup now c)).0 ≡ (get_recent_messages later c).0
unfolding get_recent_messages cleanup
get_recent_messages-cleanup now later c h = ground arith

get_user-cleanup :
    (now later : ℕ) (k : Text) (c : MemoryCache)
    → IsValid c
    → now ≤ later
    → (get_user later k (cleanup now c)).0 ≡ (get_user later k c).0
unfolding get_user cleanup
get_user-cleanup now later k c v h =
    ground (arith, lookup-retain (λ e. not (is_older c.ttl now e.timestamp)) k c.users v.users)

get_session-cleanup :
    (now later : ℕ) (k : Text) (c : MemoryCache)
    → IsValid c
    → now ≤ later
    → (get_session later k (cleanup now c)).0 ≡ (get_session later k c).0
unfolding get_session cleanup
get_session-cleanup now later k c v h =
    ground
      (arith, lookup-retain (λ e. not (is_older c.ttl now e.timestamp)) k c.sessions v.sessions)

-- The first call after a sweep, if it reads the messages, a user or a session, at the time of the sweep
-- or later, gets the answer that it would get without the sweep: what was removed was not served any
-- more. The maps of the cache hold one entry for a key.
pub cleanup_unobservable :
    (now later : ℕ) (k : Text) (c : MemoryCache)
    → IsValid c
    → now ≤ later
    → ((get_recent_messages later (cleanup now c)).0 ≡ (get_recent_messages later c).0)
      × ((get_user later k (cleanup now c)).0 ≡ (get_user later k c).0)
      × ((get_session later k (cleanup now c)).0 ≡ (get_session later k c).0)
cleanup_unobservable now later k c v h = (
  get_recent_messages-cleanup now later c h,
  get_user-cleanup now later k c v h,
  get_session-cleanup now later k c v h,
)

cleanup-IsValid : (now : ℕ) (c : MemoryCache) → IsValid c → IsValid (cleanup now c)
unfolding cleanup
cleanup-IsValid now c v = ground (
  arith,
  retain-NodupKeys (λ e. not (is_older c.ttl now e.timestamp)) c.users v.users,
  retain-NodupKeys (λ e. not (is_older c.ttl now e.timestamp)) c.sessions v.sessions,
)
