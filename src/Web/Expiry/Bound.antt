-- ===== src/Web/Expiry/Bound.antt =====
-- When a session is no longer recognised.
use pigeongram_chat.Base.{
  ℕ, ◌+◌, ◌≤◌, ◌<◌, ◌≡◌, ◌≢◌, refl, Option, none, some, List, [], nat_eq, list_eq, arith,
  Option-cases, inl, inr, if-both, lt→ltb,
}
use pigeongram_chat.Base.Text.{Text}
use pigeongram_chat.Base.Time.{max_duration}
use pigeongram_chat.Base.Result.{Result, ok, err}
use pigeongram_chat.Base.Dict.{lookup}
use pigeongram_chat.Models.{Session, SessionEntity, is_expired}
use pigeongram_chat.Cache.Memory
use pigeongram_chat.Cache.Memory.{MemoryCache, CachedSession}
use pigeongram_chat.Cache.Memory.Lawful.{memory_cache}
use pigeongram_chat.Repository.{Database, DbError}
use pigeongram_chat.Repository.Sessions
use pigeongram_chat.Web.{Site, from_row, from_session, get_user_from_session}
use pigeongram_chat.Web.Expiry.{
  Limit, Visit, after_visits, Ends, get_by_id-Limit, visits-Ends, get_session-Ends,
}

module _ {D : Database} where
  module _ (id : Text) (x ttl : ℕ) where
    from_row-late :
        (now : ℕ) (r : Result DbError (Option SessionEntity)) (s : Site D memory_cache)
        → Limit x r
        → x < now
        → (from_row now id r s).0 ≡ []
    unfolding from_row is_expired
    from_row-late now (ok (some row)) s h late =
        rw (lt→ltb row.expires_at now (omega (arith, h, late))) refl
    from_row-late now (ok none) s h late = refl
    from_row-late now (err e) s h late = refl

    -- Whatever the cache yielded, if it is no session.
    from_session-late :
        (now : ℕ) (r : Result Text (Option Session)) (s : Site D memory_cache)
        → Ends id x ttl s
        → x < now
        → ((u : Session) → r ≢ ok (some u))
        → (from_session now id r s).0 ≡ []
    unfolding from_session
    from_session-late now (ok (some u)) s v late none_cached = absurd (none_cached u refl)
    from_session-late now (ok none) s v late none_cached =
        from_row-late now (Sessions.get_by_id D id s.database) s
          (get_by_id-Limit D x id s.database v.row) late
    from_session-late now (err e) s v late none_cached =
        from_row-late now (Sessions.get_by_id D id s.database) s
          (get_by_id-Limit D x id s.database v.row) late

  -- A cached session was made by `x`, and is served for the lifetime of the cache.
  get_session-in_time :
      (id : Text) (x ttl now : ℕ) (u : Session) (s : Site D memory_cache)
      → Ends id x ttl s
      → ttl < max_duration
      → (memory_cache.get_session now id s.cache).0 ≡ ok (some u)
      → now ≤ x + ttl
  unfolding Memory.get_session
  get_session-in_time id x ttl now u s v small e =
      elim (Option-cases (lookup id s.cache.sessions)) [
        | inl missing ↦ ground (arith, e, missing)
        | inr (entry, there) ↦
            let made : entry.timestamp ≤ x = rw there at v.entry in
            ground (arith, e, there, made, v.lifetime)
      ]

  get_user-late :
      (id : Text) (x ttl now : ℕ) (s : Site D memory_cache)
      → Ends id x ttl s
      → ttl < max_duration
      → x + ttl < now
      → (get_user_from_session now (some id) s).0 ≡ []
  unfolding get_user_from_session
  get_user-late id x ttl now s v small late =
      if-both (λ (p : Text × Site D memory_cache). p.0 ≡ []) s.has_cache
        (from_session-late id x ttl now (memory_cache.get_session now id s.cache).0
          (record s { cache = (memory_cache.get_session now id s.cache).1 })
          (get_session-Ends id x ttl now id s v) (omega (arith, late))
          (λ u e. absurd (omega (arith, get_session-in_time id x ttl now u s v small e, late))))
        (from_row-late id x ttl now (Sessions.get_by_id D id s.database) s
          (get_by_id-Limit D x id s.database v.row) (omega (arith, late)))

  -- If the row of a session expires by `x`, and whatever the memory cache has of it was stored by then,
  -- then after any visits, by this cookie and others, and any sweeps of the cache, its cookie stands for
  -- nobody later than `x` and the lifetime of the cache: a cached session is not looked up again, so `x`
  -- itself is not the bound. The lifetime is below the longest duration of Go.
  pub get_user-after_visits :
      (id : Text) (x ttl now : ℕ) (ws : List Visit) (s : Site D memory_cache)
      → Ends id x ttl s
      → ttl < max_duration
      → x + ttl < now
      → (get_user_from_session now (some id) (after_visits ws s)).0 ≡ []
  get_user-after_visits id x ttl now ws s v small late =
      get_user-late id x ttl now (after_visits ws s) (visits-Ends id x ttl ws s v) small late
