-- ===== src/Web/Expiry.antt =====
-- How long a session is recognised over the cache in memory (web/handlers.go,
-- repository/cache/memory.go): a cached session is not looked up again.
pub mod Bound
use pigeongram_chat.Base.{
  ℕ, ◌+◌, ◌≤◌, ◌<◌, ◌≡◌, ◌≢◌, refl, sym, subst, Bool, true, false, not, Option, none, some, List,
  [], ◌∷◌, ◌==◌, nat_eq, list_eq, list_beq_iff, if◌then◌else◌, ltb, arith, Bool-cases, Option-cases,
  inl, inr, if-both, ltb→le, lt→ltb,
}
use pigeongram_chat.Base.Text.{Text}
use pigeongram_chat.Base.Time.{is_older, max_duration}
use pigeongram_chat.Base.Result.{Result, ok, err}
use pigeongram_chat.Base.Dict.{
  Dict, lookup, kept, retain, lookup-insert, lookup-retain, NodupKeys, insert-NodupKeys,
  retain-NodupKeys,
}
use pigeongram_chat.Models.{Session, SessionEntity, is_expired}
use pigeongram_chat.Cache.Memory
use pigeongram_chat.Cache.Memory.{MemoryCache, CachedSession}
use pigeongram_chat.Cache.Memory.Lawful.{memory_cache}
use pigeongram_chat.Repository.{Database, DbError, record_not_found, failed}
use pigeongram_chat.Repository.Sessions
use pigeongram_chat.Web.{Site, remember, from_row, from_session, get_user_from_session}

-- A cached entry was made by the time `x`, and a row expires by then.
abbrev pub MadeBy : ℕ → Option CachedSession → Type 0
MadeBy x none = Unit
MadeBy x (some e) = e.timestamp ≤ x

abbrev pub RowBy : {E : Type 0} → ℕ → Result E SessionEntity → Type 0
RowBy x (ok row) = row.expires_at ≤ x
RowBy x (err e) = Unit

-- What a lookup of the row yields.
abbrev pub Limit : ℕ → Result DbError (Option SessionEntity) → Type 0
Limit x (ok (some row)) = row.expires_at ≤ x
Limit x _ = Unit

pub get_by_id-Limit :
    (D : Database) (x : ℕ) (id : Text) (d : D.State)
    → RowBy x (D.first_session id d)
    → Limit x (Sessions.get_by_id D id d)
unfolding Sessions.get_by_id
get_by_id-Limit D x id d h =
    elim (D.first_session id d)
        as (λ r.
          RowBy x r
          → Limit x (elim r [
            | ok session ↦ ok (some session)
            | err record_not_found ↦ ok none
            | err (failed e) ↦ err (failed e)
          ])) [ ok session ↦ λ k. k | err record_not_found ↦ λ k. tt | err (failed e) ↦ λ k. tt ]
      h

-- What `GetSession` finds.
abbrev fresh : ℕ → Text → MemoryCache → Option CachedSession
fresh now k c = Memory.fresh_session c.ttl now (lookup k c.sessions)

MadeBy-kept :
    (x : ℕ) (keep : CachedSession → Bool) (o : Option CachedSession)
    → MadeBy x o
    → MadeBy x (kept keep o)
MadeBy-kept x keep none h = tt
MadeBy-kept x keep (some e) h = if-both (MadeBy x) (keep e) h tt

-- Visits of the site with a cookie, and sweeps of the cache, each at its time.
pub data Visit : Type 0 where
  visits : ℕ → Option Text → Visit
  sweeps : ℕ → Visit

module _ {D : Database} where
  unfoldable pub after_visit : Visit → Site D memory_cache → Site D memory_cache
  unfolding get_user_from_session
  after_visit (visits now cookie) s = (get_user_from_session now cookie s).1
  after_visit (sweeps now) s = record s { cache = Memory.cleanup now s.cache }

  unfoldable pub after_visits : List Visit → Site D memory_cache → Site D memory_cache
  unfolding after_visit
  after_visits [] s = s
  after_visits (v ∷ vs) s = after_visits vs (after_visit v s)

  -- The session `id` expires by `x`, and the cache has learnt of it by then.
  pub record Ends (id : Text) (x ttl : ℕ) (s : Site D memory_cache) : Type 0 where
    pub row : RowBy x (D.first_session id s.database)
    pub entry : MadeBy x (lookup id s.cache.sessions)
    pub distinct : NodupKeys s.cache.sessions
    pub lifetime : s.cache.ttl ≡ ttl

  module _ (id : Text) (x ttl : ℕ) where
    remember-Ends :
        (now : ℕ) (k username : Text) (s : Site D memory_cache)
        → (k ≡ id → now ≤ x)
        → Ends id x ttl s
        → Ends id x ttl (remember now k username s)
    unfolding remember Memory.set_session
    remember-Ends now k username s early v =
        let made : CachedSession = record {
          session = some (record { username = username });
          timestamp = now;
        } in
        if-both (Ends id x ttl) s.has_cache
          (record {
            row = v.row;
            entry = elim (Bool-cases (k == id)) [
              | inl hit ↦
                  rw (lookup-insert id k made s.cache.sessions, hit)
                    (early ((list_beq_iff k id).0 hit))
              | inr miss ↦ rw (lookup-insert id k made s.cache.sessions, miss) v.entry
            ];
            distinct = insert-NodupKeys k made s.cache.sessions v.distinct;
            lifetime = v.lifetime;
          })
          v

    from_row-Ends :
        (now : ℕ) (k : Text) (r : Result DbError (Option SessionEntity)) (s : Site D memory_cache)
        → (k ≡ id → Limit x r)
        → Ends id x ttl s
        → Ends id x ttl (from_row now k r s).1
    unfolding from_row is_expired
    from_row-Ends now k (ok none) s h v = v
    from_row-Ends now k (err e) s h v = v
    from_row-Ends now k (ok (some row)) s h v = elim (Bool-cases (ltb row.expires_at now)) [
      | inl e ↦ rw e v
      | inr e ↦ rw e (
          remember-Ends now k row.user.username s
            (λ same. omega (arith, h same, ltb→le row.expires_at now e)) v)
    ]

    row-Ends :
        (now : ℕ) (k : Text) (s : Site D memory_cache)
        → Ends id x ttl s
        → Ends id x ttl (from_row now k (Sessions.get_by_id D k s.database) s).1
    row-Ends now k s v =
        from_row-Ends now k (Sessions.get_by_id D k s.database) s
          (λ same.
            subst (λ j. Limit x (Sessions.get_by_id D j s.database)) (sym same)
              (get_by_id-Limit D x id s.database v.row))
          v

    from_session-Ends :
        (now : ℕ) (k : Text) (r : Result Text (Option Session)) (s : Site D memory_cache)
        → Ends id x ttl s
        → Ends id x ttl (from_session now k r s).1
    unfolding from_session
    from_session-Ends now k (ok (some u)) s v = v
    from_session-Ends now k (ok none) s v = row-Ends now k s v
    from_session-Ends now k (err e) s v = row-Ends now k s v

    -- A read changes only the counters.
    pub get_session-Ends :
        (now : ℕ) (k : Text) (s : Site D memory_cache)
        → Ends id x ttl s
        → Ends id x ttl (record s { cache = (Memory.get_session now k s.cache).1 })
    unfolding Memory.get_session Memory.update_stats
    get_session-Ends now k s v = elim (Option-cases (fresh now k s.cache)) [
      | inl e ↦
          rw (e, Memory.get_session)
            (record { row = v.row; entry = v.entry; distinct = v.distinct; lifetime = v.lifetime })
      | inr (found, e) ↦
          rw (e, Memory.get_session)
            (record { row = v.row; entry = v.entry; distinct = v.distinct; lifetime = v.lifetime })
    ]

    sweep-Ends :
        (now : ℕ) (s : Site D memory_cache)
        → Ends id x ttl s
        → Ends id x ttl (record s { cache = Memory.cleanup now s.cache })
    unfolding Memory.cleanup Memory.invalidate_messages
    sweep-Ends now s v =
        let keep : CachedSession → Bool = λ e. not (is_older s.cache.ttl now e.timestamp) in
        let held : MadeBy x (lookup id (retain keep s.cache.sessions)) =
          subst (MadeBy x) (sym (lookup-retain keep id s.cache.sessions v.distinct))
            (MadeBy-kept x keep (lookup id s.cache.sessions) v.entry) in
        let once = retain-NodupKeys keep s.cache.sessions v.distinct in
        if-both (λ (c : MemoryCache). Ends id x ttl (record s { cache = c }))
          (is_older s.cache.ttl now s.cache.messages_time)
          (record { row = v.row; entry = held; distinct = once; lifetime = v.lifetime })
          (record { row = v.row; entry = held; distinct = once; lifetime = v.lifetime })

    visit-Ends :
        (w : Visit) (s : Site D memory_cache) → Ends id x ttl s → Ends id x ttl (after_visit w s)
    unfolding after_visit
    visit-Ends (visits now none) s v = v
    visit-Ends (visits now (some k)) s v =
        if-both (λ (p : Text × Site D memory_cache). Ends id x ttl p.1) s.has_cache
          (from_session-Ends now k (memory_cache.get_session now k s.cache).0
            (record s { cache = (memory_cache.get_session now k s.cache).1 })
            (get_session-Ends now k s v))
          (row-Ends now k s v)
    visit-Ends (sweeps now) s v = sweep-Ends now s v

    pub visits-Ends :
        (ws : List Visit) (s : Site D memory_cache)
        → Ends id x ttl s
        → Ends id x ttl (after_visits ws s)
    unfolding after_visits
    visits-Ends [] s v = v
    visits-Ends (w ∷ ws) s v = visits-Ends ws (after_visit w s) (visit-Ends w s v)
