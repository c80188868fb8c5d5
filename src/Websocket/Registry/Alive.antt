-- ===== src/Websocket/Registry/Alive.antt =====
-- Which servers `GetActiveServers` lists.
use pigeongram_chat.Base.{
  ℕ, ◌||◌, ap, list_beq_iff, beq_refl, ◌+◌, ◌≡◌, refl, Bool, true, false, List, [], ◌∷◌, ◌==◌,
  list_eq, nat_eq, list_beq, ltb, ◌∙◌, any, All, not, ◌&&◌, if◌then◌else◌, arith, Bool-cases, inl,
  inr,
}
use pigeongram_chat.Base.Text.{Text, bytes}
use pigeongram_chat.Base.Dict.{Dict}
use pigeongram_chat.Base.Result.{ok}
use pigeongram_chat.Websocket.Registry.{
  HashServer, ServerRegistry, Expires, Event, registers, beats, leaves, run_event, run_events,
  register, then_expire, heartbeat, unregister, alive_servers, get_active_servers, in_time,
  is_silent, registry_key, prefix, lives, gone, until, lasting, Life, server_info, written, limited,
}

-- What an event does to the life of the key of a server.
abbrev pub lived : Text → Event → Life → Life
lived id (registers r t) l = if r.server_id == id then until (t + r.ttl) else l
lived id (beats r t) l = if r.server_id == id then until (t + r.ttl) else l
lived id (leaves r t) l = if r.server_id == id then gone else l

limited-written : (ttl t : ℕ) (l : Life) → limited ttl t (written t l) ≡ until (t + ttl)
limited-written ttl t gone = refl
limited-written ttl t lasting = refl
limited-written ttl t (until d) = elim (Bool-cases (ltb t d)) [
  | inl e ↦ rw (e, e) refl
  | inr e ↦ rw e refl
]

and_same : (b : Bool) → (b && b) ≡ b
and_same b = ground arith

other : (same rest : Bool) → (not same && rest) ≡ true → same ≡ false
other same rest h = ground arith

-- One more key on the list.
listed :
    (name id : Text) (alive : Bool) (rest : List Text) (found there : Bool)
    → any (λ j. j == id) rest ≡ (found && there)
    → ((name == id) ≡ true → alive ≡ there)
    → any (λ j. j == id) (if ltb 0 (if alive then 1 else 0) then name ∷ rest else rest)
      ≡ (((name == id) || found) && there)
unfolding any
listed name id true rest found there h same = ground (arith, h)
listed name id false rest found there h same = ground (arith, h)

module _ (H : HashServer) (stamp : ℕ → Text) (E : Expires H) where
  renewed :
      (r : ServerRegistry) (v : Dict Text Text) (t : ℕ) (s : H.State) (id : Text)
      → E.life
          (registry_key id)
          (H.expire
            (registry_key r.server_id)
            r.ttl
            t
            (H.hset (registry_key r.server_id) v t s).1).1
        ≡ (if r.server_id == id then until (t + r.ttl) else E.life (registry_key id) s)
  unfolding list_beq
  renewed r v t s id =
      rw
        (
          E.expire_life (registry_key r.server_id) r.ttl t
              (H.hset (registry_key r.server_id) v t s).1 (registry_key id),
          E.hset_life (registry_key r.server_id) v t s (registry_key id),
        )
        (elim (Bool-cases (r.server_id == id)) [
          | inl e ↦ rw e (limited-written r.ttl t (E.life (registry_key id) s))
          | inr e ↦ rw e refl
        ])

  life-run_event :
      (e : Event) (s : H.State) (id : Text)
      → E.life (registry_key id) (run_event H stamp e s) ≡ lived id e (E.life (registry_key id) s)
  unfolding run_event register heartbeat unregister then_expire list_beq
  life-run_event (registers r t) s id =
      rw
        (
          E.hset_answers (registry_key r.server_id) (server_info r.server_id (stamp t)) t s,
          run_event,
          register,
          then_expire,
        )
        (renewed r (server_info r.server_id (stamp t)) t s id)
  life-run_event (beats r t) s id = renewed r ((bytes "last_seen", stamp t) ∷ []) t s id
  life-run_event (leaves r t) s id = E.del_life (registry_key r.server_id) t s (registry_key id)

  in_time-lives :
      (id : Text) (d : ℕ) (events : List Event) (now : ℕ) (s : H.State)
      → E.life (registry_key id) s ≡ until d
      → in_time id d events now ≡ true
      → lives now (E.life (registry_key id) (run_events H stamp events s)) ≡ true
  unfolding in_time run_events
  in_time-lives id d [] now s l h = rw l h
  in_time-lives id d (registers r t ∷ events) now s l h = elim (Bool-cases (r.server_id == id)) [
    | inl e ↦
        in_time-lives id (t + r.ttl) events now _ (life-run_event (registers r t) s id ∙ rw e refl)
          (ground (arith, h, e))
    | inr e ↦
        in_time-lives id d events now _ (life-run_event (registers r t) s id ∙ rw e l) (rw e at h)
  ]
  in_time-lives id d (beats r t ∷ events) now s l h = elim (Bool-cases (r.server_id == id)) [
    | inl e ↦
        in_time-lives id (t + r.ttl) events now _ (life-run_event (beats r t) s id ∙ rw e refl)
          (ground (arith, h, e))
    | inr e ↦ in_time-lives id d events now _ (life-run_event (beats r t) s id ∙ rw e l) (rw e at h)
  ]
  in_time-lives id d (leaves r t ∷ events) now s l h = elim (Bool-cases (r.server_id == id)) [
    | inl e ↦ ground (arith, h, e)
    | inr e ↦
        in_time-lives id d events now _ (life-run_event (leaves r t) s id ∙ rw e l) (rw e at h)
  ]

  alive_servers-lists :
      (now : ℕ) (s : H.State) (ks : List Text) (id : Text)
      → All (λ k. (name : Text) × (k ≡ registry_key name)) ks
      → any (λ j. j == id) (alive_servers H stamp now s ks)
        ≡ (any (λ k. k == registry_key id) ks && lives now (E.life (registry_key id) s))
  unfolding alive_servers any list_beq
  alive_servers-lists now s [] id a = refl
  alive_servers-lists now s (k ∷ ks) id a =
      let (name, e) = a.0 in
      rw (e, E.exists_found (registry_key name) now s)
        (listed name id _ (alive_servers H stamp now s ks) _ _ (alive_servers-lists now s ks id a.1)
          (λ same. ap (λ n. lives now (E.life (registry_key n) s)) ((list_beq_iff name id).0 same)))

  -- The list is exact: `GetActiveServers` answers, and lists a server just when its key is there.
  get_active_servers-lists :
      (now : ℕ) (s : H.State)
      → (ids : List Text) × (get_active_servers H stamp now s ≡ ok ids)
        × ((id : Text) → any (λ j. j == id) ids ≡ lives now (E.life (registry_key id) s))
  unfolding get_active_servers
  get_active_servers-lists now s =
      let (ks, found, exact, prefixed) = E.keys_listed prefix now s in
      (
        alive_servers H stamp now s ks,
        rw (found, get_active_servers) refl,
        λ id.
            alive_servers-lists now s ks id prefixed
            ∙ rw (exact id) (and_same (lives now (E.life (registry_key id) s))),
      )

  -- A server that registers, and then renews its entry in time by heartbeats or registrations up to now
  -- without leaving, is listed now, whatever other servers do meanwhile.
  pub register-stays_listed :
      (r : ServerRegistry) (t : ℕ) (events : List Event) (now : ℕ) (s : H.State)
      → in_time r.server_id (t + r.ttl) events now ≡ true
      → (ids : List Text) × (get_active_servers H stamp now
            (run_events H stamp events (run_event H stamp (registers r t) s))
          ≡ ok ids)
        × (any (λ j. j == r.server_id) ids ≡ true)
  register-stays_listed r t events now s timely =
      let (ids, answer, exact) =
        get_active_servers-lists now
          (run_events H stamp events (run_event H stamp (registers r t) s)) in
      (
        ids,
        answer,
        exact r.server_id
            ∙ in_time-lives r.server_id (t + r.ttl) events now (run_event H stamp (registers r t) s)
                (life-run_event (registers r t) s r.server_id ∙ rw (beq_refl r.server_id) refl)
                timely,
      )

  silent-keeps :
      (id : Text) (events : List Event) (s : H.State)
      → is_silent id events ≡ true
      → E.life (registry_key id) (run_events H stamp events s) ≡ E.life (registry_key id) s
  unfolding is_silent run_events
  silent-keeps id [] s h = refl
  silent-keeps id (registers r t ∷ events) s h =
      silent-keeps id events _ (ground (arith, h))
      ∙ life-run_event (registers r t) s id
      ∙ rw (other (r.server_id == id) _ h) refl
  silent-keeps id (beats r t ∷ events) s h =
      silent-keeps id events _ (ground (arith, h))
      ∙ life-run_event (beats r t) s id
      ∙ rw (other (r.server_id == id) _ h) refl
  silent-keeps id (leaves r t ∷ events) s h =
      silent-keeps id events _ (ground (arith, h))
      ∙ life-run_event (leaves r t) s id
      ∙ rw (other (r.server_id == id) _ h) refl

  -- After a heartbeat of a server and no further event of it, the server is listed just as long as the
  -- expiry of its entry, whether it was registered before or had left; after it leaves, it is not listed.
  pub silent-listed :
      (r : ServerRegistry) (t : ℕ) (events : List Event) (now : ℕ) (s : H.State)
      → is_silent r.server_id events ≡ true
      → ((ids : List Text) × (get_active_servers H stamp now
              (run_events H stamp events (run_event H stamp (beats r t) s))
            ≡ ok ids)
          × (any (λ j. j == r.server_id) ids ≡ ltb now (t + r.ttl)))
        × ((ids : List Text) × (get_active_servers H stamp now
                (run_events H stamp events (run_event H stamp (leaves r t) s))
              ≡ ok ids)
            × (any (λ j. j == r.server_id) ids ≡ false))
  silent-listed r t events now s silent =
      let (ids, answer, exact) =
        get_active_servers-lists now
          (run_events H stamp events (run_event H stamp (beats r t) s)) in
      let (none', empty, exact') =
        get_active_servers-lists now
          (run_events H stamp events (run_event H stamp (leaves r t) s)) in
      (
        (
          ids,
          answer,
          exact r.server_id
              ∙ ap (lives now) (after_event (beats r t))
              ∙ rw (beq_refl r.server_id) refl,
        ),
        (
          none',
          empty,
          exact' r.server_id
              ∙ ap (lives now) (after_event (leaves r t))
              ∙ rw (beq_refl r.server_id) refl,
        ),
      )
    where
      after_event :
          (e : Event)
          → E.life (registry_key r.server_id) (run_events H stamp events (run_event H stamp e s))
            ≡ lived r.server_id e (E.life (registry_key r.server_id) s)
      after_event e =
          silent-keeps r.server_id events (run_event H stamp e s) silent
          ∙ life-run_event e s r.server_id
