-- ===== src/Websocket/Manager/Caching.antt =====
-- The cache behind the manager: what a task appends, and what a history is made of.
pub mod Newcomers
use pigeongram_chat.Base.{
  ℕ, ◌^◌, ◌<◌, ◌≡◌, refl, sym, ◌∙◌, ap, true, ◌&&◌, Option, none, some, List, [], ◌∷◌, ◌++◌,
  if-held, arith, drop, length, ◌-◌, ltb, false, Bool-cases, inl, inr, tests, subst, All, is_empty,
  map,
}
use pigeongram_chat.Base.Text.{Text}
use pigeongram_chat.Base.Result.{Result, ok, err}
use pigeongram_chat.Models.{Message, MessageEntity}
use pigeongram_chat.Cache.{found, IsLawful}
use pigeongram_chat.Cache.Memory.{last_hundred}
use pigeongram_chat.Repository.Messages
use pigeongram_chat.Websocket.History.{row_message}
use pigeongram_chat.Websocket.Manager.{Outside, Manager}
use pigeongram_chat.Websocket.Manager.Cases.{invalidated}
use pigeongram_chat.Websocket.Manager.Tasks.{
  appended, hit_or_miss, from_cache, from_rows, from_database, gather, run_update_cache,
}

-- The last hundred elements.
abbrev pub hundred_newest : {A : Type 0} → List A → List A
hundred_newest xs = drop (length xs - 100) xs

last_hundred-hundred_newest : {A : Type 0} (xs : List A) → last_hundred xs ≡ hundred_newest xs
unfolding last_hundred
last_hundred-hundred_newest xs = elim (Bool-cases (ltb 100 (length xs))) [
  | inl e ↦ rw e refl
  | inr e ↦ rw e (ap (λ n. drop n xs) (none_dropped (length xs) e))
]
  where
    none_dropped : (n : ℕ) → ltb 100 n ≡ false → 0 ≡ n - 100
    none_dropped n e = omega (tests, e)

appended-found :
    (r : Result Text (Option (List Message))) (message : Message)
    → appended r message ≡ hundred_newest (found r ++ (message ∷ []))
unfolding appended last_hundred
appended-found (ok (some ms)) message = last_hundred-hundred_newest (ms ++ (message ∷ []))
appended-found (ok none) message = ground arith
appended-found (err e) message = ground arith

hit_or_miss-found :
    {W : Outside} (r : Result Text (Option (List Message))) (m : Manager W)
    → ((hit_or_miss r m).0 ≡ found r)
      × ((hit_or_miss r m).1.has_msg_repo ≡ m.has_msg_repo)
      × ((hit_or_miss r m).1.database ≡ m.database)
unfolding hit_or_miss
hit_or_miss-found (ok (some ms)) m = (refl, refl, refl)
hit_or_miss-found (ok none) m = (refl, refl, refl)
hit_or_miss-found (err e) m = (refl, refl, refl)

module _ {W : Outside} where
  pub from_cache-found :
      (now : ℕ) (m : Manager W)
      → m.has_cache ≡ true
      → ((from_cache now m).0 ≡ found (W.cache.get_recent_messages now m.cache).0)
        × ((from_cache now m).1.has_msg_repo ≡ m.has_msg_repo)
        × ((from_cache now m).1.database ≡ m.database)
  unfolding from_cache
  from_cache-found now m e =
      if-held
        (λ (p : List Message × Manager W).
          (p.0 ≡ found (W.cache.get_recent_messages now m.cache).0)
          × (p.1.has_msg_repo ≡ m.has_msg_repo)
          × (p.1.database ≡ m.database))
        m.has_cache ([], m) e (hit_or_miss-found (W.cache.get_recent_messages now m.cache).0 _)

  from_database-rows :
      (now : ℕ) (rows : List MessageEntity) (cached : List Message) (m : Manager W)
      → cached ≡ []
      → m.has_msg_repo ≡ true
      → Messages.get_recent W.database 100 m.database ≡ ok rows
      → (from_database now (cached, m)).0 ≡ map row_message rows
  unfolding from_database from_rows
  from_database-rows now rows cached m none_cached repo got =
      if-held (λ (p : List Message × Manager W). p.0 ≡ map row_message rows)
        (is_empty cached && m.has_msg_repo) (cached, m) (rw (none_cached, repo) refl)
        (rw (got, from_rows) refl)

  empty-gather :
      (now : ℕ) (rows : List MessageEntity) (m : Manager W)
      → m.has_cache ≡ true
      → m.has_msg_repo ≡ true
      → found (W.cache.get_recent_messages now m.cache).0 ≡ []
      → Messages.get_recent W.database 100 m.database ≡ ok rows
      → (gather now m).0 ≡ map row_message rows
  unfolding gather
  empty-gather now rows m e repo nothing got =
      let (read, same_repo, same_tables) = from_cache-found now m e in
      from_database-rows now rows (from_cache now m).0 (from_cache now m).1 (read ∙ nothing)
        (same_repo ∙ repo) (ap (Messages.get_recent W.database 100) same_tables ∙ got)

module _ {W : Outside} (lawful : IsLawful W.cache) where
  -- With a cache that keeps its contract, a task that caches a message leaves in the cache what was
  -- cached before and the message after it, cut to the last hundred, if the store does not fail.
  pub run_update_cache-appends :
      (now : ℕ) (message : Message) (m : Manager W)
      → m.has_cache ≡ true
      → All
          (λ k. k.id < 2 ^ 64)
          (hundred_newest (found (W.cache.get_recent_messages now m.cache).0 ++ (message ∷ [])))
      → (W.cache.set_recent_messages now
          (appended (W.cache.get_recent_messages now m.cache).0 message)
          (W.cache.get_recent_messages now m.cache).1).0
        ≡ ok tt
      → found (W.cache.get_recent_messages now (run_update_cache now message m).cache).0
        ≡ hundred_newest (found (W.cache.get_recent_messages now m.cache).0 ++ (message ∷ []))
  unfolding run_update_cache
  run_update_cache-appends now message m e small stored =
      let kept = appended-found (W.cache.get_recent_messages now m.cache).0 message in
      if-held
        (λ (k : Manager W).
          found (W.cache.get_recent_messages now k.cache).0
          ≡ hundred_newest (found (W.cache.get_recent_messages now m.cache).0 ++ (message ∷ [])))
        m.has_cache m e
        (lawful.get-set_messages now (appended (W.cache.get_recent_messages now m.cache).0 message)
            (W.cache.get_recent_messages now m.cache).1
            (subst (All (λ k. k.id < 2 ^ 64)) (sym kept) small) stored
          ∙ kept)

  -- After the cached messages are cleared, as every edit does, a history is made of the rows that the
  -- database then has.
  gather-invalidated :
      (now : ℕ) (rows : List MessageEntity) (m : Manager W)
      → m.has_cache ≡ true
      → m.has_msg_repo ≡ true
      → (W.cache.invalidate_messages m.cache).0 ≡ ok tt
      → Messages.get_recent W.database 100 m.database ≡ ok rows
      → (gather now (invalidated m)).0 ≡ map row_message rows
  unfolding gather
  gather-invalidated now rows m e repo cleared got =
      if-held (λ (k : Manager W). (gather now k).0 ≡ map row_message rows) m.has_cache m e
        (empty-gather now rows (record m { cache = (W.cache.invalidate_messages m.cache).1 }) e repo
          (lawful.get-invalidate_messages now m.cache cleared) got)
