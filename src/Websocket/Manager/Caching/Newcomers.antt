-- ===== src/Websocket/Manager/Caching/Newcomers.antt =====
-- What a client who joins gets to see, once `updateCache` has run (internal/websocket/manager.go).
use pigeongram_chat.Base.{
  ℕ, ◌^◌, ◌<◌, ◌≡◌, refl, sym, ◌∙◌, ap, true, false, Option, none, some, List, [], ◌∷◌, ◌++◌,
  if-held, if-both, Option-cases, inl, inr, arith, subst, All, is_empty,
}
use pigeongram_chat.Base.Result.{Result, ok, err}
use pigeongram_chat.Models.{Message}
use pigeongram_chat.Cache.{found, IsLawful}
use pigeongram_chat.Websocket.Manager.Caching.{hundred_newest}
use pigeongram_chat.Websocket.History.{
  has_text, with_defaults, valid_messages, exchange, exchange_sort, history_of,
}
use pigeongram_chat.Websocket.Manager.{
  Outside, Manager, deliver, send_message, broadcast_to_local_clients,
}
use pigeongram_chat.Json.Structs.{EditRequest}
use pigeongram_chat.Repository.{DbError}
use pigeongram_chat.Repository.Messages
use pigeongram_chat.Websocket.Manager.Cases.{invalidated, edited_message, after_update, handle_edit}
use pigeongram_chat.Websocket.Manager.Tasks.{from_cache, from_database, gather, run_update_cache}
use pigeongram_chat.Websocket.Manager.Caching.{from_cache-found, run_update_cache-appends}

history_of-one :
    (now : ℕ) (message : Message)
    → has_text message ≡ true
    → history_of now (message ∷ []) ≡ with_defaults now message ∷ []
unfolding history_of valid_messages exchange_sort exchange
history_of-one now message e = rw e refl

module _ {W : Outside} where
  -- Where the cache has something, the database is not asked.
  from_database-cached :
      (now : ℕ) (cached : List Message) (m : Manager W)
      → is_empty cached ≡ false
      → (from_database now (cached, m)).0 ≡ cached
  unfolding from_database
  from_database-cached now cached m e = rw e refl

  gather-cached :
      (now : ℕ) (cached : List Message) (m : Manager W)
      → m.has_cache ≡ true
      → found (W.cache.get_recent_messages now m.cache).0 ≡ cached
      → is_empty cached ≡ false
      → (gather now m).0 ≡ cached
  unfolding gather
  gather-cached now cached m e got some_cached =
      let (read, repo, tables) = from_cache-found now m e in
      from_database-cached now (from_cache now m).0 (from_cache now m).1
        (ap is_empty (read ∙ got) ∙ some_cached)
      ∙ (read ∙ got)

  update-has_cache :
      (now : ℕ) (message : Message) (m : Manager W)
      → (run_update_cache now message m).has_cache ≡ m.has_cache
  unfolding run_update_cache
  update-has_cache now message m =
      if-both (λ (k : Manager W). k.has_cache ≡ m.has_cache) m.has_cache refl refl

  broadcast_keeps_cache :
      (message : Message) (m l : Manager W)
      → broadcast_to_local_clients message m ≡ some l
      → (l.cache ≡ m.cache) × (l.has_cache ≡ m.has_cache)
  unfolding broadcast_to_local_clients
  broadcast_keeps_cache message m l done =
      elim (Option-cases (deliver (send_message message) m.clients m.heap)) [
        | inl e ↦ absurd (ground (arith, done, e))
        | inr ((h, n), e) ↦ (ground (arith, done, e), ground (arith, done, e))
      ]

  after_update_clears :
      (now : ℕ) (edit : EditRequest) (r : Result DbError (Unit {0})) (m l : Manager W)
      → m.has_cache ≡ true
      → r ≡ ok tt
      → after_update now edit r m ≡ some l
      → (l.cache ≡ (W.cache.invalidate_messages m.cache).1) × (l.has_cache ≡ true)
  unfolding after_update
  after_update_clears now edit (err x) m l e made done = cc
  after_update_clears now edit (ok _) m l e made done =
      let (same, kept) = broadcast_keeps_cache (edited_message now edit) (invalidated m) l done in
      (
        same
            ∙ if-held (λ (k : Manager W). k.cache ≡ (W.cache.invalidate_messages m.cache).1)
                m.has_cache m e refl,
        kept ∙ if-held (λ (k : Manager W). k.has_cache ≡ true) m.has_cache m e e,
      )

  -- An edit that the repository makes clears the cached messages.
  edit_clears :
      (now : ℕ) (edit : EditRequest) (m l : Manager W)
      → m.has_cache ≡ true
      → m.has_msg_repo ≡ true
      → (Messages.update_message W.database now edit.message_id edit.new_text edit.username
          m.database).0
        ≡ ok tt
      → handle_edit now edit m ≡ some l
      → (l.cache ≡ (W.cache.invalidate_messages m.cache).1) × (l.has_cache ≡ true)
  unfolding handle_edit
  edit_clears now edit m l e repo made done =
      let (r, s) =
        Messages.update_message W.database now edit.message_id edit.new_text edit.username
          m.database in
      let next = after_update now edit r (record m { database = s }) in
      after_update_clears now edit r (record m { database = s }) l e made
        (sym (if-held (λ (o : Option (Manager W)). o ≡ next) m.has_msg_repo none repo refl) ∙ done)

module _ {W : Outside} (lawful : IsLawful W.cache) (now : ℕ)
    (stores : (ms : List Message) (t : W.cache.State)
      → (W.cache.set_recent_messages now ms t).0 ≡ ok tt) where
  -- A message that finds an empty cache is all that a history is made of then.
  gather-only :
      (message : Message) (m : Manager W)
      → m.has_cache ≡ true
      → found (W.cache.get_recent_messages now m.cache).0 ≡ []
      → message.id < 2 ^ 64
      → (gather now (run_update_cache now message m)).0 ≡ message ∷ []
  gather-only message m e nothing small =
      let all_small : All (λ k. k.id < 2 ^ 64)
          (hundred_newest (found (W.cache.get_recent_messages now m.cache).0 ++ (message ∷ []))) =
        subst (λ l. All (λ k. k.id < 2 ^ 64) (hundred_newest (l ++ (message ∷ [])))) (sym nothing)
          (small, tt) in
      gather-cached now (message ∷ []) (run_update_cache now message m)
        (update-has_cache now message m ∙ e)
        (run_update_cache-appends lawful now message m e all_small (stores _ _)
          ∙ ap (λ l. hundred_newest (l ++ (message ∷ []))) nothing)
        refl

  -- With a cache that keeps its contract and stores what it is given: after an edit that the repository
  -- made, and the next message with a text that is cached, the history of a client who joins is this one
  -- message, whatever the database has.
  pub handle_edit-hides :
      (edit : EditRequest) (message : Message) (m l : Manager W)
      → m.has_cache ≡ true
      → m.has_msg_repo ≡ true
      → (Messages.update_message W.database now edit.message_id edit.new_text edit.username
          m.database).0
        ≡ ok tt
      → (W.cache.invalidate_messages m.cache).0 ≡ ok tt
      → handle_edit now edit m ≡ some l
      → message.id < 2 ^ 64
      → has_text message ≡ true
      → history_of now (gather now (run_update_cache now message l)).0
        ≡ with_defaults now message ∷ []
  handle_edit-hides edit message m l e repo made cleared done small text =
      let (same, kept) = edit_clears now edit m l e repo made done in
      ap (history_of now) (
        gather-only message l kept
          (ap (λ c. found (W.cache.get_recent_messages now c).0) same
            ∙ lawful.get-invalidate_messages now m.cache cleared)
          small)
      ∙ history_of-one now message text
