-- ===== src/Websocket/Manager/Online.antt =====
-- Who is online, and what a client that has left is still sent.
use pigeongram_chat.Base.{
  ℕ, ◌≡◌, refl, sym, ◌∙◌, ap, true, false, not, ◌&&◌, Option, none, some, List, [], ◌∷◌, ◌==◌,
  nat_eq, list_eq, nat_beq_iff, if-both, arith, length, is_empty, map, Bool-cases, Option-cases,
  inl, inr, beq_refl,
}
use mathlib.Core.Option.{some-injective, none-ne-some}
use pigeongram_chat.Base.Text.{Text}
use pigeongram_chat.Base.Result.{Result, ok, err}
use pigeongram_chat.Base.Dict
use pigeongram_chat.Base.Dict.{lookup, insert, erase, lookup-erase}
use pigeongram_chat.Models.{Message, MessageEntity}
use pigeongram_chat.Repository.{DbError}
use pigeongram_chat.Repository.Messages
use pigeongram_chat.Websocket.Client.{Client}
use pigeongram_chat.Websocket.History.{row_message, history_of}
use pigeongram_chat.Websocket.Manager.{
  Outside, Manager, member, deliver, send_online, send_message, close, dropped, offline, unregister,
  broadcast_online_users,
}
use pigeongram_chat.Websocket.Manager.Invariant.Leave.{member-remove}
use pigeongram_chat.Websocket.Manager.Tasks.{
  send_all, hit_or_miss, from_cache, from_rows, from_database, gather, run_history,
}

send_all-closed :
    (ms : List Message) (c : Client) → c.closed ≡ true → is_empty ms ≡ false → send_all ms c ≡ none
unfolding send_all send_message
send_all-closed [] c shut e = ground arith
send_all-closed (m ∷ ms) c shut e = rw shut refl

forgotten : (u : Text) (online : Dict.Dict Text ℕ) → lookup u (erase u online) ≡ none
forgotten u online = ground (arith, lookup-erase u u online, beq_refl u)

module _ {W : Outside} where
  broadcast_keeps :
      (m m' : Manager W)
      → broadcast_online_users m ≡ some m'
      → (m'.clients ≡ m.clients) × (m'.online_users ≡ m.online_users)
  unfolding broadcast_online_users
  broadcast_keeps m m' e =
      elim (Option-cases (
        deliver
          (send_online (record {
            count = length (Dict.keys m.online_users);
            users = Dict.keys m.online_users;
          }))
          m.clients m.heap)) [
            | inl n ↦ absurd (none-ne-some _ (rw (n, broadcast_online_users) at e))
            | inr ((h, n), d) ↦
                let done : some (record m { heap = h }) ≡ some m' =
                  rw (d, broadcast_online_users) at e in
                let same = some-injective _ _ done in
                (
                  ap (λ (k : Manager W). k.clients) (sym same),
                  ap (λ (k : Manager W). k.online_users) (sym same),
                )
          ]

  dropped_keeps :
      (r : ℕ) (c : Client) (m m' : Manager W)
      → dropped r c m ≡ some m'
      → ((q : ℕ) → member q m'.clients ≡ (member q m.clients && not (q == r)))
        × (m'.online_users ≡ m.online_users)
  unfolding dropped close
  dropped_keeps r c m m' e = elim (Bool-cases (member r m.clients)) [
    | inr out ↦
        let same = some-injective _ _ (rw out at e) in
        (
          λ q. ap (λ (k : Manager W). member q k.clients) (sym same) ∙ others q out,
          ap (λ (k : Manager W). k.online_users) (sym same),
        )
    | inl registered ↦ elim (Bool-cases c.closed) [
      | inl shut ↦ absurd (none-ne-some _ (rw (registered, shut) at e))
      | inr still ↦
          let same = some-injective _ _ (rw (registered, still) at e) in
          (
            λ q.
                ap (λ (k : Manager W). member q k.clients) (sym same) ∙ member-remove q r m.clients,
            ap (λ (k : Manager W). k.online_users) (sym same),
          )
    ]
  ]
    where
      others :
          (q : ℕ)
          → member r m.clients ≡ false
          → member q m.clients ≡ (member q m.clients && not (q == r))
      others q out = ground (arith, nat_beq_iff q r)

  -- If a registered or unregistered client leaves, its user is no longer listed as online, and every
  -- other connection that was registered still is, also those of the same user: a user with two
  -- connections who closes one is shown as offline and goes on receiving.
  pub unregister-forgets :
      (r : ℕ) (c : Client) (m m' : Manager W)
      → lookup r m.heap ≡ some c
      → unregister r m ≡ some m'
      → (lookup c.username m'.online_users ≡ none)
        × ((q : ℕ) → member q m'.clients ≡ (member q m.clients && not (q == r)))
  unfolding unregister offline
  unregister-forgets r c m m' e done = elim (Option-cases (dropped r c m)) [
    | inl n ↦ absurd (none-ne-some _ (rw (e, n, unregister) at done))
    | inr (k, d) ↦
        let went : broadcast_online_users (offline c.username k) ≡ some m' =
          rw (e, d, unregister) at done in
        let (clients, online) = broadcast_keeps (offline c.username k) m' went in
        let (members, _) = dropped_keeps r c m k d in
        (
          ap (lookup c.username) online ∙ forgotten c.username k.online_users,
          λ q. ap (member q) clients ∙ members q,
        )
  ]

  -- The steps before the history is sent leave the clients alone.
  hit_or_miss-heap :
      (r : Result Text (Option (List Message))) (m : Manager W) → (hit_or_miss r m).1.heap ≡ m.heap
  unfolding hit_or_miss
  hit_or_miss-heap (ok (some ms)) m = refl
  hit_or_miss-heap _ m = refl

  from_rows-heap :
      (now : ℕ) (r : Result DbError (List MessageEntity)) (m : Manager W)
      → (from_rows now r m).1.heap ≡ m.heap
  unfolding from_rows
  from_rows-heap now (err e) m = refl
  from_rows-heap now (ok rows) m =
      if-both (λ (k : Manager W). k.heap ≡ m.heap)
        (m.has_cache && not (is_empty (map row_message rows))) refl refl

  from_database-heap :
      (now : ℕ) (p : List Message × Manager W) → (from_database now p).1.heap ≡ p.1.heap
  unfolding from_database
  from_database-heap now (cached, m) =
      if-both (λ (p : List Message × Manager W). p.1.heap ≡ m.heap)
        (is_empty cached && m.has_msg_repo)
        (from_rows-heap now (Messages.get_recent W.database 100 m.database) m) refl

  from_cache-heap : (now : ℕ) (m : Manager W) → (from_cache now m).1.heap ≡ m.heap
  unfolding from_cache
  from_cache-heap now m =
      if-both (λ (p : List Message × Manager W). p.1.heap ≡ m.heap) m.has_cache
        (hit_or_miss-heap (W.cache.get_recent_messages now m.cache).0
          (record m { cache = (W.cache.get_recent_messages now m.cache).1 }))
        refl

  gather-heap : (now : ℕ) (m : Manager W) → (gather now m).1.heap ≡ m.heap
  unfolding gather
  gather-heap now m = from_database-heap now (from_cache now m) ∙ from_cache-heap now m

  -- If a client has been unregistered before its history is sent, and there is any message in that
  -- history, the goroutine that sends it panics: it sends on the closed channel.
  pub run_history-late :
      (now r : ℕ) (c : Client) (m : Manager W)
      → lookup r m.heap ≡ some c
      → c.closed ≡ true
      → is_empty (history_of now (gather now m).0) ≡ false
      → run_history now r m ≡ none
  unfolding run_history
  run_history-late now r c m e shut some_history =
      let found = ap (lookup r) (gather-heap now m) ∙ e in
      rw (found, run_history)
        (rw (send_all-closed (history_of now (gather now m).0) c shut some_history, run_history))
