-- ===== src/Websocket/Manager/Delivery.antt =====
-- What the clients get when a message is sent or edited.
use pigeongram_chat.Base.{
  ℕ, ◌+◌, ◌≡◌, refl, Bool, false, Option, none, some, List, [], ◌∷◌, ◌++◌, ◌==◌, nat_eq, list_eq,
  if-both, if-held, if-unheld, is_empty, inl, inr,
}
use pigeongram_chat.Base.Text.{bytes}
use pigeongram_chat.Base.Result.{Result, ok, err, Result-cases}
use pigeongram_chat.Base.Dict.{lookup}
use pigeongram_chat.Models.{Message, MessageEntity}
use pigeongram_chat.Json.Structs.{EditRequest}
use pigeongram_chat.Repository.{DbError, failed}
use pigeongram_chat.Repository.Messages
use pigeongram_chat.Websocket.History.{with_defaults}
use pigeongram_chat.Websocket.Manager.{
  Outside, Manager, Task, save_message, update_cache, broadcast_to_local_clients,
}
use pigeongram_chat.Websocket.Manager.Deliver.{touched}
use pigeongram_chat.Websocket.Manager.Invariant.{
  IsValid, deliver-Inv, send_message-Works, got_message,
}
use pigeongram_chat.Websocket.Manager.Cluster.{publish, publish_to_redis}
use pigeongram_chat.Websocket.Manager.Cases.{accepted, handle_message, after_update, handle_edit}

-- The state follows in which every registered client, and no other, has been sent the message, and in
-- which the pending tasks are those given.
abbrev pub Sends : {W : Outside} → Message → Manager W → List Task → Option (Manager W) → Type 0
Sends {W} message m tasks o =
    (m' : Manager W) × (o ≡ some m')
    × ((q : ℕ) → lookup q m'.heap ≡ touched (got_message message) m.clients q (lookup q m.heap))
    × (m'.tasks ≡ tasks)

-- Whether `UpdateMessage` finds a row and finds it to be by the user.
abbrev pub is_author : EditRequest → Result DbError MessageEntity → Bool
is_author e (err _) = false
is_author e (ok row) = row.user.username == e.username

-- An update by somebody else is an error and leaves the tables alone.
update_message-refused :
    (W : Outside) (now : ℕ) (e : EditRequest) (s : W.database.State)
    → is_author e (W.database.first_message e.message_id s) ≡ false
    → (x : DbError) × (Messages.update_message W.database now e.message_id e.new_text e.username s
        ≡ (err x, s))
unfolding Messages.update_message
update_message-refused W now e s other =
    elim (Result-cases (W.database.first_message e.message_id s)) [
      | inl (row, found) ↦
          let foreign : (row.user.username == e.username) ≡ false = rw found at other in
          (
            failed (bytes "редактировать можно только свои сообщения"),
            rw (found, Messages.update_message) (rw foreign refl),
          )
      | inr (x, found) ↦ (x, rw (found, Messages.update_message) refl)
    ]

module _ {W : Outside} where
  broadcast-Sends :
      (message : Message) (m : Manager W)
      → IsValid m
      → Sends message m m.tasks (broadcast_to_local_clients message m)
  unfolding broadcast_to_local_clients
  broadcast-Sends message m v =
      let (h, n, done, spec, inv) =
        deliver-Inv (send_message-Works message) (λ c. refl) m.clients m.heap m.online_users _ _
          v.inv in
      (
        record m {
          heap = h;
          metrics = record (m.metrics) { send_queue_full = m.metrics.send_queue_full + n };
        },
        rw (done, broadcast_to_local_clients),
        spec,
        refl,
      )

  -- A chat message with a text, once the manager takes it, goes to every registered client, and to no
  -- other, as far as its channel has room, with the time and the author filled in, whether Redis is used
  -- or not; the tasks that save it and cache it are started, in this order.
  pub handle_message-Sends :
      (now : ℕ) (message : Message) (m : Manager W)
      → IsValid m
      → is_empty message.text ≡ false
      → Sends
          (with_defaults now message)
          m
          (m.tasks
            ++ (save_message (with_defaults now message)
                ∷ update_cache (with_defaults now message)
                ∷ []))
          (handle_message now message m)
  unfolding handle_message accepted publish_to_redis publish
  handle_message-Sends now message m v e = if-unheld SendsWith (is_empty message.text) (some m) e (
      if-both (λ k. SendsWith (broadcast_to_local_clients (with_defaults now message) k))
        m.has_redis
        (broadcast-Sends (with_defaults now message) _ (record { inv = v.inv; repo = v.repo }))
        (broadcast-Sends (with_defaults now message) _ (record { inv = v.inv; repo = v.repo })))
    where
      SendsWith : Option (Manager W) → Type 0
      SendsWith = Sends (with_defaults now message) m (
          m.tasks
          ++ (save_message (with_defaults now message)
              ∷ update_cache (with_defaults now message)
              ∷ []))

  -- An edit of a message that does not exist, or is not by the user who asks for it, is dropped: the
  -- state stays as it was, the tables and the cache included.
  pub handle_edit-refused :
      (now : ℕ) (e : EditRequest) (m : Manager W)
      → IsValid m
      → is_author e (W.database.first_message e.message_id m.database) ≡ false
      → handle_edit now e m ≡ some m
  unfolding handle_edit after_update
  handle_edit-refused now e m v other =
      let (x, refused) = update_message-refused W now e m.database other in
      if-held (λ o. o ≡ some m) m.has_msg_repo none v.repo (rw (refused, after_update) refl)
