-- ===== src/Websocket/Fleet/Wrapping.antt =====
-- Every document that a manager publishes is the envelope of a text: the cases of `Run`.
pub mod Steps
use pigeongram_chat.Base.{
  ℕ, ◌≡◌, refl, not, ◌&&◌, Option, none, some, List, [], ◌∷◌, if-both, All, All-snoc, is_empty,
  Option-cases, inl, inr, nat_eq, list_eq, ◌==◌,
}
use pigeongram_chat.Base.Text.{Text}
use pigeongram_chat.Base.Result.{Result, ok, err}
use pigeongram_chat.Base.Dict.{Dict, lookup}
use pigeongram_chat.Models.{Message, MessageEntity}
use pigeongram_chat.Json.{Json}
use pigeongram_chat.Json.Structs.{EditRequest, decode_message}
use pigeongram_chat.Repository.{DbError}
use pigeongram_chat.Repository.Messages
use pigeongram_chat.Websocket.Channels.{FileEventData}
use pigeongram_chat.Websocket.Client.{Client, Channel, of_payload}
use pigeongram_chat.Websocket.History.{with_defaults, history_of}
use pigeongram_chat.Websocket.Manager.{
  Outside, Manager, Published, Task, send_history, save_message, update_cache, member,
  broadcast_online_users, broadcast_to_local_clients, broadcast_file_event, register, joined,
  unregister, dropped, close, offline,
}
use pigeongram_chat.Websocket.Manager.Passing.{Passes, goes_on, after_delivery, chained}
use pigeongram_chat.Websocket.Manager.Cluster.{
  wrapped, publish, publish_to_redis, publish_file_event, receive, process_redis_message,
  decode_envelope, decode_file_event,
}
use pigeongram_chat.Websocket.Manager.Cases.{
  accepted, handle_message, handle_file_event, after_update, handle_edit, online_tick, stats_tick,
  edited_message,
}
use pigeongram_chat.Websocket.Manager.Tasks.{
  send_all, gather, from_cache, from_database, from_rows, hit_or_miss, run_history, saved, run_save,
  run_update_cache, run_task,
}
use pigeongram_chat.Websocket.Manager.Run.{
  Event, connects, leaves, takes_message, takes_file_event, takes_edit, receives, ticks, counts,
  posts_message, posts_edit, posts_file_event, writes, runs, pick, step, connect, write,
}

abbrev pub IsWrapped : Published → Type 0
IsWrapped p = (id : Text) × (text : Text) × (p.payload ≡ wrapped id text)

module _ {W : Outside} where
  abbrev pub Wrapped : Manager W → Type 0
  Wrapped m = All IsWrapped m.published

  abbrev pub Wraps : Option (Manager W) → Type 0
  Wraps = Passes Wrapped

  pub online-Wraps : (m : Manager W) → Wrapped m → Wraps (broadcast_online_users m)
  unfolding broadcast_online_users
  online-Wraps m w = after_delivery Wrapped _ _ (λ h n e. w)

  chat-Wraps :
      (message : Message) (m : Manager W) → Wrapped m → Wraps (broadcast_to_local_clients message m)
  unfolding broadcast_to_local_clients
  chat-Wraps message m w = after_delivery Wrapped _ _ (λ h n e. w)

  file-Wraps :
      (event : FileEventData) (m : Manager W) → Wrapped m → Wraps (broadcast_file_event event m)
  unfolding broadcast_file_event
  file-Wraps event m w = after_delivery Wrapped _ _ (λ h n e. w)

  pub register-Wraps : (r : ℕ) (m : Manager W) → Wrapped m → Wraps (register r m)
  unfolding register joined
  register-Wraps r m w = goes_on Wrapped (lookup r m.heap) _ (λ c e.
      chained Wrapped (broadcast_online_users (joined r c m)) _ (online-Wraps _ w) (λ k v. v))

  dropped-Wraps : (r : ℕ) (c : Client) (m : Manager W) → Wrapped m → Wraps (dropped r c m)
  unfolding dropped
  dropped-Wraps r c m w =
      if-both Wraps (member r m.clients) (goes_on Wrapped (close c) _ (λ shut e. w)) w

  pub unregister-Wraps : (r : ℕ) (m : Manager W) → Wrapped m → Wraps (unregister r m)
  unfolding unregister offline
  unregister-Wraps r m w =
      goes_on Wrapped (lookup r m.heap) _
        (λ c e. chained Wrapped (dropped r c m) _ (dropped-Wraps r c m w) (λ k v. online-Wraps _ v))

  publish-Wrapped :
      (channel : Text) (j : Json) (m : Manager W) → Wrapped m → Wrapped (publish channel j m)
  unfolding publish
  publish-Wrapped channel j m w =
      if-both Wrapped m.has_redis
        (All-snoc IsWrapped m.published _ w (m.server_id, W.base64 (W.texts.print j), refl)) w

  pub handle_message-Wraps :
      (now : ℕ) (message : Message) (m : Manager W)
      → Wrapped m
      → Wraps (handle_message now message m)
  unfolding handle_message accepted publish_to_redis
  handle_message-Wraps now message m w =
      if-both Wraps (is_empty message.text) w
        (chat-Wraps (with_defaults now message) _ (publish-Wrapped _ _ _ w))

  pub handle_file_event-Wraps :
      (event : FileEventData) (m : Manager W) → Wrapped m → Wraps (handle_file_event event m)
  unfolding handle_file_event publish_file_event
  handle_file_event-Wraps event m w = file-Wraps event _ (publish-Wrapped _ _ _ w)

  after_update-Wraps :
      (now : ℕ) (e : EditRequest) (r : Result DbError (Unit {0})) (m : Manager W)
      → Wrapped m
      → Wraps (after_update now e r m)
  unfolding after_update
  after_update-Wraps now e (err x) m w = w
  after_update-Wraps now e (ok _) m w =
      chat-Wraps (edited_message now e) _ (if-both Wrapped m.has_cache w w)

  pub handle_edit-Wraps :
      (now : ℕ) (e : EditRequest) (m : Manager W) → Wrapped m → Wraps (handle_edit now e m)
  unfolding handle_edit
  handle_edit-Wraps now e m w = if-both Wraps m.has_msg_repo (after_update-Wraps now e _ _ w) tt

  receive-Wraps : (p : Option Json) (m : Manager W) → Wrapped m → Wraps (receive p m)
  unfolding receive
  receive-Wraps p m w = elim (Option-cases (of_payload (decode_message W.times) p)) [
    | inr (message, e) ↦ rw (e, receive) (chat-Wraps message m w)
    | inl e ↦ elim (Option-cases (of_payload (decode_file_event W.times) p)) [
      | inr (event, e') ↦ rw (e, receive, e') (file-Wraps event m w)
      | inl e' ↦ rw (e, receive, e') w
    ]
  ]

  pub process-Wraps : (j : Json) (m : Manager W) → Wrapped m → Wraps (process_redis_message j m)
  unfolding process_redis_message
  process-Wraps j m w = elim (Option-cases (decode_envelope j)) [
    | inl e ↦ rw (e, process_redis_message) w
    | inr (x, e) ↦
        rw (e, process_redis_message)
          (if-both Wraps (x.server_id == m.server_id) {x = some m} w (receive-Wraps x.payload m w))
  ]
