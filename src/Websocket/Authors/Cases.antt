-- ===== src/Websocket/Authors/Cases.antt =====
-- The cases of `Run` keep the names.
use pigeongram_chat.Base.{
  ℕ, ◌≡◌, refl, sym, subst, Option, none, some, List, [], ◌∷◌, if-both, is_empty, All, ◌==◌,
  list_eq, Option-cases, inl, inr, nat_eq, arith,
}
use pigeongram_chat.Base.Text.{Text}
use pigeongram_chat.Base.Result.{Result, ok, err}
use pigeongram_chat.Base.Dict.{Dict, lookup, insert}
use pigeongram_chat.Models.{Message}
use pigeongram_chat.Json.{Json}
use pigeongram_chat.Json.Structs.{EditRequest, decode_message}
use pigeongram_chat.Repository.{DbError}
use pigeongram_chat.Websocket.Channels.{FileEventData, OnlineData}
use pigeongram_chat.Websocket.Client.{Client, of_payload}
use pigeongram_chat.Websocket.History.{with_defaults}
use pigeongram_chat.Websocket.Manager.{
  Outside, Manager, member, Send, deliver, send_message, send_file_event, send_online,
  broadcast_online_users, broadcast_to_local_clients, broadcast_file_event, register, joined,
  unregister, dropped, close, offline,
}
use pigeongram_chat.Websocket.Manager.Passing.{Passes, goes_on, after_delivery, chained}
use pigeongram_chat.Websocket.Manager.Cluster.{
  publish, publish_to_redis, publish_file_event, receive, process_redis_message, decode_envelope,
  decode_file_event,
}
use pigeongram_chat.Websocket.Manager.Cases.{
  accepted, handle_message, handle_file_event, after_update, handle_edit, edited_message,
}
use pigeongram_chat.Websocket.Authors.{KeepsName, Owned, lookup-Owned, insert-Owned, Named}

pub send_message-KeepsName : (m : Message) → KeepsName (send_message m)
unfolding send_message
send_message-KeepsName m c c' full e = ground arith

send_file_event-KeepsName : (x : FileEventData) → KeepsName (send_file_event x)
unfolding send_file_event
send_file_event-KeepsName x c c' full e = ground arith

send_online-KeepsName : (d : OnlineData) → KeepsName (send_online d)
unfolding send_online
send_online-KeepsName d c c' full e = ground arith

close_keeps_name : (c c' : Client) → close c ≡ some c' → c'.username ≡ c.username
unfolding close
close_keeps_name c c' e = ground arith

module _ (N : Text → Type 0) where
  -- The names after a delivery, if it goes through.
  abbrev OwnedAfter : Option (Dict ℕ Client × ℕ) → Type 0
  OwnedAfter none = Unit
  OwnedAfter (some (h, n)) = Owned N h

  deliver-Owned :
      (send : Send) (refs : List ℕ) (h : Dict ℕ Client)
      → KeepsName send
      → Owned N h
      → OwnedAfter (deliver send refs h)
  unfolding deliver
  deliver-Owned send [] h k o = o
  deliver-Owned send (r ∷ refs) h k o = elim (Option-cases (lookup r h)) [
    | inl l ↦ rw (l, deliver) tt
    | inr (c, l) ↦ elim (Option-cases (send c)) [
      | inl s ↦ rw (l, deliver, s) tt
      | inr ((c', full), s) ↦
          let name : N c'.username = subst N (sym (k c c' full s)) (lookup-Owned N r c h o l) in
          let rest = deliver-Owned send refs (insert r c' h) k (insert-Owned N r c' h name o) in
          elim (Option-cases (deliver send refs (insert r c' h))) [
            | inl t ↦ rw (l, deliver, s, t) tt
            | inr ((h', n), t) ↦ rw (l, deliver, s, t) (subst OwnedAfter t rest)
          ]
    ]
  ]

  module _ {W : Outside} where
    abbrev pub Names : Option (Manager W) → Type 0
    Names = Passes (Named N)

    -- What holds of the queues stays, with other clients under the same names.
    delivered :
        (send : Send) (m : Manager W)
        → KeepsName send
        → Named N m
        → (h : Dict ℕ Client) (n : ℕ) → deliver send m.clients m.heap ≡ some (h, n)
        → Owned N h
    delivered send m k v h n e = subst OwnedAfter e (deliver-Owned send m.clients m.heap k v.owned)

    pub online-Names : (m : Manager W) → Named N m → Names (broadcast_online_users m)
    unfolding broadcast_online_users
    online-Names m v = after_delivery (Named N) _ _ (λ h n e. record {
      owned = delivered _ m (send_online-KeepsName _) v h n e;
      spoken = v.spoken;
      edited = v.edited;
    })

    chat-Names :
        (message : Message) (m : Manager W)
        → Named N m
        → Names (broadcast_to_local_clients message m)
    unfolding broadcast_to_local_clients
    chat-Names message m v = after_delivery (Named N) _ _ (λ h n e. record {
      owned = delivered _ m (send_message-KeepsName message) v h n e;
      spoken = v.spoken;
      edited = v.edited;
    })

    file-Names :
        (event : FileEventData) (m : Manager W) → Named N m → Names (broadcast_file_event event m)
    unfolding broadcast_file_event
    file-Names event m v = after_delivery (Named N) _ _ (λ h n e. record {
      owned = delivered _ m (send_file_event-KeepsName event) v h n e;
      spoken = v.spoken;
      edited = v.edited;
    })

    -- A manager with the same clients and queues.
    pub same_queues :
        (m l : Manager W)
        → m.heap ≡ l.heap
        → m.broadcast ≡ l.broadcast
        → m.edits ≡ l.edits
        → Named N m
        → Named N l
    same_queues m l h b e v = record {
      owned = subst (Owned N) h v.owned;
      spoken = subst (λ q. All (λ (k : Message). N k.username) q) b v.spoken;
      edited = subst (λ q. All (λ (x : EditRequest). N x.username) q) e v.edited;
    }

    pub register-Names : (r : ℕ) (m : Manager W) → Named N m → Names (register r m)
    unfolding register joined
    register-Names r m v = goes_on (Named N) (lookup r m.heap) _ (λ c e.
        chained (Named N) (broadcast_online_users (joined r c m)) _
          (online-Names (joined r c m) (same_queues m _ refl refl refl v))
          (λ k w. same_queues k _ refl refl refl w))

    dropped-Names :
        (r : ℕ) (c : Client) (m : Manager W)
        → lookup r m.heap ≡ some c
        → Named N m
        → Names (dropped r c m)
    unfolding dropped
    dropped-Names r c m l v =
        if-both Names (member r m.clients)
          (goes_on (Named N) (close c) _ (λ shut e. record {
            owned =
                insert-Owned N r shut m.heap
                  (subst N (sym (close_keeps_name c shut e)) (lookup-Owned N r c m.heap v.owned l))
                  v.owned;
            spoken = v.spoken;
            edited = v.edited;
          }))
          v

    pub unregister-Names : (r : ℕ) (m : Manager W) → Named N m → Names (unregister r m)
    unfolding unregister offline
    unregister-Names r m v = goes_on (Named N) (lookup r m.heap) _ (λ c e.
        chained (Named N) (dropped r c m) _ (dropped-Names r c m e v)
          (λ k w. online-Names _ (same_queues k _ refl refl refl w)))

    publish-Named :
        (channel : Text) (j : Json) (m : Manager W) → Named N m → Named N (publish channel j m)
    unfolding publish
    publish-Named channel j m v = if-both (Named N) m.has_redis (same_queues m _ refl refl refl v) v

    pub handle_message-Names :
        (now : ℕ) (message : Message) (m : Manager W)
        → Named N m
        → Names (handle_message now message m)
    unfolding handle_message accepted publish_to_redis
    handle_message-Names now message m v = if-both Names (is_empty message.text) v (
        chat-Names (with_defaults now message) _
          (publish-Named _ _ _ (same_queues m _ refl refl refl v)))

    pub handle_file_event-Names :
        (event : FileEventData) (m : Manager W) → Named N m → Names (handle_file_event event m)
    unfolding handle_file_event publish_file_event
    handle_file_event-Names event m v =
        file-Names event _ (publish-Named _ _ _ (same_queues m _ refl refl refl v))

    after_update-Names :
        (now : ℕ) (e : EditRequest) (r : Result DbError (Unit {0})) (m : Manager W)
        → Named N m
        → Names (after_update now e r m)
    unfolding after_update
    after_update-Names now e (err x) m v = v
    after_update-Names now e (ok _) m v =
        chat-Names (edited_message now e) _
          (if-both (Named N) m.has_cache (same_queues m _ refl refl refl v) v)

    pub handle_edit-Names :
        (now : ℕ) (e : EditRequest) (m : Manager W) → Named N m → Names (handle_edit now e m)
    unfolding handle_edit
    handle_edit-Names now e m v =
        if-both Names m.has_msg_repo
          (after_update-Names now e _ _ (same_queues m _ refl refl refl v)) tt

    receive-Names : (p : Option Json) (m : Manager W) → Named N m → Names (receive p m)
    unfolding receive
    receive-Names p m v = elim (Option-cases (of_payload (decode_message W.times) p)) [
      | inr (message, e) ↦ rw (e, receive) (chat-Names message m v)
      | inl e ↦ elim (Option-cases (of_payload (decode_file_event W.times) p)) [
        | inr (event, e') ↦ rw (e, receive, e') (file-Names event m v)
        | inl e' ↦ rw (e, receive, e') v
      ]
    ]

    pub process-Names : (j : Json) (m : Manager W) → Named N m → Names (process_redis_message j m)
    unfolding process_redis_message
    process-Names j m v = elim (Option-cases (decode_envelope j)) [
      | inl e ↦ rw (e, process_redis_message) v
      | inr (x, e) ↦
          rw (e, process_redis_message)
            (if-both Names (x.server_id == m.server_id) {x = some m} v
              (receive-Names x.payload m v))
    ]
