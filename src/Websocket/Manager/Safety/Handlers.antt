-- ===== src/Websocket/Manager/Safety/Handlers.antt =====
-- The cases of `Run` keep the invariant.
use pigeongram_chat.Base.{
  ℕ, ◌≡◌, refl, Option, none, List, ◌&&◌, ◌==◌, nat_eq, list_eq, nat_beq_iff, if-both, if-held,
  length, arith, Bool-cases, Option-cases, inl, inr, is_empty,
}
use pigeongram_chat.Base.Text.{Text, bytes}
use pigeongram_chat.Base.Result.{Result, ok, err}
use pigeongram_chat.Base.Dict.{Dict, lookup, insert, lookup-insert}
use pigeongram_chat.Models.{Message}
use pigeongram_chat.Json.{Json}
use pigeongram_chat.Json.Structs.{EditRequest, decode_message}
use pigeongram_chat.Repository.{DbError}
use pigeongram_chat.Websocket.Channels.{FileEventData, EventFile, info}
use pigeongram_chat.Websocket.Client.{Client, new_client, Channel, write_round, of_payload}
use pigeongram_chat.Websocket.History.{with_defaults}
use pigeongram_chat.Websocket.Manager.{Outside, Manager, Metrics, member}
use pigeongram_chat.Websocket.Manager.Invariant.{Inv, IsValid}
use pigeongram_chat.Websocket.Manager.Invariant.Join.{
  Continues, broadcast_online_users-IsValid, broadcast_to_local_clients-IsValid,
  broadcast_file_event-IsValid, register-IsValid,
}
use pigeongram_chat.Websocket.Manager.Invariant.Leave.{member-Holds}
use pigeongram_chat.Websocket.Manager.Cluster.{
  publish, publish_to_redis, publish_file_event, receive, process_redis_message, decode_envelope,
  decode_file_event,
}
use pigeongram_chat.Websocket.Manager.Cases.{
  accepted, file_metrics, handle_message, handle_file_event, edited_message, after_update,
  handle_edit, online_tick, stats_tick,
}
use pigeongram_chat.Websocket.Manager.Run.{connect, write}
use pigeongram_chat.Websocket.Manager.Safety.Update.{
  update-Inv, new_client-IsOpen, insert_new-Inv, write_round-username, write_round-IsOpen,
}

-- The gauges of connections are not the counters of uploads.
file_metrics-Inv :
    {clients : List ℕ} {heap : Dict ℕ Client} {online : Dict Text ℕ} (k : Metrics)
    (event : FileEventData) (file : EventFile)
    → Inv clients heap online k.active_connections k.online_users
    → Inv clients heap online
        (file_metrics event file k).active_connections
        (file_metrics event file k).online_users
file_metrics-Inv {clients} {heap} {online} k event (info f) v =
    if-both (λ (k : Metrics). Inv clients heap online k.active_connections k.online_users)
      (event.event_type == bytes "upload") v v
file_metrics-Inv k event _ v = v

module _ {W : Outside} where
  publish-IsValid :
      (channel : Text) (j : Json) (m : Manager W) → IsValid m → IsValid (publish channel j m)
  unfolding publish
  publish-IsValid channel j m v =
      if-both IsValid m.has_redis (record { inv = v.inv; repo = v.repo }) v

  pub handle_message-IsValid :
      (now : ℕ) (message : Message) (m : Manager W)
      → IsValid m
      → Continues (handle_message now message m)
  unfolding handle_message accepted publish_to_redis
  handle_message-IsValid now message m v =
      if-both Continues (is_empty message.text) (m, refl, v)
        (broadcast_to_local_clients-IsValid _
          (publish-IsValid _ _ _ (record { inv = v.inv; repo = v.repo }))
          (with_defaults now message))

  pub handle_file_event-IsValid :
      (event : FileEventData) (m : Manager W) → IsValid m → Continues (handle_file_event event m)
  unfolding handle_file_event publish_file_event
  handle_file_event-IsValid event m v =
      broadcast_file_event-IsValid _
        (publish-IsValid _ _ _
          (record { inv = file_metrics-Inv m.metrics event event.file v.inv; repo = v.repo }))
        event

  after_update-IsValid :
      (now : ℕ) (e : EditRequest) (r : Result DbError (Unit {0})) (m : Manager W)
      → IsValid m
      → Continues (after_update now e r m)
  unfolding after_update
  after_update-IsValid now e (err _) m v = (m, refl, v)
  after_update-IsValid now e (ok _) m v =
      broadcast_to_local_clients-IsValid _
        (if-both IsValid m.has_cache (record { inv = v.inv; repo = v.repo }) v)
        (edited_message now e)

  pub handle_edit-IsValid :
      (now : ℕ) (e : EditRequest) (m : Manager W) → IsValid m → Continues (handle_edit now e m)
  unfolding handle_edit
  handle_edit-IsValid now e m v =
      if-held Continues m.has_msg_repo none v.repo
        (after_update-IsValid now e _ _ (record { inv = v.inv; repo = v.repo }))

  receive-IsValid : (p : Option Json) (m : Manager W) → IsValid m → Continues (receive p m)
  unfolding receive
  receive-IsValid p m v = elim (Option-cases (of_payload (decode_message W.times) p)) [
    | inr (message, e) ↦ rw (e, receive) (broadcast_to_local_clients-IsValid m v message)
    | inl e ↦ elim (Option-cases (of_payload (decode_file_event W.times) p)) [
      | inr (event, f) ↦ rw (e, f, receive) (broadcast_file_event-IsValid m v event)
      | inl f ↦ (m, rw (e, f, receive), v)
    ]
  ]

  pub process_redis_message-IsValid :
      (j : Json) (m : Manager W) → IsValid m → Continues (process_redis_message j m)
  unfolding process_redis_message
  process_redis_message-IsValid j m v = elim (Option-cases (decode_envelope j)) [
    | inl e ↦ (m, rw (e, process_redis_message), v)
    | inr (envelope, e) ↦
        rw (e, process_redis_message)
          (if-both Continues (envelope.server_id == m.server_id) (m, refl, v)
            (receive-IsValid envelope.payload m v))
  ]

  pub online_tick-IsValid : (m : Manager W) → IsValid m → Continues (online_tick m)
  unfolding online_tick
  online_tick-IsValid m v =
      let (m', done, v', same) = broadcast_online_users-IsValid m v in
      (
        record m' {
          metrics = record (m'.metrics) {
            online_users = length m'.online_users;
            active_connections = length m'.clients;
          };
        },
        rw (done, online_tick),
        record {
          inv = record {
            distinct = v'.inv.distinct;
            opens = v'.inv.opens;
            active_count = refl;
            shown_count = refl;
            listed = v'.inv.listed;
            one_entry = v'.inv.one_entry;
          };
          repo = v'.repo;
        },
      )

  pub stats_tick-IsValid : (m : Manager W) → IsValid m → IsValid (stats_tick m)
  unfolding stats_tick
  stats_tick-IsValid m v =
      if-both IsValid (m.has_msg_repo && m.has_user_repo) (record { inv = v.inv; repo = v.repo }) v

  pub write-IsValid : (r : ℕ) (ch : Channel) (m : Manager W) → IsValid m → IsValid (write r ch m)
  unfolding write
  write-IsValid r ch m v = elim (Option-cases (lookup r m.heap)) [
    | inl e ↦ rw (e, write) v
    | inr (c, e) ↦
        simp (e, write)
          (record {
            inv =
                update-Inv r c (write_round ch c).1 m.heap e (write_round-username ch c)
                  (write_round-IsOpen ch c) m.clients m.online_users _ _ v.inv;
            repo = v.repo;
          })
  ]

  -- A client at an address that nothing is stored at.
  pub connect-IsValid :
      (r now : ℕ) (username : Text) (m : Manager W)
      → IsValid m
      → lookup r m.heap ≡ none
      → Continues (connect r now username m)
  unfolding connect
  connect-IsValid r now username m v e =
      let c = new_client now username in
      let stored =
        insert_new-Inv r c m.heap e (new_client-IsOpen now username) m.clients m.online_users _ _
          v.inv in
      register-IsValid r c (record m { heap = insert r c m.heap })
        (record { inv = stored; repo = v.repo })
        (ground (arith, lookup-insert r r c m.heap, nat_beq_iff r r))
        (new_client-IsOpen now username)
        (elim (Bool-cases (member r m.clients)) [
          | inl k ↦ absurd (rw e at (member-Holds m.clients m.heap r v.inv.opens k))
          | inr k ↦ k
        ])
