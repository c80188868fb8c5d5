-- ===== src/Websocket/Manager/Orders.antt =====
-- Go ranges over the map of clients in any order; what is sent does not depend on it.
use pigeongram_chat.Base.{
  ℕ, ◌+◌, ◌≡◌, refl, ◌∙◌, Bool, true, ◌||◌, Option, some, List, [], ◌∷◌, ◌==◌, nat_eq, beq_refl,
  any, length, arith, All,
}
use pigeongram_chat.Base.Dict.{keys, lookup}
use pigeongram_chat.Models.{Message}
use pigeongram_chat.Websocket.Channels.{FileEventData}
use pigeongram_chat.Websocket.Manager.{
  Outside, Manager, member, broadcast_to_local_clients, broadcast_file_event,
  broadcast_online_users,
}
use pigeongram_chat.Websocket.Manager.Deliver.{Distinct, Holds}
use pigeongram_chat.Websocket.Manager.Invariant.Leave.{member-Holds}
use pigeongram_chat.Websocket.Manager.Invariant.{
  IsValid, send_message-Works, send_file_event-Works, send_online-Works,
}
use pigeongram_chat.Websocket.Manager.Counting.{deliver-any_order}

or_true : (a b : Bool) → b ≡ true → (a || b) ≡ true
or_true a b e = ground (arith, e)

All-members : (P : ℕ → Type 0) (refs : List ℕ) → ((q : ℕ) → member q refs ≡ true → P q) → All P refs
unfolding member any
All-members P [] f = tt
All-members P (r ∷ refs) f = (
  f r (rw (beq_refl r) refl),
  All-members P refs (λ q e. f q (or_true (r == q) (member q refs) e)),
)

-- Two states that differ at most in the order of the clients and of the entries of the heap.
abbrev pub Alike : {W : Outside} → Option (Manager W) → Option (Manager W) → Type 0
Alike {W} o o' =
    (k : Manager W) × (l : Manager W) × (o ≡ some k)
    × (o' ≡ some l)
    × ((q : ℕ) → lookup q k.heap ≡ lookup q l.heap)
    × (k.metrics ≡ l.metrics)

module _ {W : Outside} where
  message-any_order :
      (message : Message) (m : Manager W) (refs : List ℕ)
      → IsValid m
      → Distinct refs
      → ((q : ℕ) → member q m.clients ≡ member q refs)
      → All (λ q. Holds (lookup q m.heap)) refs
      → Alike
          (broadcast_to_local_clients message m)
          (broadcast_to_local_clients message (record m { clients = refs }))
  unfolding broadcast_to_local_clients
  message-any_order message m refs v d same opens =
      let (h1, h2, n, done1, done2, spec) =
        deliver-any_order (send_message-Works message) m.clients refs m.heap v.inv.distinct d same
          v.inv.opens opens in
      (
        record m {
          heap = h1;
          metrics = record (m.metrics) { send_queue_full = m.metrics.send_queue_full + n };
        },
        record m {
          clients = refs;
          heap = h2;
          metrics = record (m.metrics) { send_queue_full = m.metrics.send_queue_full + n };
        },
        rw (done1, broadcast_to_local_clients),
        rw (done2, broadcast_to_local_clients),
        spec,
        refl,
      )

  file_event-any_order :
      (event : FileEventData) (m : Manager W) (refs : List ℕ)
      → IsValid m
      → Distinct refs
      → ((q : ℕ) → member q m.clients ≡ member q refs)
      → All (λ q. Holds (lookup q m.heap)) refs
      → Alike
          (broadcast_file_event event m)
          (broadcast_file_event event (record m { clients = refs }))
  unfolding broadcast_file_event
  file_event-any_order event m refs v d same opens =
      let (h1, h2, n, done1, done2, spec) =
        deliver-any_order (send_file_event-Works event) m.clients refs m.heap v.inv.distinct d same
          v.inv.opens opens in
      (
        record m {
          heap = h1;
          metrics = record (m.metrics) { file_queue_full = m.metrics.file_queue_full + n };
        },
        record m {
          clients = refs;
          heap = h2;
          metrics = record (m.metrics) { file_queue_full = m.metrics.file_queue_full + n };
        },
        rw (done1, broadcast_file_event),
        rw (done2, broadcast_file_event),
        spec,
        refl,
      )

  online-any_order :
      (m : Manager W) (refs : List ℕ)
      → IsValid m
      → Distinct refs
      → ((q : ℕ) → member q m.clients ≡ member q refs)
      → All (λ q. Holds (lookup q m.heap)) refs
      → Alike (broadcast_online_users m) (broadcast_online_users (record m { clients = refs }))
  unfolding broadcast_online_users
  online-any_order m refs v d same opens =
      let (h1, h2, n, done1, done2, spec) =
        deliver-any_order
          (send_online-Works
            (record { count = length (keys m.online_users); users = keys m.online_users }))
          m.clients refs m.heap v.inv.distinct d same v.inv.opens opens in
      (
        record m { heap = h1 },
        record m { clients = refs; heap = h2 },
        rw (done1, broadcast_online_users),
        rw (done2, broadcast_online_users),
        spec,
        refl,
      )

  -- Whatever order Go takes the registered clients in, a chat message, a file event and the list of users
  -- leave every client with the same channels, and the metrics with the same counts of full queues.
  pub broadcasts-any_order :
      (message : Message) (event : FileEventData) (m : Manager W) (refs : List ℕ)
      → IsValid m
      → Distinct refs
      → ((q : ℕ) → member q m.clients ≡ member q refs)
      → Alike
          (broadcast_to_local_clients message m)
          (broadcast_to_local_clients message (record m { clients = refs }))
        × Alike
            (broadcast_file_event event m)
            (broadcast_file_event event (record m { clients = refs }))
        × Alike (broadcast_online_users m) (broadcast_online_users (record m { clients = refs }))
  broadcasts-any_order message event m refs v d same =
      let opens =
        All-members (λ q. Holds (lookup q m.heap)) refs
          (λ q e. member-Holds m.clients m.heap q v.inv.opens (same q ∙ e)) in
      (
        message-any_order message m refs v d same opens,
        file_event-any_order event m refs v d same opens,
        online-any_order m refs v d same opens,
      )
