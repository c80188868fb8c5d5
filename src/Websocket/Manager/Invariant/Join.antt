-- ===== src/Websocket/Manager/Invariant/Join.antt =====
-- `broadcast…` and `Register` keep the invariant.
use pigeongram_chat.Base.{
  ℕ, ◌+◌, ◌≡◌, refl, false, ◌||◌, Option, some, List, [], ◌∷◌, ◌++◌, ◌==◌, nat_eq, list_eq,
  nat_beq_iff, length, length-append, All-snoc, arith, any,
}
use pigeongram_chat.Base.Dict
use pigeongram_chat.Base.Dict.{Dict, lookup, insert, NodupKeys, insert-NodupKeys, All-insert}
use pigeongram_chat.Base.Sorting.{All-mono}
use pigeongram_chat.Models.{Message}
use pigeongram_chat.Websocket.Channels.{FileEventData}
use pigeongram_chat.Websocket.Client.{Client}
use pigeongram_chat.Websocket.Manager.{
  Outside, Manager, member, add_ref, send_history, broadcast_online_users,
  broadcast_to_local_clients, broadcast_file_event, joined, register,
}
use pigeongram_chat.Websocket.Manager.Deliver.{IsOpen, Holds, Distinct}
use pigeongram_chat.Websocket.Manager.Invariant.{
  IsValid, Listed, deliver-Inv, send_message-Works, send_file_event-Works, send_online-Works,
}

-- A state follows without a panic, and is valid.
abbrev pub Continues : {W : Outside} → Option (Manager W) → Type 0
Continues {W} o = (m : Manager W) × (o ≡ some m) × IsValid m

module _ {W : Outside} (m : Manager W) (v : IsValid m) where
  pub broadcast_online_users-IsValid :
      (m' : Manager W) × (broadcast_online_users m ≡ some m')
      × IsValid m'
      × (m'.clients ≡ m.clients)
  unfolding broadcast_online_users
  broadcast_online_users-IsValid =
      let (h, n, done, spec, inv) =
        deliver-Inv
          (send_online-Works (record {
            count = length (Dict.keys m.online_users);
            users = Dict.keys m.online_users;
          }))
          (λ c. refl) m.clients m.heap m.online_users _ _ v.inv in
      (
        record m { heap = h },
        rw (done, broadcast_online_users),
        record { inv = inv; repo = v.repo },
        refl,
      )

  pub broadcast_to_local_clients-IsValid :
      (message : Message) → Continues (broadcast_to_local_clients message m)
  unfolding broadcast_to_local_clients
  broadcast_to_local_clients-IsValid message =
      let (h, n, done, spec, inv) =
        deliver-Inv (send_message-Works message) (λ c. refl) m.clients m.heap m.online_users _ _
          v.inv in
      (
        record m {
          heap = h;
          metrics = record (m.metrics) { send_queue_full = m.metrics.send_queue_full + n };
        },
        rw (done, broadcast_to_local_clients),
        record { inv = inv; repo = v.repo },
      )

  pub broadcast_file_event-IsValid :
      (event : FileEventData) → Continues (broadcast_file_event event m)
  unfolding broadcast_file_event
  broadcast_file_event-IsValid event =
      let (h, n, done, spec, inv) =
        deliver-Inv (send_file_event-Works event) (λ c. refl) m.clients m.heap m.online_users _ _
          v.inv in
      (
        record m {
          heap = h;
          metrics = record (m.metrics) { file_queue_full = m.metrics.file_queue_full + n };
        },
        rw (done, broadcast_file_event),
        record { inv = inv; repo = v.repo },
      )

pub member-snoc :
    (q r : ℕ) (refs : List ℕ) → member q (refs ++ (r ∷ [])) ≡ (member q refs || (r == q))
unfolding member any
member-snoc q r [] = ground arith
member-snoc q r (p ∷ refs) = ground (arith, member-snoc q r refs)

Distinct-snoc :
    (r : ℕ) (refs : List ℕ) → member r refs ≡ false → Distinct refs → Distinct (refs ++ (r ∷ []))
unfolding member any
Distinct-snoc r [] e d = (refl, tt)
Distinct-snoc r (p ∷ refs) e d =
    ground (arith, member-snoc p r refs, nat_beq_iff r p, nat_beq_iff p r, Distinct-snoc r refs)

module _ {W : Outside} (r : ℕ) (c : Client) (m : Manager W) where
  joined-IsValid :
      IsValid m
      → lookup r m.heap ≡ some c
      → IsOpen c
      → member r m.clients ≡ false
      → IsValid (joined r c m)
  unfolding joined add_ref
  joined-IsValid v e o fresh = record {
    inv = rw fresh (record {
      distinct = Distinct-snoc r m.clients fresh v.inv.distinct;
      opens = All-snoc (λ q. Holds (lookup q m.heap)) m.clients r v.inv.opens (rw e o);
      active_count = omega (arith, v.inv.active_count, length-append m.clients (r ∷ []));
      shown_count = refl;
      listed =
          All-insert (Listed (m.clients ++ (r ∷ [])) m.heap) c.username r m.online_users
            (ground (arith, member-snoc r r m.clients, nat_beq_iff r r), rw e refl)
            (All-mono (λ (u, q) k. (ground (arith, member-snoc q r m.clients, k.0), k.1))
              m.online_users v.inv.listed);
      one_entry = insert-NodupKeys c.username r m.online_users v.inv.one_entry;
    });
    repo = v.repo;
  }

  -- Registering an open client that is not registered yet goes through and keeps the invariant.
  pub register-IsValid :
      IsValid m
      → lookup r m.heap ≡ some c
      → IsOpen c
      → member r m.clients ≡ false
      → Continues (register r m)
  unfolding register
  register-IsValid v e o fresh =
      let (m', done, v', same) =
        broadcast_online_users-IsValid (joined r c m) (joined-IsValid v e o fresh) in
      (
        record m' { tasks = m'.tasks ++ (send_history r ∷ []) },
        rw (e, register) (rw (done, register)),
        record { inv = v'.inv; repo = v'.repo },
      )
