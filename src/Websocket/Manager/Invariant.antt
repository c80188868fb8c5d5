-- ===== src/Websocket/Manager/Invariant.antt =====
-- The invariant of the manager, and that deliveries keep it.
pub mod Join
pub mod Leave
use pigeongram_chat.Base.{
  ℕ, suc, ◌+◌, ◌≤◌, ◌≡◌, refl, sym, ◌∙◌, ap, subst, Bool, true, false, not, Option, none, some,
  List, [], ◌∷◌, ◌++◌, ◌==◌, nat_eq, list_eq, ltb, if◌then◌else◌, length, All, arith, Bool-cases,
  inl, inr,
}
use pigeongram_chat.Base.Text.{Text}
use pigeongram_chat.Base.Dict.{Dict, lookup, insert, NodupKeys}
use pigeongram_chat.Base.Sorting.{All-mono}
use pigeongram_chat.Models.{Message}
use pigeongram_chat.Websocket.Channels.{FileEventData, OnlineData, offer, has_room, length-offer}
use pigeongram_chat.Websocket.Client.{Client}
use pigeongram_chat.Websocket.Manager.{
  Outside, Manager, Send, member, deliver, send_message, send_file_event, send_online,
  broadcast_online_users, broadcast_to_local_clients, broadcast_file_event,
}
use pigeongram_chat.Websocket.Manager.Deliver.{
  IsOpen, Holds, Distinct, Works, touched, deliver-touched, touched-Holds,
}

abbrev pub Owner : Text → Option Client → Type 0
Owner u none = ⊥
Owner u (some c) = c.username ≡ u

-- A user who is listed as online has a registered connection.
abbrev pub Listed : List ℕ → Dict ℕ Client → Text × ℕ → Type 0
Listed clients heap (u, r) = (member r clients ≡ true) × Owner u (lookup r heap)

-- Registered clients are distinct and open, the two gauges show the true counts, and everybody listed
-- as online is connected.
pub record Inv (clients : List ℕ) (heap : Dict ℕ Client) (online : Dict Text ℕ) (active shown : ℕ)
    : Type 0 where
  pub distinct : Distinct clients
  pub opens : All (λ q. Holds (lookup q heap)) clients
  pub active_count : active ≡ length clients
  pub shown_count : shown ≡ length online
  pub listed : All (Listed clients heap) online
  pub one_entry : NodupKeys online

pub record IsValid {W : Outside} (m : Manager W) : Type 0 where
  pub inv : Inv m.clients m.heap m.online_users m.metrics.active_connections m.metrics.online_users
  pub repo : m.has_msg_repo ≡ true

-- What the three sends make of an open client.
abbrev pub got_message : Message → Client → Client
got_message m c = record c { send = offer 256 m c.send }

abbrev pub got_file_event : FileEventData → Client → Client
got_file_event e c = record c { send_file_event = offer 32 e c.send_file_event }

abbrev pub got_online : OnlineData → Client → Client
got_online d c = record c { send_online = offer 8 d c.send_online }

pub send_message-Works : (m : Message) → Works (send_message m) (got_message m)
unfolding send_message
send_message-Works m = record {
  sent = λ c o. (not (has_room 256 c.send), rw (o.still_open));
  stays = λ c o. record {
    still_open = o.still_open;
    send_fits = length-offer 256 m c.send o.send_fits;
    files_fit = o.files_fit;
    online_fits = o.online_fits;
  };
}

pub send_file_event-Works : (e : FileEventData) → Works (send_file_event e) (got_file_event e)
unfolding send_file_event
send_file_event-Works e = record {
  sent = λ c o. (not (has_room 32 c.send_file_event), rw (o.still_open));
  stays = λ c o. record {
    still_open = o.still_open;
    send_fits = o.send_fits;
    files_fit = length-offer 32 e c.send_file_event o.files_fit;
    online_fits = o.online_fits;
  };
}

pub send_online-Works : (d : OnlineData) → Works (send_online d) (got_online d)
unfolding send_online
send_online-Works d = record {
  sent = λ c o. (not (has_room 8 c.send_online), rw (o.still_open));
  stays = λ c o. record {
    still_open = o.still_open;
    send_fits = o.send_fits;
    files_fit = o.files_fit;
    online_fits = length-offer 8 d c.send_online o.online_fits;
  };
}

module _ {send : Send} {after : Client → Client} (w : Works send after)
    (same_name : (c : Client) → (after c).username ≡ c.username) where
  touched-Owner :
      (refs : List ℕ) (q : ℕ) (u : Text) (o : Option Client)
      → Owner u o
      → Owner u (touched after refs q o)
  touched-Owner refs q u none k = k
  touched-Owner refs q u (some c) k = elim (Bool-cases (member q refs)) [
    | inl e ↦ rw e (same_name c ∙ k)
    | inr e ↦ rw e k
  ]

  -- A delivery to the registered clients goes through and keeps the invariant.
  pub deliver-Inv :
      (clients : List ℕ) (h : Dict ℕ Client) (online : Dict Text ℕ) (active shown : ℕ)
      → Inv clients h online active shown
      → (h' : Dict ℕ Client) × (n : ℕ) × (deliver send clients h ≡ some (h', n))
        × ((q : ℕ) → lookup q h' ≡ touched after clients q (lookup q h))
        × Inv clients h' online active shown
  deliver-Inv clients h online active shown v =
      let (h', n, done, spec) = deliver-touched w clients h v.distinct v.opens in
      (
        h',
        n,
        done,
        spec,
        record {
          distinct = v.distinct;
          opens =
              All-mono
                (λ q k. subst Holds (sym (spec q)) (touched-Holds w clients q (lookup q h) k))
                clients v.opens;
          active_count = v.active_count;
          shown_count = v.shown_count;
          listed =
              All-mono
                (λ (u, r) k. (
                  k.0,
                  subst (Owner u) (sym (spec r)) (touched-Owner clients r u (lookup r h) k.1),
                ))
                online v.listed;
          one_entry = v.one_entry;
        },
      )
