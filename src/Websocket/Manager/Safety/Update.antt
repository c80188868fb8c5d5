-- ===== src/Websocket/Manager/Safety/Update.antt =====
-- One client of the heap changes: its own writer takes a message, or it gets its history.
use pigeongram_chat.Base.{
  ℕ, ◌≡◌, refl, sym, ◌∙◌, subst, none, some, List, [], ◌∷◌, ◌==◌, nat_eq, list_eq, nat_beq_iff,
  arith, Bool, Bool-cases, Option-cases, inl, inr,
}
use mathlib.Core.Option.{none-ne-some}
use pigeongram_chat.Base.Text.{Text}
use pigeongram_chat.Base.Dict.{Dict, lookup, insert, lookup-insert}
use pigeongram_chat.Base.Sorting.{All-mono}
use pigeongram_chat.Models.{Message}
use pigeongram_chat.Websocket.Client.{
  Client, new_client, Channel, from_send, from_file_events, from_online, write_round,
}
use pigeongram_chat.Websocket.Manager.{send_message}
use pigeongram_chat.Websocket.Manager.Deliver.{All-insert, IsOpen, Holds}
use pigeongram_chat.Websocket.Manager.Invariant.{Inv, Owner, send_message-Works}
use pigeongram_chat.Websocket.Manager.Tasks.{send_all}

-- A client is replaced by one of the same name that is as open.
module _ (r : ℕ) (c c' : Client) (h : Dict ℕ Client) (e : lookup r h ≡ some c)
    (same : c'.username ≡ c.username) (as_open : IsOpen c → IsOpen c') where
  Holds-update : (q : ℕ) → Holds (lookup q h) → Holds (lookup q (insert r c' h))
  Holds-update q k = elim (Bool-cases (r == q)) [
    | inl hit ↦
        let held : IsOpen c =
          rw e at (subst (λ p. Holds (lookup p h)) (sym ((nat_beq_iff r q).0 hit)) k) in
        rw (lookup-insert q r c' h, hit) (as_open held)
    | inr miss ↦ rw (lookup-insert q r c' h, miss) k
  ]

  Owner-update : (q : ℕ) (u : Text) → Owner u (lookup q h) → Owner u (lookup q (insert r c' h))
  Owner-update q u k = elim (Bool-cases (r == q)) [
    | inl hit ↦
        let mine : c.username ≡ u =
          rw e at (subst (λ p. Owner u (lookup p h)) (sym ((nat_beq_iff r q).0 hit)) k) in
        rw (lookup-insert q r c' h, hit) (same ∙ mine)
    | inr miss ↦ rw (lookup-insert q r c' h, miss) k
  ]

  pub update-Inv :
      (clients : List ℕ) (online : Dict Text ℕ) (active shown : ℕ)
      → Inv clients h online active shown
      → Inv clients (insert r c' h) online active shown
  update-Inv clients online active shown v = record {
    distinct = v.distinct;
    opens = All-mono Holds-update clients v.opens;
    active_count = v.active_count;
    shown_count = v.shown_count;
    listed = All-mono (λ (u, q) k. (k.0, Owner-update q u k.1)) online v.listed;
    one_entry = v.one_entry;
  }

-- A round of `WritePump` keeps the name, and an open client open.
pub write_round-username : (ch : Channel) (c : Client) → (write_round ch c).1.username ≡ c.username
unfolding write_round
write_round-username from_send c = ground arith
write_round-username from_file_events c = ground arith
write_round-username from_online c = ground arith

pub write_round-IsOpen : (ch : Channel) (c : Client) → IsOpen c → IsOpen (write_round ch c).1
unfolding write_round
write_round-IsOpen from_send c o = ground arith
write_round-IsOpen from_file_events c o = ground arith
write_round-IsOpen from_online c o = ground arith

sent_keeps_name :
    (m : Message) (c c' : Client) (full : Bool)
    → send_message m c ≡ some (c', full)
    → c'.username ≡ c.username
unfolding send_message
sent_keeps_name m c c' full e = ground arith

-- A history leaves the name alone.
pub send_all_keeps_name :
    (ms : List Message) (c c' : Client) → send_all ms c ≡ some c' → c'.username ≡ c.username
unfolding send_all
send_all_keeps_name [] c c' e = ground arith
send_all_keeps_name (m ∷ ms) c c' e = elim (Option-cases (send_message m c)) [
  | inl s ↦ absurd (none-ne-some _ (rw (s, send_all) at e))
  | inr ((d, full), s) ↦
      send_all_keeps_name ms d c' (rw (s, send_all) at e) ∙ sent_keeps_name m c d full s
]

-- An open client takes any history.
pub send_all-IsOpen :
    (ms : List Message) (c : Client)
    → IsOpen c
    → (c' : Client) × (send_all ms c ≡ some c') × IsOpen c' × (c'.username ≡ c.username)
unfolding send_all
send_all-IsOpen [] c o = (c, refl, o, refl)
send_all-IsOpen (m ∷ ms) c o =
    let w = send_message-Works m in
    let (full, sent) = w.sent c o in
    let (c', done, o', same) = send_all-IsOpen ms _ (w.stays c o) in
    (c', rw (sent, send_all) done, o', same)

pub new_client-IsOpen : (now : ℕ) (username : Text) → IsOpen (new_client now username)
unfolding new_client
new_client-IsOpen now username = record {
  still_open = refl;
  send_fits = omega arith;
  files_fit = omega arith;
  online_fits = omega arith;
}

-- A client is stored where nothing was.
pub insert_new-Inv :
    (r : ℕ) (c : Client) (h : Dict ℕ Client)
    → lookup r h ≡ none
    → IsOpen c
    → (clients : List ℕ) (online : Dict Text ℕ) (active shown : ℕ)
    → Inv clients h online active shown
    → Inv clients (insert r c h) online active shown
insert_new-Inv r c h e o clients online active shown v = record {
  distinct = v.distinct;
  opens = All-insert clients r c h o v.opens;
  active_count = v.active_count;
  shown_count = v.shown_count;
  listed = All-mono (λ (u, q) k. (k.0, Owner-new q u k.1)) online v.listed;
  one_entry = v.one_entry;
}
  where
    Owner-new : (q : ℕ) (u : Text) → Owner u (lookup q h) → Owner u (lookup q (insert r c h))
    Owner-new q u k = elim (Bool-cases (r == q)) [
      | inl hit ↦
          absurd (rw e at (subst (λ p. Owner u (lookup p h)) (sym ((nat_beq_iff r q).0 hit)) k))
      | inr miss ↦ rw (lookup-insert q r c h, miss) k
    ]
