-- ===== src/Websocket/Manager/Arrival.antt =====
-- A chat message on its way from the manager to the writer of a client.
use pigeongram_chat.Base.{
  ℕ, ◌≤◌, ◌≡◌, refl, ◌∙◌, ap, subst, true, false, some, List, [], ◌∷◌, ◌++◌, length, length-append,
  is_empty, arith, ◌+◌, nat_eq,
}
use pigeongram_chat.Base.Dict.{lookup}
use pigeongram_chat.Models.{Message}
use pigeongram_chat.Websocket.Channels.{has_room}
use pigeongram_chat.Websocket.Client.{Client, Channel}
use pigeongram_chat.Websocket.Client.Writes.{written, written-take, take-all, chat_turns}
use pigeongram_chat.Websocket.History.{with_defaults}
use pigeongram_chat.Websocket.Manager.{Outside, Manager, member}
use pigeongram_chat.Websocket.Manager.Deliver.{IsOpen, Holds, touched}
use pigeongram_chat.Websocket.Manager.Invariant.{IsValid, got_message}
use pigeongram_chat.Websocket.Manager.Invariant.Leave.{member-Holds}
use pigeongram_chat.Websocket.Manager.Cases.{handle_message}
use pigeongram_chat.Websocket.Manager.Delivery.{handle_message-Sends}

module _ {W : Outside} where
  -- In a valid state a chat message with a text reaches the writer of every registered client whose
  -- channel has room: when the handler of Broadcast has gone through, and `WritePump` takes its turns in
  -- any order, but one turn at the chat channel for each message that waited there and one more, it
  -- writes what waited, and the message with its time and author filled in.
  pub handle_message-arrives :
      (now : ℕ) (message : Message) (m : Manager W) (r : ℕ) (c : Client) (turns : List Channel)
      → IsValid m
      → is_empty message.text ≡ false
      → member r m.clients ≡ true
      → lookup r m.heap ≡ some c
      → has_room 256 c.send ≡ true
      → length c.send + 1 ≤ chat_turns turns
      → (m' : Manager W) × (handle_message now message m ≡ some m')
        × (c' : Client) × (lookup r m'.heap ≡ some c')
        × (written turns c' ≡ c.send ++ (with_defaults now message ∷ []))
  handle_message-arrives now message m r c turns v text registered found room enough =
      let (m', done, spec, tasks) = handle_message-Sends now message m v text in
      let open_c : IsOpen c =
        subst Holds found (member-Holds m.clients m.heap r v.inv.opens registered) in
      (
        m',
        done,
        got_message (with_defaults now message) c,
        spec r
            ∙ ap (touched (got_message (with_defaults now message)) m.clients r) found
            ∙ rw registered refl,
        written-take turns (got_message (with_defaults now message) c) open_c.still_open
            ∙ rw room (
                take-all (chat_turns turns) (c.send ++ (with_defaults now message ∷ []))
                  (omega (arith, enough, length-append c.send (with_defaults now message ∷ [])))),
      )
