-- ===== src/Websocket/Talk.antt =====
-- A chat message from the frame of one client to the writers of the others (internal/websocket/client.go,
-- internal/websocket/manager.go).
use pigeongram_chat.Base.{
  ℕ, ◌+◌, ◌≤◌, ◌<◌, ◌≡◌, refl, sym, ◌∙◌, ap, subst, true, false, some, List, [], ◌∷◌, ◌++◌, length,
  is_empty, arith, nat_eq,
}
use pigeongram_chat.Base.Text.{Text}
use pigeongram_chat.Base.Dict.{lookup}
use pigeongram_chat.Models.{Message}
use pigeongram_chat.Json.{Json}
use pigeongram_chat.Websocket.Channels.{has_room, offer}
use pigeongram_chat.Websocket.Client.{Client, chat, Channel, read_frame, post}
use pigeongram_chat.Websocket.Client.Frames.{
  author, read_frame-author, IsSendable, read_frame-IsSendable,
}
use pigeongram_chat.Websocket.Client.Writes.{written, chat_turns}
use pigeongram_chat.Websocket.History.{with_defaults}
use pigeongram_chat.Websocket.Manager.{Outside, Manager, member}
use pigeongram_chat.Websocket.Manager.Invariant.{IsValid}
use pigeongram_chat.Websocket.Manager.Cases.{handle_message}
use pigeongram_chat.Websocket.Manager.Run.{takes_message, step}
use pigeongram_chat.Websocket.Manager.Arrival.{handle_message-arrives}

-- The message that a client's text becomes.
abbrev pub message_of : Text → Text → ℕ → Message
message_of username text at = record {
  id = 0;
  username = username;
  text = text;
  timestamp = at;
  edited = false;
}

length-is_empty : (t : Text) → 0 < length t → is_empty t ≡ false
length-is_empty [] h = absurd (omega (arith, h))
length-is_empty (c ∷ t) h = refl

with_defaults-kept :
    (now : ℕ) (username text : Text) (at : ℕ)
    → is_empty username ≡ false
    → 0 < at
    → with_defaults now (message_of username text at) ≡ message_of username text at
unfolding with_defaults
with_defaults-kept now username text at named later = ground (arith, named, later)

module _ {W : Outside} where
  -- A round of `ReadPump` for a client, at the channels of the manager.
  unfoldable pub reads : ℕ → Client → Json → Manager W → Manager W
  unfolding read_frame post
  reads at c raw m =
      let i =
        post at (read_frame c.username raw)
          (record { broadcast = m.broadcast; edits = m.edits; leaving = [] }) in
      record m { broadcast = i.broadcast; edits = i.edits }

  reads-message :
      (at : ℕ) (c : Client) (raw : Json) (name text : Text) (m : Manager W)
      → m.broadcast ≡ []
      → read_frame c.username raw ≡ chat name text
      → reads at c raw m ≡ record m { broadcast = message_of name text at ∷ [] }
  unfolding reads post
  reads-message at c raw name text m idle read =
      ap
        (λ f.
          let i = post at f (record { broadcast = m.broadcast; edits = m.edits; leaving = [] }) in
          record m { broadcast = i.broadcast; edits = i.edits })
        read
      ∙ ap (λ q. record m { broadcast = offer 100 (message_of name text at) q }) idle

  -- In a valid state in which no message waits for the manager, the frame of a client that `ReadPump`
  -- reads as a chat message, whoever it names as the author, comes to every registered client whose
  -- channel has room: once the manager takes the message, and `WritePump` of that client takes its turns
  -- in any order, but one turn at the chat channel for each message that waited there and one more, it
  -- writes what waited, and then the text of the frame with the name that the sender logged in with, if
  -- that is not empty, and the time of reading, if that is not the zero time.
  pub reads-arrives :
      (at now : ℕ) (sender : Client) (raw : Json) (name text : Text) (m : Manager W) (r : ℕ)
      (c : Client) (turns : List Channel)
      → IsValid m
      → m.broadcast ≡ []
      → read_frame sender.username raw ≡ chat name text
      → is_empty sender.username ≡ false
      → 0 < at
      → member r m.clients ≡ true
      → lookup r m.heap ≡ some c
      → has_room 256 c.send ≡ true
      → length c.send + 1 ≤ chat_turns turns
      → (m' : Manager W) × (step (takes_message now) (reads at sender raw m) ≡ some m')
        × (c' : Client) × (lookup r m'.heap ≡ some c')
        × (written turns c' ≡ c.send ++ (message_of sender.username text at ∷ []))
  unfolding reads step post
  reads-arrives at now sender raw name text m r c turns v idle read named later registered found
        room enough =
      let same : name ≡ sender.username =
        ap (author sender.username) (sym read) ∙ read_frame-author sender.username raw in
      let sendable : IsSendable (chat name text) =
        subst IsSendable read (read_frame-IsSendable sender.username raw) in
      let (m', done, c', there, wrote) =
        handle_message-arrives now (message_of name text at) m r c turns v
          (length-is_empty text sendable.0) registered found room enough in
      let kept =
        with_defaults-kept now name text at (subst (λ u. is_empty u ≡ false) (sym same) named)
          later in
      (
        m',
        ap (step (takes_message now)) (reads-message at sender raw name text m idle read)
            ∙ ap (λ q. handle_message now (message_of name text at) (record m { broadcast = q }))
                (sym idle)
            ∙ done,
        c',
        there,
        wrote ∙ ap (λ k. c.send ++ (k ∷ [])) (kept ∙ ap (λ u. message_of u text at) same),
      )
