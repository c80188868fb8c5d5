-- ===== src/Websocket/Client/Writes.antt =====
-- What the rounds of `WritePump` write of the chat channel (internal/websocket/client.go).
use pigeongram_chat.Base.{
  ℕ, zero, suc, false, ◌⊎◌, inl, inr, ◌≤◌, ◌≡◌, refl, ap, ◌∙◌, List, [], ◌∷◌, take, length, arith,
}
use pigeongram_chat.Models.{Message}
use pigeongram_chat.Websocket.Client.{
  Client, Channel, from_send, from_file_events, from_online, write_round, Written, wrote_message,
  close_frame, stopped,
}

-- The choices of `select` that take from the chat channel.
abbrev pub chat_turns : List Channel → ℕ
chat_turns [] = zero
chat_turns (from_send ∷ turns) = suc (chat_turns turns)
chat_turns (from_file_events ∷ turns) = chat_turns turns
chat_turns (from_online ∷ turns) = chat_turns turns

-- A chat message that a round has written goes in front of those that follow, and a closed channel
-- ends the rounds.
abbrev pub then_written : Written → List Message → List Message
then_written (wrote_message m) ms = m ∷ ms
then_written close_frame ms = []
then_written stopped ms = []
then_written _ ms = ms

-- The chat messages that `WritePump` writes in rounds with these choices.
unfoldable pub written : List Channel → Client → List Message
unfolding write_round
written [] c = []
written (turn ∷ turns) c =
    then_written (write_round turn c).0 (written turns (write_round turn c).1)

take-nil : (n : ℕ) → Path (List Message) (take n []) []
take-nil zero = refl
take-nil (suc n) = refl

pub List-cases : {A : Type 0} (xs : List A) → (xs ≡ []) ⊎ ((y : A) × (ys : List A) × (xs ≡ y ∷ ys))
List-cases [] = inl refl
List-cases (y ∷ ys) = inr (y, ys, refl)

-- The rounds of an open client write the messages that wait in its channel, in order, one in each turn.
pub written-take :
    (turns : List Channel) (c : Client)
    → c.closed ≡ false
    → written turns c ≡ take (chat_turns turns) c.send
unfolding written write_round
written-take [] c h = refl
written-take (from_send ∷ turns) c h = elim (List-cases c.send) [
  | inl e ↦
      rw (e, written, write_round, h)
        (written-take turns (record c { closed = false }) refl ∙ rw e (take-nil (chat_turns turns)))
  | inr (m, ms, e) ↦
      rw (e, written, write_round) (ap (λ l. m ∷ l) (written-take turns (record c { send = ms }) h))
]
written-take (from_file_events ∷ turns) c h = elim (List-cases c.send_file_event) [
  | inl e ↦ rw (e, h) (written-take turns (record c { send_file_event = []; closed = false }) refl)
  | inr (m, ms, e) ↦
      rw (e, written, write_round) (written-take turns (record c { send_file_event = ms }) h)
]
written-take (from_online ∷ turns) c h = elim (List-cases c.send_online) [
  | inl e ↦ rw (e, h) (written-take turns (record c { send_online = []; closed = false }) refl)
  | inr (m, ms, e) ↦
      rw (e, written, write_round) (written-take turns (record c { send_online = ms }) h)
]

pub take-all : (n : ℕ) (ms : List Message) → length ms ≤ n → take n ms ≡ ms
take-all zero [] h = refl
take-all zero (m ∷ ms) h = absurd (omega (arith, h))
take-all (suc n) [] h = refl
take-all (suc n) (m ∷ ms) h = ap (λ l. m ∷ l) (take-all n ms (omega (arith, h)))
