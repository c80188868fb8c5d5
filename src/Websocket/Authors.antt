-- ===== src/Websocket/Authors.antt =====
-- The names on messages and edits on their way to the manager (internal/websocket/client.go,
-- internal/websocket/manager.go): the manager at work among clients whose frames are read.
pub mod Cases
pub mod Steps
pub mod Trusted
use pigeongram_chat.Base.{
  ℕ, ◌≡◌, refl, subst, Bool, Option, some, List, [], ◌∷◌, ◌==◌, nat_eq, All, if-both, Bool-cases,
  inl, inr, arith,
}
use mathlib.Core.Option.{some-injective}
use pigeongram_chat.Base.Text.{Text}
use pigeongram_chat.Base.Dict.{Dict, lookup, insert}
use pigeongram_chat.Json.{Json}
use pigeongram_chat.Websocket.Client.{Client}
use pigeongram_chat.Websocket.Manager.{Outside, Manager, Send, deliver}
use pigeongram_chat.Websocket.Manager.Run.{Event, connects, posts_message, posts_edit, step}
use pigeongram_chat.Websocket.Talk.{reads}

-- A send that leaves the name of the client alone.
abbrev pub KeepsName : Send → Type 0
KeepsName send =
    (c : Client)
    → (c' : Client) → (full : Bool) → send c ≡ some (c', full)
    → c'.username ≡ c.username

-- A property of names.
module _ (N : Text → Type 0) where
  -- The names of all clients have it.
  abbrev pub Owned : Dict ℕ Client → Type 0
  Owned h = All (λ (q, c). N c.username) h

  pub lookup-Owned :
      (r : ℕ) (c : Client) (h : Dict ℕ Client) → Owned h → lookup r h ≡ some c → N c.username
  unfolding lookup
  lookup-Owned r c [] o e = cc
  lookup-Owned r c ((q, d) ∷ h) o e = elim (Bool-cases (q == r)) [
    | inl hit ↦ subst (λ x. N x.username) (some-injective d c (rw hit at e)) o.0
    | inr miss ↦ lookup-Owned r c h o.1 (rw miss at e)
  ]

  pub insert-Owned :
      (r : ℕ) (c : Client) (h : Dict ℕ Client) → N c.username → Owned h → Owned (insert r c h)
  unfolding insert
  insert-Owned r c [] n o = (n, tt)
  insert-Owned r c ((q, d) ∷ h) n o =
      if-both Owned (q == r) (n, o.1) (o.0, insert-Owned r c h n o.1)

  -- A connection has a name with the property, and so has what comes from elsewhere.
  abbrev pub NamedEvent : Event → Type 0
  NamedEvent (connects r now username) = N username
  NamedEvent (posts_message message) = N message.username
  NamedEvent (posts_edit e) = N e.username
  NamedEvent _ = Unit {0}

  module _ {W : Outside} where
    -- The names of clients, and on messages and edits that wait, have the property.
    pub record Named (m : Manager W) : Type 0 where
      pub owned : Owned m.heap
      pub spoken : All (λ k. N k.username) m.broadcast
      pub edited : All (λ e. N e.username) m.edits

    -- The states that a manager comes to by events and by frames of its clients.
    pub data Talks (m : Manager W) : Manager W → Type 0 where
      here : Talks m m
      does :
          {k l : Manager W} (e : Event) → Talks m k → NamedEvent e → step e k ≡ some l → Talks m l
      hears :
          {k : Manager W} (at r : ℕ) (c : Client) (raw : Json)
          → Talks m k
          → lookup r k.heap ≡ some c
          → Talks m (reads at c raw k)
