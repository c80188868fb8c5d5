-- ===== src/Tests/Fleet.antt =====
-- Two servers on one database, and a message that one of them publishes.
use pigeongram_chat.Base.{ℕ, ◌≡◌, refl, none, some, List, [], ◌∷◌, select, length}
use pigeongram_chat.Base.Text.{Text, bytes}
use pigeongram_chat.Cache.Memory.{new_memory_cache}
use pigeongram_chat.Websocket.Manager.{broadcast_to_local_clients, deliver}
use pigeongram_chat.Websocket.Manager.Cases.{handle_message, accepted}
use pigeongram_chat.Websocket.Manager.Run.{connects, posts_message, takes_message}
use pigeongram_chat.Websocket.Fleet.{Turn, acts, relays, turns, start_fleet, nth, Member}
use pigeongram_chat.Websocket.Fleet.Isolated.{turns-without_relays}
use pigeongram_chat.Tests.World.{world, hello}

-- A user joins the second server, and a message goes to the first one.
abbrev own : List Turn
own =
    acts 1 (connects 1 2 (bytes "bob"))
    ∷ acts 0 (posts_message hello)
    ∷ acts 0 (takes_message 5)
    ∷ []

abbrev all_turns : List Turn
all_turns =
    acts 1 (connects 1 2 (bytes "bob"))
    ∷ acts 0 (posts_message hello)
    ∷ acts 0 (takes_message 5)
    ∷ relays 0 0 1
    ∷ []

abbrev names : List Text
names = bytes "host-1" ∷ bytes "host-2" ∷ []

turns-without_relays_example :
    turns all_turns (start_fleet world tt (new_memory_cache 600) names)
    ≡ turns own (start_fleet world tt (new_memory_cache 600) names)
unfolding select
turns-without_relays_example =
    turns-without_relays {W = world} tt (new_memory_cache 600) names all_turns

abbrev published_by : ℕ → List (Member world) → ℕ
published_by i members = elim (nth i members) [ none ↦ 0 | some b ↦ length b.manager.published ]

-- There is a document to relay.
published_once : published_by 0 (turns own (start_fleet world tt (new_memory_cache 600) names)) ≡ 1
unfolding turns start_fleet new_memory_cache handle_message broadcast_to_local_clients deliver
    accepted
published_once = refl
