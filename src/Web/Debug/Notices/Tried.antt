-- ===== src/Web/Debug/Notices/Tried.antt =====
-- `DebugSendTestEvent` (web/debug.go) on the manager.
use pigeongram_chat.Base.{
  ℕ, ◌≡◌, refl, Bool, false, not, some, List, [], ◌∷◌, ◌==◌, nat_eq, list_eq, All, Bool-cases,
  Option-cases, inl, inr, is_empty, if◌then◌else◌,
}
use pigeongram_chat.Base.Text.{Text, bytes}
use pigeongram_chat.Base.Dict.{Dict, lookup, insert}
use pigeongram_chat.Websocket.Channels.{FileEventData}
use pigeongram_chat.Websocket.Client.{Client}
use pigeongram_chat.Websocket.Manager.{Outside, Manager}
use pigeongram_chat.Websocket.Manager.Deliver.{IsOpen, Holds}
use pigeongram_chat.Websocket.Manager.Invariant.{
  Inv, IsValid, got_file_event, send_file_event-Works,
}
use pigeongram_chat.Websocket.Manager.Safety.Update.{update-Inv}
use pigeongram_chat.Web.Files.{Answer, status, body}
use pigeongram_chat.Web.Debug.{or_general}
use pigeongram_chat.Web.Debug.Notices.{test_event, send_to_first, debug_send_test_event}

module _ (target : Text) (event : FileEventData) (clients : List ℕ) (h : Dict ℕ Client)
    (online : Dict Text ℕ) (active shown : ℕ) (v : Inv clients h online active shown) where
  -- The search over open clients ends without a panic, and keeps the invariant.
  send_to_first-Inv :
      (refs : List ℕ)
      → All (λ q. Holds (lookup q h)) refs
      → (h' : Dict ℕ Client) × (b : Bool) × (send_to_first target event refs h ≡ some (h', b))
        × Inv clients h' online active shown
  unfolding send_to_first
  send_to_first-Inv [] all_open = (h, false, refl, v)
  send_to_first-Inv (r ∷ refs) (open_r, rest) = elim (Option-cases (lookup r h)) [
    | inl e ↦ absurd (rw e at open_r)
    | inr (c, e) ↦ elim (Bool-cases (c.username == target)) [
      | inr miss ↦ rw (e, send_to_first) (rw (miss, send_to_first) (send_to_first-Inv refs rest))
      | inl hit ↦
          let w = send_file_event-Works event in
          let o : IsOpen c = rw e at open_r in
          let (full, gone) = w.sent c o in
          (
            insert r (got_file_event event c) h,
            not full,
            rw (e, send_to_first) (rw (hit, send_to_first) (rw (gone, send_to_first) refl)),
            update-Inv r c (got_file_event event c) h e refl (w.stays c) clients online active shown
                v,
          )
    ]
  ]

module _ {W : Outside} where
  -- In a valid state a test event is sent, or not, without a panic, and the state stays valid.
  pub debug_send_test_event-IsValid :
      (now : ℕ) (username target chat_id : Text) (m : Manager W)
      → IsValid m
      → (answer : Answer Bool) × (m' : Manager W) × (debug_send_test_event now username target
            chat_id m
          ≡ some (answer, m'))
        × IsValid m'
  unfolding debug_send_test_event
  debug_send_test_event-IsValid now username target chat_id m v =
      elim (Bool-cases (is_empty username)) [
        | inl e ↦ (status 401, m, rw (e, debug_send_test_event) refl, v)
        | inr e ↦
            let (h, b, done, inv) =
              send_to_first-Inv (if is_empty target then username else target)
                (test_event now (bytes "system") (or_general chat_id)
                  (bytes "chat-general/system/test-file.txt"))
                m.clients m.heap m.online_users _ _ v.inv m.clients v.inv.opens in
            (
              body b,
              record m { heap = h },
              rw (e, debug_send_test_event) (rw (done, debug_send_test_event) refl),
              record { inv = inv; repo = v.repo },
            )
      ]
