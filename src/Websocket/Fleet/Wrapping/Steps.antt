-- ===== src/Websocket/Fleet/Wrapping/Steps.antt =====
-- Every document that a manager publishes is the envelope of a text: tasks and events.
use pigeongram_chat.Base.{
  ℕ, not, ◌&&◌, Option, none, some, List, [], ◌∷◌, if-both, is_empty, map, nat_eq,
}
use pigeongram_chat.Base.Text.{Text}
use pigeongram_chat.Base.Result.{Result, ok, err}
use pigeongram_chat.Base.Dict.{lookup, insert}
use pigeongram_chat.Models.{Message, MessageEntity}
use pigeongram_chat.Repository.{DbError}
use pigeongram_chat.Websocket.Client.{Channel, write_round}
use pigeongram_chat.Websocket.History.{row_message, history_of}
use pigeongram_chat.Websocket.Manager.{
  Outside, Manager, Task, send_history, save_message, update_cache, broadcast_online_users,
}
use pigeongram_chat.Websocket.Manager.Cases.{
  handle_message, handle_file_event, handle_edit, online_tick, stats_tick,
}
use pigeongram_chat.Websocket.Manager.Tasks.{
  send_all, gather, from_cache, from_database, from_rows, hit_or_miss, run_history, saved, run_save,
  run_update_cache, run_task,
}
use pigeongram_chat.Websocket.Manager.Run.{
  Event, connects, leaves, takes_message, takes_file_event, takes_edit, receives, ticks, counts,
  posts_message, posts_edit, posts_file_event, writes, runs, pick, step, connect, write,
}
use pigeongram_chat.Websocket.Manager.Passing.{goes_on, chained}
use pigeongram_chat.Websocket.Fleet.Wrapping.{
  Wrapped, Wraps, online-Wraps, register-Wraps, unregister-Wraps, handle_message-Wraps,
  handle_file_event-Wraps, handle_edit-Wraps, process-Wraps,
}

module _ {W : Outside} where
  hit_or_miss-Wrapped :
      (r : Result Text (Option (List Message))) (m : Manager W)
      → Wrapped m
      → Wrapped (hit_or_miss r m).1
  unfolding hit_or_miss
  hit_or_miss-Wrapped (ok (some ms)) m w = w
  hit_or_miss-Wrapped (ok none) m w = w
  hit_or_miss-Wrapped (err e) m w = w

  from_rows-Wrapped :
      (now : ℕ) (r : Result DbError (List MessageEntity)) (m : Manager W)
      → Wrapped m
      → Wrapped (from_rows now r m).1
  unfolding from_rows
  from_rows-Wrapped now (err e) m w = w
  from_rows-Wrapped now (ok rows) m w =
      if-both Wrapped (m.has_cache && not (is_empty (map row_message rows))) w w

  gather-Wrapped : (now : ℕ) (m : Manager W) → Wrapped m → Wrapped (gather now m).1
  unfolding gather from_cache from_database
  gather-Wrapped now m w =
      let P : List Message × Manager W → Type 0 = λ p. Wrapped p.1 in
      let cached : P (from_cache now m) = if-both P m.has_cache (hit_or_miss-Wrapped _ _ w) w in
      if-both P (is_empty (from_cache now m).0 && (from_cache now m).1.has_msg_repo)
        (from_rows-Wrapped now _ (from_cache now m).1 cached) cached

  run_history-Wraps : (now r : ℕ) (m : Manager W) → Wrapped m → Wraps (run_history now r m)
  unfolding run_history
  run_history-Wraps now r m w = goes_on Wrapped (lookup r (gather now m).1.heap) _ (λ c e.
      goes_on Wrapped (send_all (history_of now (gather now m).0) c) _
        (λ c' e'. gather-Wrapped now m w))

  saved-Wrapped : (r : Result DbError ℕ) (m : Manager W) → Wrapped m → Wrapped (saved r m)
  unfolding saved
  saved-Wrapped (err e) m w = w
  saved-Wrapped (ok id) m w = w

  run_task-Wraps : (now : ℕ) (t : Task) (m : Manager W) → Wrapped m → Wraps (run_task now t m)
  unfolding run_task run_save run_update_cache
  run_task-Wraps now (send_history r) m w = run_history-Wraps now r m w
  run_task-Wraps now (save_message message) m w =
      if-both Wrapped m.has_msg_repo (saved-Wrapped _ _ w) w
  run_task-Wraps now (update_cache message) m w = if-both Wrapped m.has_cache w w

  stats_tick-Wrapped : (m : Manager W) → Wrapped m → Wrapped (stats_tick m)
  unfolding stats_tick
  stats_tick-Wrapped m w = if-both Wrapped (m.has_msg_repo && m.has_user_repo) w w

  write-Wrapped :
      (r : ℕ) (channel : Channel) (m : Manager W) → Wrapped m → Wrapped (write r channel m)
  unfolding write
  write-Wrapped r channel m w =
      elim (lookup r m.heap)
        as (λ o. Wrapped (elim o [
          | none ↦ m
          | some c ↦ record m { heap = insert r (write_round channel c).1 m.heap }
        ])) [ none ↦ w | some c ↦ w ]

  -- Whatever the event, the documents that are published after it are envelopes if those before it are.
  pub step-Wraps : (e : Event) (m : Manager W) → Wrapped m → Wraps (step e m)
  unfolding step connect online_tick
  step-Wraps (connects r now username) m w = register-Wraps r _ w
  step-Wraps (leaves r) m w = unregister-Wraps r m w
  step-Wraps (takes_message now) m w =
      elim m.broadcast
        as (λ l. Wraps (elim l [
          | [] ↦ some m
          | message ∷ rest ↦ handle_message now message (record m { broadcast = rest })
        ])) [ [] ↦ w | message ∷ rest ↦ handle_message-Wraps now message _ w ]
  step-Wraps takes_file_event m w =
      elim m.file_events
        as (λ l. Wraps (elim l [
          | [] ↦ some m
          | event ∷ rest ↦ handle_file_event event (record m { file_events = rest })
        ])) [ [] ↦ w | event ∷ rest ↦ handle_file_event-Wraps event _ w ]
  step-Wraps (takes_edit now) m w =
      elim m.edits
        as (λ l.
          Wraps
            (elim l [ [] ↦ some m | e ∷ rest ↦ handle_edit now e (record m { edits = rest }) ])) [
              | [] ↦ w
              | e ∷ rest ↦ handle_edit-Wraps now e _ w
            ]
  step-Wraps (receives j) m w = process-Wraps j m w
  step-Wraps ticks m w = chained Wrapped (broadcast_online_users m) _ (online-Wraps m w) (λ k v. v)
  step-Wraps counts m w = stats_tick-Wrapped m w
  step-Wraps (posts_message message) m w = w
  step-Wraps (posts_edit e) m w = w
  step-Wraps (posts_file_event e) m w = w
  step-Wraps (writes r channel) m w = write-Wrapped r channel m w
  step-Wraps (runs now i) m w =
      elim (pick i m.tasks)
        as (λ o. Wraps (elim o [
          | none ↦ some m
          | some (task, rest) ↦ run_task now task (record m { tasks = rest })
        ])) [ none ↦ w | some (task, rest) ↦ run_task-Wraps now task _ w ]
