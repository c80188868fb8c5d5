-- ===== src/Websocket/Authors/Steps.antt =====
-- Tasks and events keep the names.
use pigeongram_chat.Base.{
  ℕ, not, ◌&&◌, Option, none, some, List, if-both, is_empty, map, nat_eq, refl, sym, ◌≡◌, subst,
  Option-cases, inl, inr, All,
}
use pigeongram_chat.Base.Text.{Text}
use pigeongram_chat.Base.Result.{Result, ok, err}
use pigeongram_chat.Base.Dict.{lookup, insert}
use pigeongram_chat.Models.{Message, MessageEntity}
use pigeongram_chat.Json.Structs.{EditRequest}
use pigeongram_chat.Repository.{DbError}
use pigeongram_chat.Websocket.Channels.{All-offer}
use pigeongram_chat.Websocket.Client.{Client, Channel, new_client}
use pigeongram_chat.Websocket.Client.Writes.{List-cases}
use pigeongram_chat.Websocket.History.{row_message, history_of}
use pigeongram_chat.Websocket.Manager.{
  Outside, Manager, Task, send_history, save_message, update_cache, broadcast_online_users,
}
use pigeongram_chat.Websocket.Manager.Cases.{online_tick, stats_tick}
use pigeongram_chat.Websocket.Manager.Tasks.{
  send_all, gather, from_cache, from_database, from_rows, hit_or_miss, run_history, saved, run_save,
  run_update_cache, run_task,
}
use pigeongram_chat.Websocket.Manager.Safety.Update.{send_all_keeps_name, write_round-username}
use pigeongram_chat.Websocket.Manager.Run.{
  Event, connects, leaves, takes_message, takes_file_event, takes_edit, receives, ticks, counts,
  posts_message, posts_edit, posts_file_event, writes, runs, pick, step, connect, write,
}
use pigeongram_chat.Websocket.Manager.Passing.{goes_on, chained}
use pigeongram_chat.Websocket.Authors.{lookup-Owned, insert-Owned, NamedEvent, Named}
use pigeongram_chat.Websocket.Authors.Cases.{
  Names, same_queues, online-Names, register-Names, unregister-Names, handle_message-Names,
  handle_file_event-Names, handle_edit-Names, process-Names,
}

module _ (N : Text → Type 0) {W : Outside} where
  hit_or_miss-Named :
      (r : Result Text (Option (List Message))) (m : Manager W)
      → Named N m
      → Named N (hit_or_miss r m).1
  unfolding hit_or_miss
  hit_or_miss-Named (ok (some ms)) m v = same_queues N m _ refl refl refl v
  hit_or_miss-Named (ok none) m v = same_queues N m _ refl refl refl v
  hit_or_miss-Named (err e) m v = same_queues N m _ refl refl refl v

  from_rows-Named :
      (now : ℕ) (r : Result DbError (List MessageEntity)) (m : Manager W)
      → Named N m
      → Named N (from_rows now r m).1
  unfolding from_rows
  from_rows-Named now (err e) m v = v
  from_rows-Named now (ok rows) m v =
      if-both (Named N) (m.has_cache && not (is_empty (map row_message rows)))
        (same_queues N m _ refl refl refl v) v

  gather-Named : (now : ℕ) (m : Manager W) → Named N m → Named N (gather now m).1
  unfolding gather from_cache from_database
  gather-Named now m v =
      let P : List Message × Manager W → Type 0 = λ p. Named N p.1 in
      let cached : P (from_cache now m) =
        if-both P m.has_cache (hit_or_miss-Named _ _ (same_queues N m _ refl refl refl v)) v in
      if-both P (is_empty (from_cache now m).0 && (from_cache now m).1.has_msg_repo)
        (from_rows-Named now _ (from_cache now m).1 cached) cached

  -- Another client of the same name at an address.
  with_client :
      (r : ℕ) (c c' : Client) (m : Manager W)
      → lookup r m.heap ≡ some c
      → c'.username ≡ c.username
      → Named N m
      → Named N (record m { heap = insert r c' m.heap })
  with_client r c c' m l name v = record {
    owned =
        insert-Owned N r c' m.heap (subst N (sym name) (lookup-Owned N r c m.heap v.owned l))
          v.owned;
    spoken = v.spoken;
    edited = v.edited;
  }

  run_history-Names : (now r : ℕ) (m : Manager W) → Named N m → Names N (run_history now r m)
  unfolding run_history
  run_history-Names now r m v = goes_on (Named N) (lookup r (gather now m).1.heap) _ (λ c l.
      goes_on (Named N) (send_all (history_of now (gather now m).0) c) _ (λ c' e.
        with_client r c c' (gather now m).1 l
          (send_all_keeps_name (history_of now (gather now m).0) c c' e) (gather-Named now m v)))

  saved-Named : (r : Result DbError ℕ) (m : Manager W) → Named N m → Named N (saved r m)
  unfolding saved
  saved-Named (err e) m v = same_queues N m _ refl refl refl v
  saved-Named (ok id) m v = same_queues N m _ refl refl refl v

  run_task-Names : (now : ℕ) (t : Task) (m : Manager W) → Named N m → Names N (run_task now t m)
  unfolding run_task run_save run_update_cache
  run_task-Names now (send_history r) m v = run_history-Names now r m v
  run_task-Names now (save_message message) m v =
      if-both (Named N) m.has_msg_repo (saved-Named _ _ (same_queues N m _ refl refl refl v)) v
  run_task-Names now (update_cache message) m v =
      if-both (Named N) m.has_cache (same_queues N m _ refl refl refl v) v

  stats_tick-Named : (m : Manager W) → Named N m → Named N (stats_tick m)
  unfolding stats_tick
  stats_tick-Named m v =
      if-both (Named N) (m.has_msg_repo && m.has_user_repo) (same_queues N m _ refl refl refl v) v

  write-Named :
      (r : ℕ) (channel : Channel) (m : Manager W) → Named N m → Named N (write r channel m)
  unfolding write
  write-Named r channel m v = elim (Option-cases (lookup r m.heap)) [
    | inl e ↦ rw (e, write) v
    | inr (c, e) ↦ rw (e, write) (with_client r c _ m e (write_round-username channel c) v)
  ]

  -- An event keeps the names, if it brings none without the property.
  pub step-Names : (e : Event) (m : Manager W) → NamedEvent N e → Named N m → Names N (step e m)
  unfolding step connect new_client online_tick
  step-Names (connects r now username) m n v = register-Names N r _ (record {
    owned = insert-Owned N r (new_client now username) m.heap n v.owned;
    spoken = v.spoken;
    edited = v.edited;
  })
  step-Names (leaves r) m n v = unregister-Names N r m v
  step-Names (takes_message now) m n v = elim (List-cases m.broadcast) [
    | inl e ↦ rw (e, step) v
    | inr (message, rest, e) ↦
        rw (e, step)
          (handle_message-Names N now message _ (record {
            owned = v.owned;
            spoken = (subst (λ q. All (λ (k : Message). N k.username) q) e v.spoken).1;
            edited = v.edited;
          }))
  ]
  step-Names takes_file_event m n v = elim (List-cases m.file_events) [
    | inl e ↦ rw (e, step) v
    | inr (event, rest, e) ↦
        rw (e, step) (handle_file_event-Names N event _ (same_queues N m _ refl refl refl v))
  ]
  step-Names (takes_edit now) m n v = elim (List-cases m.edits) [
    | inl e ↦ rw (e, step) v
    | inr (x, rest, e) ↦
        rw (e, step)
          (handle_edit-Names N now x _ (record {
            owned = v.owned;
            spoken = v.spoken;
            edited = (subst (λ q. All (λ (k : EditRequest). N k.username) q) e v.edited).1;
          }))
  ]
  step-Names (receives j) m n v = process-Names N j m v
  step-Names ticks m n v =
      chained (Named N) (broadcast_online_users m) _ (online-Names N m v)
        (λ k w. same_queues N k _ refl refl refl w)
  step-Names counts m n v = stats_tick-Named m v
  step-Names (posts_message message) m n v = record {
    owned = v.owned;
    spoken = All-offer (λ (k : Message). N k.username) 100 message m.broadcast v.spoken n;
    edited = v.edited;
  }
  step-Names (posts_edit e) m n v = record {
    owned = v.owned;
    spoken = v.spoken;
    edited = All-offer (λ (k : EditRequest). N k.username) 100 e m.edits v.edited n;
  }
  step-Names (posts_file_event e) m n v = same_queues N m _ refl refl refl v
  step-Names (writes r channel) m n v = write-Named r channel m v
  step-Names (runs now i) m n v = elim (Option-cases (pick i m.tasks)) [
    | inl e ↦ rw (e, step) v
    | inr ((task, rest), e) ↦
        rw (e, step) (run_task-Names now task _ (same_queues N m _ refl refl refl v))
  ]
