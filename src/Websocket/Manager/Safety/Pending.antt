-- ===== src/Websocket/Manager/Safety/Pending.antt =====
-- The pending tasks keep the invariant.
use pigeongram_chat.Base.{
  ℕ, ◌≡◌, refl, ◌∙◌, ap, true, not, ◌&&◌, Option, none, some, List, nat_eq, list_eq, if-both,
  Option-cases, inl, inr, is_empty, map,
}
use pigeongram_chat.Base.Text.{Text}
use pigeongram_chat.Base.Result.{Result, ok, err}
use pigeongram_chat.Base.Dict.{lookup, insert}
use pigeongram_chat.Models.{Message, MessageEntity}
use pigeongram_chat.Repository.{DbError}
use pigeongram_chat.Repository.Messages
use pigeongram_chat.Websocket.History.{row_message, history_of}
use pigeongram_chat.Websocket.Manager.{
  Outside, Manager, Metrics, Task, send_history, save_message, update_cache, member,
}
use pigeongram_chat.Websocket.Manager.Deliver.{IsOpen}
use pigeongram_chat.Websocket.Manager.Invariant.{IsValid}
use pigeongram_chat.Websocket.Manager.Invariant.Join.{Continues}
use pigeongram_chat.Websocket.Manager.Invariant.Leave.{member-Holds}
use pigeongram_chat.Websocket.Manager.Tasks.{
  hit_or_miss, counted, from_cache, from_rows, from_database, gather, run_history, saved, run_save,
  run_update_cache, run_task,
}
use pigeongram_chat.Websocket.Manager.Run.{TaskReady}
use pigeongram_chat.Websocket.Manager.Safety.Update.{update-Inv, send_all-IsOpen}

counted-gauges :
    (r : Result Text (Option (List Message))) (k : Metrics)
    → ((counted r k).active_connections ≡ k.active_connections)
      × ((counted r k).online_users ≡ k.online_users)
unfolding counted
counted-gauges (ok (some ms)) k = (refl, refl)
counted-gauges (ok none) k = (refl, refl)
counted-gauges (err e) k = (refl, refl)

module _ {W : Outside} where
  -- A valid state with the same registered clients and the same pending tasks.
  abbrev pub Same : Manager W → Manager W → Type 0
  Same m m' = IsValid m' × (m'.clients ≡ m.clients) × (m'.tasks ≡ m.tasks)

  hit_or_miss-Same :
      (r : Result Text (Option (List Message))) (m : Manager W)
      → IsValid m
      → Same m (hit_or_miss r m).1
  unfolding hit_or_miss
  hit_or_miss-Same (ok (some ms)) m v = (record { inv = v.inv; repo = v.repo }, refl, refl)
  hit_or_miss-Same _ m v = (record { inv = v.inv; repo = v.repo }, refl, refl)

  from_cache-Same : (now : ℕ) (m : Manager W) → IsValid m → Same m (from_cache now m).1
  unfolding from_cache
  from_cache-Same now m v =
      if-both (λ (p : List Message × Manager W). Same m p.1) m.has_cache
        (hit_or_miss-Same (W.cache.get_recent_messages now m.cache).0
          (record m { cache = (W.cache.get_recent_messages now m.cache).1 })
          (record { inv = v.inv; repo = v.repo }))
        (v, refl, refl)

  from_rows-Same :
      (now : ℕ) (r : Result DbError (List MessageEntity)) (m : Manager W)
      → IsValid m
      → Same m (from_rows now r m).1
  unfolding from_rows
  from_rows-Same now (err e) m v = (v, refl, refl)
  from_rows-Same now (ok rows) m v =
      if-both (Same m) (m.has_cache && not (is_empty (map row_message rows)))
        (record { inv = v.inv; repo = v.repo }, refl, refl) (v, refl, refl)

  from_database-Same :
      (now : ℕ) (p : List Message × Manager W) → IsValid p.1 → Same p.1 (from_database now p).1
  unfolding from_database
  from_database-Same now (cached, m) v =
      if-both (λ (p : List Message × Manager W). Same m p.1) (is_empty cached && m.has_msg_repo)
        (from_rows-Same now (Messages.get_recent W.database 100 m.database) m v) (v, refl, refl)

  pub gather-Same : (now : ℕ) (m : Manager W) → IsValid m → Same m (gather now m).1
  unfolding gather
  gather-Same now m v =
      let (v1, s1, t1) = from_cache-Same now m v in
      let (v2, s2, t2) = from_database-Same now (from_cache now m) v1 in (v2, s2 ∙ s1, t2 ∙ t1)

  pub run_history-Same :
      (now r : ℕ) (m : Manager W)
      → IsValid m
      → member r m.clients ≡ true
      → (m' : Manager W) × (run_history now r m ≡ some m') × Same m m'
  unfolding run_history
  run_history-Same now r m v e =
      let (v', same, kept) = gather-Same now m v in
      let held =
        member-Holds (gather now m).1.clients (gather now m).1.heap r v'.inv.opens
          (ap (member r) same ∙ e) in
      elim (Option-cases (lookup r (gather now m).1.heap)) [
        | inl p ↦ absurd (rw p at held)
        | inr (c, p) ↦
            let o : IsOpen c = rw p at held in
            let (c', done, o', named) = send_all-IsOpen (history_of now (gather now m).0) c o in
            (
              record ((gather now m).1) { heap = insert r c' (gather now m).1.heap },
              rw (p, run_history) (rw (done, run_history)),
              (
                record {
                  inv =
                      update-Inv r c c' (gather now m).1.heap p named (λ _. o')
                        (gather now m).1.clients (gather now m).1.online_users _ _ v'.inv;
                  repo = v'.repo;
                },
                same,
                kept,
              ),
            )
      ]

  saved-Same : (r : Result DbError ℕ) (m : Manager W) → IsValid m → Same m (saved r m)
  unfolding saved
  saved-Same (ok id) m v = (record { inv = v.inv; repo = v.repo }, refl, refl)
  saved-Same (err e) m v = (record { inv = v.inv; repo = v.repo }, refl, refl)

  run_save-Same : (message : Message) (m : Manager W) → IsValid m → Same m (run_save message m)
  unfolding run_save
  run_save-Same message m v =
      if-both (Same m) m.has_msg_repo
        (saved-Same (Messages.create W.database message m.database).0
          (record m { database = (Messages.create W.database message m.database).1 })
          (record { inv = v.inv; repo = v.repo }))
        (v, refl, refl)

  run_update_cache-Same :
      (now : ℕ) (message : Message) (m : Manager W)
      → IsValid m
      → Same m (run_update_cache now message m)
  unfolding run_update_cache
  run_update_cache-Same now message m v =
      let (a, b) = counted-gauges (W.cache.get_recent_messages now m.cache).0 m.metrics in
      if-both (Same m) m.has_cache
        (
          record {
            inv = record {
              distinct = v.inv.distinct;
              opens = v.inv.opens;
              active_count = a ∙ v.inv.active_count;
              shown_count = b ∙ v.inv.shown_count;
              listed = v.inv.listed;
              one_entry = v.inv.one_entry;
            };
            repo = v.repo;
          },
          refl,
          refl,
        )
        (v, refl, refl)

  -- A task that is ready comes to its end, and starts no other.
  pub run_task-Same :
      (now : ℕ) (t : Task) (rest : List Task) (m : Manager W)
      → IsValid m
      → TaskReady (some (t, rest)) m
      → (m' : Manager W) × (run_task now t (record m { tasks = rest }) ≡ some m')
        × Same (record m { tasks = rest }) m'
  unfolding run_task
  run_task-Same now (send_history r) rest m v e =
      run_history-Same now r _ (record { inv = v.inv; repo = v.repo }) e
  run_task-Same now (save_message message) rest m v e =
      (_, refl, run_save-Same message _ (record { inv = v.inv; repo = v.repo }))
  run_task-Same now (update_cache message) rest m v e =
      (_, refl, run_update_cache-Same now message _ (record { inv = v.inv; repo = v.repo }))

  pub run_task-IsValid :
      (now : ℕ) (t : Task) (rest : List Task) (m : Manager W)
      → IsValid m
      → TaskReady (some (t, rest)) m
      → Continues (run_task now t (record m { tasks = rest }))
  run_task-IsValid now t rest m v e =
      let (m', done, same) = run_task-Same now t rest m v e in (m', done, same.0)
