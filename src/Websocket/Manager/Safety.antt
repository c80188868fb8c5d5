-- ===== src/Websocket/Manager/Safety.antt =====
-- No event that is ready makes the manager panic.
pub mod Update
pub mod Pending
pub mod Handlers
pub mod Late
use pigeongram_chat.Base.{
  ℕ, zero, suc, ◌≡◌, refl, sym, ◌∙◌, subst, Bool, true, false, Option, none, some, List, [], ◌∷◌,
  Option-cases, inl, inr,
}
use mathlib.Core.Option.{some-injective}
use pigeongram_chat.Base.Text.{Text}
use pigeongram_chat.Websocket.Manager.{Outside, Manager, Task}
use pigeongram_chat.Websocket.Manager.Invariant.{Inv, IsValid}
use pigeongram_chat.Websocket.Manager.Invariant.Join.{Continues}
use pigeongram_chat.Websocket.Manager.Invariant.Leave.{unregister-IsValid}
use pigeongram_chat.Websocket.Manager.Cases.{handle_message, handle_file_event, handle_edit}
use pigeongram_chat.Websocket.Manager.Run.{
  Event, connects, leaves, takes_message, takes_file_event, takes_edit, receives, ticks, counts,
  posts_message, posts_edit, posts_file_event, writes, runs, pick, step, Ready, TaskReady, Reaches,
  here, next, new_manager,
}
use pigeongram_chat.Websocket.Manager.Safety.Pending.{run_task-IsValid}
use pigeongram_chat.Websocket.Manager.Safety.Handlers.{
  handle_message-IsValid, handle_file_event-IsValid, handle_edit-IsValid,
  process_redis_message-IsValid, online_tick-IsValid, stats_tick-IsValid, write-IsValid,
  connect-IsValid,
}

module _ {W : Outside} where
  -- In a valid state an event that is ready is handled without a panic, and the state after it is valid.
  pub step-IsValid : (e : Event) (m : Manager W) → IsValid m → Ready e m → Continues (step e m)
  unfolding step
  step-IsValid (connects r now username) m v k = connect-IsValid r now username m v k
  step-IsValid (leaves r) m v (c, k) =
      let (m', done, v', gone) = unregister-IsValid r c m v k in (m', done, v')
  step-IsValid (takes_message now) m v k =
      elim m.broadcast
        as (λ l. Continues (elim l [
          | [] ↦ some m
          | message ∷ rest ↦ handle_message now message (record m { broadcast = rest })
        ])) [
          | [] ↦ (m, refl, v)
          | message ∷ rest ↦
              handle_message-IsValid now message _ (record { inv = v.inv; repo = v.repo })
        ]
  step-IsValid takes_file_event m v k =
      elim m.file_events
        as (λ l. Continues (elim l [
          | [] ↦ some m
          | event ∷ rest ↦ handle_file_event event (record m { file_events = rest })
        ])) [
          | [] ↦ (m, refl, v)
          | event ∷ rest ↦ handle_file_event-IsValid event _ (record { inv = v.inv; repo = v.repo })
        ]
  step-IsValid (takes_edit now) m v k =
      elim m.edits
        as (λ l.
          Continues
            (elim l [ [] ↦ some m | e ∷ rest ↦ handle_edit now e (record m { edits = rest }) ])) [
              | [] ↦ (m, refl, v)
              | e ∷ rest ↦ handle_edit-IsValid now e _ (record { inv = v.inv; repo = v.repo })
            ]
  step-IsValid (receives j) m v k = process_redis_message-IsValid j m v
  step-IsValid ticks m v k = online_tick-IsValid m v
  step-IsValid counts m v k = (_, refl, stats_tick-IsValid m v)
  step-IsValid (posts_message message) m v k = (_, refl, record { inv = v.inv; repo = v.repo })
  step-IsValid (posts_edit e) m v k = (_, refl, record { inv = v.inv; repo = v.repo })
  step-IsValid (posts_file_event e) m v k = (_, refl, record { inv = v.inv; repo = v.repo })
  step-IsValid (writes r channel) m v k = (_, refl, write-IsValid r channel m v)
  step-IsValid (runs now i) m v k = elim (Option-cases (pick i m.tasks)) [
    | inl e ↦ (m, rw (e, step), v)
    | inr ((t, rest), e) ↦
        let ready : TaskReady (some (t, rest)) m = rw e at k in
        rw (e, step) (run_task-IsValid now t rest m v ready)
  ]

  -- A manager that has just been made is valid.
  pub new_manager-IsValid :
      (database : W.database.State) (cache : W.cache.State) (has_redis : Bool) (server_id : Text)
      → IsValid (new_manager W database cache has_redis server_id)
  unfolding new_manager
  new_manager-IsValid database cache has_redis server_id = record {
    inv = record {
      distinct = tt;
      opens = tt;
      active_count = refl;
      shown_count = refl;
      listed = tt;
      one_entry = tt;
    };
    repo = refl;
  }

  Reaches-IsValid : {m l : Manager W} → IsValid m → Reaches m l → IsValid l
  Reaches-IsValid v here = v
  Reaches-IsValid v (next e path ready done) =
      let (l, went, valid) = step-IsValid e _ (Reaches-IsValid v path) ready in
      subst IsValid (some-injective _ _ (sym went ∙ done)) valid

  -- From the start of the server, after any events that were ready, in any order: the two gauges show
  -- the true numbers, whoever is listed as online has a registered connection under that name, no
  -- channel of a registered client is closed or holds more than its capacity, and any event that is
  -- ready then is handled without a panic, with a state after it of which the same is true. Events are
  -- ready if a new connection has a new address, a client that leaves exists, and a history is sent only
  -- to a client that is still registered.
  new_manager-runs :
      (database : W.database.State) (cache : W.cache.State) (has_redis : Bool) (server_id : Text)
      (m : Manager W)
      → Reaches (new_manager W database cache has_redis server_id) m
      → (e : Event) → Ready e m
      → IsValid m × Continues (step e m)
  new_manager-runs database cache has_redis server_id m path e ready =
      let v = Reaches-IsValid (new_manager-IsValid database cache has_redis server_id) path in
      (v, step-IsValid e m v ready)
