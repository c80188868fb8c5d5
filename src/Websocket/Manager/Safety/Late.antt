-- ===== src/Websocket/Manager/Safety/Late.antt =====
-- The one event that makes the manager panic: a history for a client that has left.
use pigeongram_chat.Base.{
  ℕ, ◌≡◌, sym, ◌∙◌, subst, Bool, true, false, not, Option, none, some, List, nat_eq, Bool-cases,
  inl, inr, arith,
}
use mathlib.Core.Option.{some-injective}
use pigeongram_chat.Base.Dict.{lookup}
use pigeongram_chat.Websocket.Client.{Client}
use pigeongram_chat.Websocket.History.{history_of}
use pigeongram_chat.Websocket.Manager.{
  Outside, Manager, Task, send_history, save_message, update_cache, member,
}
use pigeongram_chat.Websocket.Manager.Deliver.{IsOpen}
use pigeongram_chat.Websocket.Manager.Invariant.{IsValid}
use pigeongram_chat.Websocket.Manager.Passing.{Passes, goes_on}
use pigeongram_chat.Websocket.Manager.Tasks.{send_all, gather, run_history, run_task}
use pigeongram_chat.Websocket.Manager.Safety.{step-IsValid}
use pigeongram_chat.Websocket.Manager.Safety.Update.{
  update-Inv, send_all_keeps_name, send_all-IsOpen,
}
use pigeongram_chat.Websocket.Manager.Safety.Pending.{gather-Same}
use pigeongram_chat.Websocket.Manager.Run.{
  Event, connects, leaves, runs, pick, step, Ready, TaskReady,
}

late_task : Option (Task × List Task) → List ℕ → Bool
late_task (some (send_history r, rest)) clients = not (member r clients)
late_task _ clients = false

module _ {W : Outside} where
  -- Whether an event runs a history for a client that is not registered.
  unfoldable pub is_late : Event → Manager W → Bool
  unfolding late_task
  is_late (runs now i) m = late_task (pick i m.tasks) m.clients
  is_late _ m = false

  -- When an event may happen: a new client has a new address, and a client that leaves exists.
  abbrev pub Possible : Event → Manager W → Type 0
  Possible (connects r now username) m = lookup r m.heap ≡ none
  Possible (leaves r) m = (c : Client) × (lookup r m.heap ≡ some c)
  Possible _ m = Unit {0}

  task-Ready :
      (o : Option (Task × List Task)) (m : Manager W)
      → late_task o m.clients ≡ false
      → TaskReady o m
  unfolding late_task
  task-Ready none m e = tt
  task-Ready (some (send_history r, rest)) m e = ground (arith, e)
  task-Ready (some (save_message message, rest)) m e = tt
  task-Ready (some (update_cache message, rest)) m e = tt

  pub Possible-Ready : (e : Event) (m : Manager W) → Possible e m → is_late e m ≡ false → Ready e m
  unfolding is_late
  Possible-Ready (connects r now username) m p l = p
  Possible-Ready (leaves r) m p l = p
  Possible-Ready (runs now i) m p l = task-Ready (pick i m.tasks) m l
  Possible-Ready _ m p l = tt

  -- A history that does not panic leaves a valid state, whoever it is for.
  history-Passes : (now r : ℕ) (m : Manager W) → IsValid m → Passes IsValid (run_history now r m)
  unfolding run_history
  history-Passes now r m v =
      let v' = (gather-Same now m v).0 in
      goes_on IsValid (lookup r (gather now m).1.heap) _ (λ c l.
        goes_on IsValid (send_all (history_of now (gather now m).0) c) _ (λ c' e. record {
          inv =
              update-Inv r c c' (gather now m).1.heap l
                (send_all_keeps_name (history_of now (gather now m).0) c c' e)
                (λ o.
                  let (d, done, open_d, named) =
                    send_all-IsOpen (history_of now (gather now m).0) c o in
                  subst IsOpen (some-injective d c' (sym done ∙ e)) open_d)
                (gather now m).1.clients (gather now m).1.online_users _ _ v'.inv;
          repo = v'.repo;
        }))

  task-Passes :
      (now : ℕ) (o : Option (Task × List Task)) (m : Manager W)
      → late_task o m.clients ≡ true
      → IsValid m
      → Passes IsValid (elim o [
        | none ↦ some m
        | some (task, rest) ↦ run_task now task (record m { tasks = rest })
      ])
  unfolding late_task run_task
  task-Passes now none m e v = v
  task-Passes now (some (send_history r, rest)) m e v =
      history-Passes now r (record m { tasks = rest }) (record { inv = v.inv; repo = v.repo })
  task-Passes now (some (save_message message, rest)) m e v = cc
  task-Passes now (some (update_cache message, rest)) m e v = cc

  late-Passes :
      (e : Event) (m : Manager W) → is_late e m ≡ true → IsValid m → Passes IsValid (step e m)
  unfolding is_late step
  late-Passes (runs now i) m l v = task-Passes now (pick i m.tasks) m l v
  late-Passes _ m l v = cc

  -- Whatever event happens, if it does not panic, the state after it is valid.
  pub step-Passes :
      (e : Event) (m : Manager W) → IsValid m → Possible e m → Passes IsValid (step e m)
  step-Passes e m v p = elim (Bool-cases (is_late e m)) [
    | inl l ↦ late-Passes e m l v
    | inr l ↦
        let (m', done, v') = step-IsValid e m v (Possible-Ready e m p l) in
        subst (Passes IsValid) (sym done) v'
  ]
