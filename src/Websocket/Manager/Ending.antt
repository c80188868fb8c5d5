-- ===== src/Websocket/Manager/Ending.antt =====
-- The goroutines that the manager starts come to their end.
use pigeongram_chat.Base.{
  ℕ, zero, suc, ◌-◌, ◌<◌, ◌≡◌, refl, sym, ◌∙◌, ap, subst, Bool, true, false, ◌&&◌, some, List, [],
  ◌∷◌, ◌==◌, nat_eq, ltb, ltb→lt, length, map, All, arith,
}
use pigeongram_chat.Websocket.Manager.{
  Outside, Manager, Task, send_history, save_message, update_cache, member,
}
use pigeongram_chat.Websocket.Manager.Invariant.{IsValid}
use pigeongram_chat.Websocket.Manager.Run.{Event, runs, pick, step, run, TaskReady}
use pigeongram_chat.Websocket.Manager.Safety.Pending.{run_task-Same}

-- A history is sent to a registered client.
abbrev pub CanRun : List ℕ → Task → Type 0
CanRun clients (send_history r) = member r clients ≡ true
CanRun clients _ = Unit {0}

-- An order of `n` pending tasks: each choice, with its time, is among those that are left.
abbrev pub is_order : ℕ → List (ℕ × ℕ) → Bool
is_order n [] = n == 0
is_order n ((now, i) ∷ choices) = ltb i n && is_order (n - 1) choices

abbrev pub run_in : List (ℕ × ℕ) → List Event
run_in choices = map (λ (now, i). runs now i) choices

pick-All :
    (P : Task → Type 0) (i : ℕ) (ts : List Task)
    → i < length ts
    → All P ts
    → (t : Task) × (rest : List Task) × (pick i ts ≡ some (t, rest))
      × P t
      × All P rest
      × (length rest ≡ length ts - 1)
unfolding pick
pick-All P i [] h a = absurd (omega (arith, h))
pick-All P zero (t ∷ ts) h a = (t, ts, refl, a.0, a.1, omega arith)
pick-All P (suc i) (t ∷ ts) h a =
    let (u, rest, e, p, q, l) = pick-All P i ts (omega (arith, h)) a.1 in
    (u, t ∷ rest, rw (e, pick) refl, p, (a.0, q), omega (arith, l, h))

no_tasks : (ts : List Task) → is_order (length ts) [] ≡ true → ts ≡ []
no_tasks [] h = refl
no_tasks (t ∷ ts) h = ground (arith, h)

and_both : (a b : Bool) → (a && b) ≡ true → (a ≡ true) × (b ≡ true)
and_both true b h = (refl, h)
and_both false b h = cc

module _ {W : Outside} where
  ready_task :
      (m : Manager W) (t : Task) (rest : List Task)
      → CanRun m.clients t
      → TaskReady (some (t, rest)) m
  ready_task m (send_history r) rest c = c
  ready_task m (save_message message) rest c = tt
  ready_task m (update_cache message) rest c = tt

  -- In a valid state in which the pending histories are for registered clients, all pending tasks run to
  -- their end without a panic, if only they run, in whatever order and at whatever times they are taken,
  -- and then none is pending and the state is valid, with the same registered clients.
  pub run_in-ends :
      (choices : List (ℕ × ℕ)) (m : Manager W)
      → IsValid m
      → All (CanRun m.clients) m.tasks
      → is_order (length m.tasks) choices ≡ true
      → (m' : Manager W) × (run (run_in choices) m ≡ some m')
        × (m'.tasks ≡ [])
        × (m'.clients ≡ m.clients)
        × IsValid m'
  unfolding run step
  run_in-ends [] m v a h = (m, refl, no_tasks m.tasks h, refl, v)
  run_in-ends ((now, i) ∷ choices) m v a h =
      let (there, others) = and_both (ltb i (length m.tasks)) _ h in
      let (t, rest, picked, c, cs, shorter) =
        pick-All (CanRun m.clients) i m.tasks (ltb→lt i (length m.tasks) there) a in
      let (m1, done, same) = run_task-Same now t rest m v (ready_task m t rest c) in
      let (v1, clients, tasks) = same in
      let stepped : step (runs now i) m ≡ some m1 = rw (picked, step) done in
      let (m', went, empty, kept, v') =
        run_in-ends choices m1 v1
          (subst (λ q. All (CanRun q) m1.tasks) (sym clients)
            (subst (All (CanRun m.clients)) (sym tasks) cs))
          (subst (λ k. is_order k choices ≡ true) (sym (ap length tasks ∙ shorter)) others) in
      (m', rw (stepped, run) went, empty, kept ∙ clients, v')
