-- ===== src/Server/Runs.antt =====
-- The whole server at work (cmd/server/main.go): requests and what the goroutines of the manager do, in any
-- order, from the state that `main` starts with.
use pigeongram_chat.Base.{
  ℕ, ◌≡◌, ◌⊎◌, inl, inr, refl, sym, ◌∙◌, subst, ap, Bool, true, false, Option, none, some, List,
  nat_eq, list_eq, Option-cases, Bool-cases,
}
use mathlib.Core.Option.{some-injective, none-ne-some}
use pigeongram_chat.Base.Text.{Text}
use pigeongram_chat.Config.{Env, ℤ}
use pigeongram_chat.Websocket.Manager.Invariant.{IsValid}
use pigeongram_chat.Websocket.Manager.Run.{Event, step, new_manager}
use pigeongram_chat.Websocket.Manager.Passing.{Passes}
use pigeongram_chat.Websocket.Manager.Safety.Late.{is_late, Possible, Possible-Ready, step-Passes}
use pigeongram_chat.Websocket.Manager.Safety.{step-IsValid, new_manager-IsValid}
use pigeongram_chat.Server.{Handler, Flags, Services, Started, started, routes_for}
use pigeongram_chat.Server.App.{Surroundings, App, Request, Chances}
use pigeongram_chat.Server.Handling.{Outcome, serve}
use pigeongram_chat.Server.Handling.Steady.{IsFresh}
use pigeongram_chat.Server.Handling.Answered.{serve-GoesOn}

-- A request for a path, or an event of the manager.
pub data Act : Type 0 where
  asks : Text → Request → Chances → Act
  works : Event → Act

module _ {E : Surroundings} where
  -- The state that `main` starts with.
  unfoldable pub start_app :
      Started → E.outside.database.State → E.outside.cache.State → E.store.State → App E
  unfolding new_manager
  start_app s database cache objects = record {
    manager = new_manager E.outside database cache s.has_redis s.name;
    objects = objects;
    totals = record { files_uploaded = 0; files_size = 0 };
  }

  abbrev after : Outcome E → Option (App E)
  after none = none
  after (some (answer, a)) = some a

  unfoldable pub act : List (Text × Handler) → Act → App E → Option (App E)
  unfolding serve step
  act routes (asks path r c) a = after (serve routes path r c a)
  act routes (works e) a = elim (step e a.manager) [
    | none ↦ none
    | some m ↦ some (record a { manager = m })
  ]

  -- A new client has a new address, and a client that leaves exists.
  abbrev pub ActPossible : Act → App E → Type 0
  ActPossible (asks path r c) a = IsFresh c a
  ActPossible (works e) a = Possible e a.manager

  -- Whether an act runs a history for a client that is not registered.
  unfoldable pub is_late_act : Act → App E → Bool
  unfolding is_late
  is_late_act (asks path r c) a = false
  is_late_act (works e) a = is_late e a.manager

  pub data Comes (routes : List (Text × Handler)) (a : App E) : App E → Type 0 where
    here : Comes routes a a
    next :
        {b d : App E} (x : Act)
        → Comes routes a b
        → ActPossible x b
        → act routes x b ≡ some d
        → Comes routes a d

  -- The next act goes through, and leaves a valid manager.
  abbrev pub Proceeds : Option (App E) → Type 0
  Proceeds o = (a : App E) × (o ≡ some a) × IsValid a.manager

  act-Proceeds :
      (m d : Bool) (x : Act) (a : App E)
      → IsValid a.manager
      → ActPossible x a
      → is_late_act x a ≡ false
      → Proceeds (act (routes_for m d) x a)
  unfolding act is_late_act
  act-Proceeds m d (asks path r c) a v possible late =
      let (answer, a', done, calm, v') = serve-GoesOn m d path r c a v possible in
      (a', ap after done, v')
  act-Proceeds m d (works e) a v possible late =
      let (l, done, v') = step-IsValid e a.manager v (Possible-Ready e a.manager possible late) in
      (record a { manager = l }, rw (done, act) refl, v')

  -- An act that goes through leaves a valid manager.
  act-IsValid :
      (m d : Bool) (x : Act) (a l : App E)
      → IsValid a.manager
      → ActPossible x a
      → act (routes_for m d) x a ≡ some l
      → IsValid l.manager
  unfolding act is_late_act
  act-IsValid m d (asks path r c) a l v possible done =
      let (k, went, valid) = act-Proceeds m d (asks path r c) a v possible refl in
      subst (λ (t : App E). IsValid t.manager) (some-injective _ _ (sym went ∙ done)) valid
  act-IsValid m d (works e) a l v possible done = elim (Option-cases (step e a.manager)) [
    | inl stopped ↦ absurd (none-ne-some _ (rw (stopped, act) at done))
    | inr (k, went) ↦
        subst (λ (t : App E). IsValid t.manager)
          (some-injective (record a { manager = k }) l (rw (went, act) at done))
          (subst (Passes IsValid) went (step-Passes e a.manager v possible))
  ]

  Comes-IsValid :
      (m d : Bool) {a b : App E}
      → IsValid a.manager
      → Comes (routes_for m d) a b
      → IsValid b.manager
  Comes-IsValid m d v here = v
  Comes-IsValid m d v (next x path possible done) =
      act-IsValid m d x _ _ (Comes-IsValid m d v path) possible done

  -- From the state that `main` starts with, whatever flags, environment and services it finds, after any
  -- requests and events of the manager that went through, in any order, in which a new client had a new
  -- address and a client that left was there: the two gauges show the true numbers, whoever is listed
  -- as online has a registered connection under that name, no channel of a registered client is closed
  -- or holds more than its capacity, and the next request or event of that kind goes through without a
  -- panic that ends the program, with a state after it of which the same is true, unless it runs a
  -- history for a client that is not registered.
  pub start-runs :
      (s : Services) (parse : Text → Option ℤ) (f : Flags) (env : Env) (hostname : Text) (now : ℕ)
      (database : E.outside.database.State) (cache : E.outside.cache.State)
      (objects : E.store.State) (a : App E)
      → Comes
          (started s parse f env hostname now).routes
          (start_app (started s parse f env hostname now) database cache objects)
          a
      → (x : Act) → ActPossible x a
      → IsValid a.manager
        × ((is_late_act x a ≡ true)
            ⊎ Proceeds (act (started s parse f env hostname now).routes x a))
  unfolding started start_app
  start-runs s parse f env hostname now database cache objects a path x possible =
      let v = Comes-IsValid _ _ (new_manager-IsValid database cache _ _) path in
      (
        v,
        elim (Bool-cases (is_late_act x a)) [
          | inl late ↦ inl late
          | inr timely ↦ inr (act-Proceeds _ _ x a v possible timely)
        ],
      )
