-- ===== src/Server/Handling/Closed.antt =====
-- What a request gets by its path, if its cookie stands for nobody.
use pigeongram_chat.Base.{
  ◌≡◌, refl, inl, inr, Bool, true, false, not, ◌&&◌, ◌||◌, ◌==◌, nat_eq, list_eq, list_beq, [], all,
  arith, Bool-cases, ◌⊎◌, ap, some, if◌then◌else◌,
}
use pigeongram_chat.Base.Text.{Text, bytes}
use pigeongram_chat.Web.{get_user_from_session}
use pigeongram_chat.Server.{Handler, routes_for}
use pigeongram_chat.Server.Mux.{Target, serves, moves_to, not_found, ends_in_slash, route}
use pigeongram_chat.Server.Mux.Routed.{route-all}
use pigeongram_chat.Server.App.{Surroundings, App, Request, Chances, Response, panics, site}
use pigeongram_chat.Server.Handling.{Outcome, handle_at, dispatch, lost, passes, serve}
use pigeongram_chat.Server.Handling.Strangers.{
  is_account, ForAll, Untouched, TurnedAway, handle-nobody,
}

-- The paths that log in, register or log out.
unfoldable pub is_account_path : Text → Bool
is_account_path path =
    path == bytes "/login" || path == bytes "/register-handler" || path == bytes "/logout"

abbrev is_known : Text × Handler → Bool
is_known (path, h) = not (is_account h) || is_account_path path && not (ends_in_slash path)

all_known : (m d : Bool) → all is_known (routes_for m d) ≡ true
unfolding all is_account is_account_path ends_in_slash routes_for list_beq
all_known true true = refl
all_known true false = refl
all_known false true = refl
all_known false false = refl

route-account :
    (m d : Bool) (path : Text) (h : Handler)
    → is_account_path path ≡ false
    → route (routes_for m d) path ≡ serves h
    → is_account h ≡ false
route-account m d path h other e =
    elim (route-all is_known path (routes_for m d) h (all_known m d) e) [
      | inl held ↦ ground (arith, held, other)
      | inr (p, held, slash) ↦ ground (arith, held, slash)
    ]

module _ {E : Surroundings} where
  handle_at-nobody :
      (t : Target) (r : Request) (c : Chances) (a : App E)
      → ((h : Handler) → t ≡ serves h → is_account h ≡ false)
      → (get_user_from_session c.now r.cookie (site a)).0 ≡ []
      → TurnedAway a (handle_at t r c a)
  unfolding handle_at
  handle_at-nobody (serves h) r c a k nobody = handle-nobody h r c a (k h refl) nobody
  handle_at-nobody (moves_to path) r c a k nobody = (_, a, refl, tt, (a.manager.cache, refl))
  handle_at-nobody not_found r c a k nobody = (_, a, refl, inr refl, (a.manager.cache, refl))

  -- A request is turned away, or if its path is no value for a label, its answer is lost to a panic.
  abbrev pub TurnedAwayOrLost : Text → App E → Outcome E → Type 0
  TurnedAwayOrLost path a o =
      (answer : Response E.Content) × (a' : App E) × (o ≡ some (answer, a'))
      × (ForAll answer ⊎ ((answer ≡ panics) × (passes E path ≡ false)))
      × Untouched a a'

  lost_or :
      (path : Text) (a : App E) (o : Outcome E)
      → TurnedAway a o
      → TurnedAwayOrLost path a (if passes E path then o else lost o)
  unfolding lost
  lost_or path a o (answer, a', done, all_see, same) = elim (Bool-cases (passes E path)) [
    | inl e ↦ rw e (answer, a', done, inl all_see, same)
    | inr e ↦ rw e (panics, a', ap lost done, inr (refl, refl), same)
  ]

  -- Whatever path a request asks for, other than "/login", "/register-handler" and "/logout", if its
  -- cookie stands for nobody, it gets only a redirect, the page to log in or to register, the status 401
  -- or 404, or what a library's handler answers, or, if its path is not "/ws" and no value for a label of
  -- Prometheus, nothing, and it changes nothing but the cache.
  pub serve-nobody :
      (m d : Bool) (path : Text) (r : Request) (c : Chances) (a : App E)
      → is_account_path path ≡ false
      → (get_user_from_session c.now r.cookie (site a)).0 ≡ []
      → TurnedAwayOrLost path a (serve (routes_for m d) path r c a)
  unfolding serve dispatch
  serve-nobody m d path r c a other nobody =
      lost_or path a (handle_at (route (routes_for m d) path) r c a) (
        handle_at-nobody (route (routes_for m d) path) r c a
          (λ h e. route-account m d path h other e) nobody)
