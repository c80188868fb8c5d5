-- ===== src/Server/Handling/Answered.antt =====
-- Every request gets an answer, and the program goes on.
use pigeongram_chat.Base.{
  ◌≡◌, refl, inl, inr, Bool, true, false, not, ◌&&◌, ◌||◌, ◌==◌, nat_eq, list_eq, list_beq, all,
  arith, ap, if◌then◌else◌,
}
use pigeongram_chat.Base.Text.{Text, bytes}
use pigeongram_chat.Websocket.Manager.Invariant.{IsValid}
use pigeongram_chat.Server.{Handler, routes_for}
use pigeongram_chat.Server.Mux.{Target, serves, moves_to, not_found, ends_in_slash, route}
use pigeongram_chat.Server.Mux.Routed.{route-all}
use pigeongram_chat.Server.App.{Surroundings, App, Request, Chances, panics}
use pigeongram_chat.Server.Handling.{Outcome, handle_at, dispatch, lost, passes, serve}
use pigeongram_chat.Server.Handling.Steady.{is_panic, may_panic, GoesOn, IsFresh, handle-GoesOn}

abbrev asks_upload : Text → Bool
asks_upload path = path == bytes "/api/files/upload-url"

abbrev is_calm : Text × Handler → Bool
is_calm (path, h) = not (may_panic h) || asks_upload path && not (ends_in_slash path)

all_calm : (m d : Bool) → all is_calm (routes_for m d) ≡ true
unfolding all may_panic ends_in_slash routes_for list_beq
all_calm true true = refl
all_calm true false = refl
all_calm false true = refl
all_calm false false = refl

route-calm :
    (m d : Bool) (path : Text) (h : Handler)
    → route (routes_for m d) path ≡ serves h
    → (not (may_panic h) || asks_upload path) ≡ true
route-calm m d path h e = elim (route-all is_calm path (routes_for m d) h (all_calm m d) e) [
  | inl held ↦ ground (arith, held)
  | inr (p, held, slash) ↦ ground (arith, held, slash)
]

module _ {E : Surroundings} where
  GoesOn-mono : (b b' : Bool) (o : Outcome E) → (not b || b') ≡ true → GoesOn b o → GoesOn b' o
  GoesOn-mono b b' o e (answer, a, done, calm, v) = (answer, a, done, ground (arith, e, calm), v)

  handle_at-GoesOn :
      (t : Target) (b : Bool) (r : Request) (c : Chances) (a : App E)
      → ((h : Handler) → t ≡ serves h → (not (may_panic h) || b) ≡ true)
      → IsValid a.manager
      → IsFresh c a
      → GoesOn b (handle_at t r c a)
  unfolding handle_at is_panic
  handle_at-GoesOn (serves h) b r c a k v fresh =
      GoesOn-mono (may_panic h) b _ (k h refl) (handle-GoesOn h r c a v fresh)
  handle_at-GoesOn (moves_to path) b r c a k v fresh = (_, a, refl, refl, v)
  handle_at-GoesOn not_found b r c a k v fresh = (_, a, refl, refl, v)

  lost-GoesOn :
      (b counted : Bool) (o : Outcome E)
      → GoesOn b o
      → GoesOn (b || not counted) (if counted then o else lost o)
  unfolding lost is_panic
  lost-GoesOn b true o (answer, a, done, calm, v) = (answer, a, done, ground (arith, calm), v)
  lost-GoesOn b false o (answer, a, done, calm, v) = (panics, a, ap lost done, ground arith, v)

  -- In a valid state any request for any path, with a new address for a new client, is answered, and the
  -- state after it is valid; only a request for "/api/files/upload-url", or for a path other than "/ws"
  -- that is no value for a label of Prometheus, may be lost to a panic instead.
  pub serve-GoesOn :
      (m d : Bool) (path : Text) (r : Request) (c : Chances) (a : App E)
      → IsValid a.manager
      → IsFresh c a
      → GoesOn
          (path == bytes "/api/files/upload-url" || not (passes E path))
          (serve (routes_for m d) path r c a)
  unfolding serve dispatch
  serve-GoesOn m d path r c a v fresh =
      lost-GoesOn (asks_upload path) (passes E path) (handle_at (route (routes_for m d) path) r c a)
        (handle_at-GoesOn (route (routes_for m d) path) (asks_upload path) r c a
          (λ h e. route-calm m d path h e) v fresh)
