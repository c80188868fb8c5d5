-- ===== src/Server/Handling/Joined.antt =====
-- Who gets a websocket (web/websocket.go behind `AuthMiddleware`).
use pigeongram_chat.Base.{
  ℕ, ◌≡◌, refl, sym, ◌∙◌, ap, subst, Bool, true, false, some, [], ◌∷◌, ◌==◌, nat_eq, list_eq,
  list_beq, list_beq_iff, if-unheld, Option-cases, Bool-cases, inl, inr, arith, is_empty, All,
  beq_refl, length,
}
use pigeongram_chat.Base.Text.{Text, bytes}
use pigeongram_chat.Base.Dict
use pigeongram_chat.Base.Dict.{Dict, lookup, insert, lookup-insert}
use pigeongram_chat.Websocket.Client.{Client, new_client}
use pigeongram_chat.Websocket.Manager.{
  Outside, Manager, member, deliver, send_online, broadcast_online_users, joined, register,
}
use pigeongram_chat.Websocket.Manager.Invariant.{IsValid, Listed, Owner}
use pigeongram_chat.Websocket.Manager.Run.{connect}
use pigeongram_chat.Websocket.Manager.Safety.Handlers.{connect-IsValid}
use pigeongram_chat.Web.{get_user_from_session, auth_middleware}
use pigeongram_chat.Web.Sockets
use pigeongram_chat.Server.{Handler, routes_for}
use pigeongram_chat.Server.Mux.{serves, route}
use pigeongram_chat.Server.App.{Surroundings, App, Request, Chances, Response, site, with_site}
use pigeongram_chat.Server.Handling.{
  Outcome, with_user, handle_user, handle, handle_at, dispatch, serve,
}
use pigeongram_chat.Server.Handling.Steady.{IsFresh}

lookup-All :
    (P : Text × ℕ → Type 0) (u : Text) (r : ℕ) (d : Dict Text ℕ)
    → All P d
    → lookup u d ≡ some r
    → P (u, r)
unfolding lookup
lookup-All P u r [] h e = cc
lookup-All P u r ((v, q) ∷ d) h e = elim (Bool-cases (v == u)) [
  | inl hit ↦
      let name : v ≡ u = (list_beq_iff v u).0 hit in
      let place : q ≡ r = ground (arith, e, hit) in
      subst (λ n. P (u, n)) place (subst (λ t. P (t, q)) name h.0)
  | inr miss ↦ lookup-All P u r d h.1 (ground (arith, e, miss))
]

module _ {W : Outside} where
  broadcast-online :
      (m l : Manager W) → broadcast_online_users m ≡ some l → l.online_users ≡ m.online_users
  unfolding broadcast_online_users
  broadcast-online m l done =
      elim (Option-cases (
        deliver
          (send_online (record {
            count = length (Dict.keys m.online_users);
            users = Dict.keys m.online_users;
          }))
          m.clients m.heap)) [
            | inl e ↦ absurd (ground (arith, done, e))
            | inr ((h, n), e) ↦ ground (arith, done, e)
          ]

  register-online :
      (r : ℕ) (c : Client) (m l : Manager W)
      → lookup r m.heap ≡ some c
      → register r m ≡ some l
      → lookup c.username l.online_users ≡ some r
  unfolding register joined
  register-online r c m l there done = elim (Option-cases (broadcast_online_users (joined r c m))) [
    | inl e ↦ absurd (ground (arith, done, there, e))
    | inr (k, e) ↦
        let told = broadcast-online (joined r c m) k e in
        let same : l.online_users ≡ k.online_users = ground (arith, done, there, e) in
        ap (lookup c.username) (same ∙ told)
        ∙ ground (arith, lookup-insert c.username c.username r m.online_users, beq_refl c.username)
  ]

  connect-online :
      (r now : ℕ) (u : Text) (m l : Manager W)
      → connect r now u m ≡ some l
      → lookup u l.online_users ≡ some r
  unfolding connect new_client
  connect-online r now u m l done =
      register-online r (new_client now u) (record m { heap = insert r (new_client now u) m.heap })
        l (ground (arith, lookup-insert r r (new_client now u) m.heap, beq_refl r)) done

ws_route :
    (m d : Bool)
    → route (routes_for m d) (bytes "/ws")
      ≡ serves (Handler.auth_middleware Handler.web_socket_handler)
unfolding route routes_for list_beq
ws_route true true = refl
ws_route true false = refl
ws_route false true = refl
ws_route false false = refl

-- The websocket is for the user of the session.
module _ {E : Surroundings} where
  -- The connection of a user is there.
  abbrev pub IsConnected : Text → ℕ → App E → Type 0
  IsConnected u r a =
      (lookup u a.manager.online_users ≡ some r)
      × (member r a.manager.clients ≡ true)
      × Owner u (lookup r a.manager.heap)

  abbrev pub JoinsAs : Text → ℕ → Outcome E → Type 0
  JoinsAs u r o = (a : App E) × (o ≡ some (Response.is_websocket, a)) × IsConnected u r a

  joined-JoinsAs :
      (r : Request) (c : Chances) (u : Text) (a : App E)
      → IsValid a.manager
      → IsFresh c a
      → is_empty u ≡ false
      → c.upgraded ≡ true
      → JoinsAs u c.address (handle_user Handler.web_socket_handler r c u a)
  unfolding handle_user Sockets.web_socket_handler
  joined-JoinsAs r c u a v fresh named up =
      let (m, done, valid) = connect-IsValid c.address c.now u a.manager v fresh in
      let listed = connect-online c.address c.now u a.manager m done in
      let present =
        lookup-All (Listed m.clients m.heap) u c.address m.online_users valid.inv.listed listed in
      (record a { manager = m }, rw (named, up, done), (listed, present.0, present.1))

  -- The state once `AuthMiddleware` has looked the user up.
  abbrev pub looked_up : Request → Chances → App E → App E
  looked_up r c a = with_site (get_user_from_session c.now r.cookie (site a)).1 a

  handle-JoinsAs :
      (r : Request) (c : Chances) (a : App E)
      → IsValid a.manager
      → IsFresh c a
      → c.upgraded ≡ true
      → is_empty (get_user_from_session c.now r.cookie (site a)).0 ≡ false
      → is_empty (get_user_from_session c.now r.cookie (site (looked_up r c a))).0 ≡ false
      → JoinsAs
          (get_user_from_session c.now r.cookie (site (looked_up r c a))).0
          c.address
          (handle (Handler.auth_middleware Handler.web_socket_handler) r c a)
  unfolding handle auth_middleware with_user
  handle-JoinsAs r c a v fresh up known again =
      let a' = looked_up r c a in
      let (u, s) = get_user_from_session c.now r.cookie (site a') in
      if-unheld (JoinsAs u c.address) (is_empty (get_user_from_session c.now r.cookie (site a)).0) _
        known
        (joined-JoinsAs r c u (with_site s a') (record { inv = v.inv; repo = v.repo }) fresh again
          up)

  -- In a valid state, a request for "/ws" whose cookie is good, both for `AuthMiddleware` and again for the
  -- handler, whose connection becomes a websocket and whose client gets a new address, has a registered
  -- client afterwards, under the name that the session stands for, who is listed as online.
  pub serve-JoinsAs :
      (m d : Bool) (r : Request) (c : Chances) (a : App E)
      → IsValid a.manager
      → IsFresh c a
      → c.upgraded ≡ true
      → is_empty (get_user_from_session c.now r.cookie (site a)).0 ≡ false
      → is_empty (get_user_from_session c.now r.cookie (site (looked_up r c a))).0 ≡ false
      → JoinsAs
          (get_user_from_session c.now r.cookie (site (looked_up r c a))).0
          c.address
          (serve (routes_for m d) (bytes "/ws") r c a)
  unfolding serve dispatch handle_at list_beq
  serve-JoinsAs m d r c a v fresh up known again =
      subst
        (λ t.
          JoinsAs (get_user_from_session c.now r.cookie (site (looked_up r c a))).0 c.address
            (handle_at t r c a))
        (sym (ws_route m d)) (handle-JoinsAs r c a v fresh up known again)
