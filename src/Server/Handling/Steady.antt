-- ===== src/Server/Handling/Steady.antt =====
-- The handlers keep the manager valid.
use pigeongram_chat.Base.{
  ◌≡◌, refl, inl, inr, Bool, true, false, not, ◌||◌, none, some, if-both, Option-cases, Bool-cases,
  is_empty, nat_eq,
}
use pigeongram_chat.Base.Text.{Text}
use pigeongram_chat.Base.Dict.{lookup}
use pigeongram_chat.Web.{get_user_from_session, auth_middleware}
use pigeongram_chat.Web.Files.{Answer, status, body}
use pigeongram_chat.Web.Uploads
use pigeongram_chat.Web.Sockets
use pigeongram_chat.Web.Debug.Notices
use pigeongram_chat.Web.Debug.Notices.Tried.{debug_send_test_event-IsValid}
use pigeongram_chat.Websocket.Manager.{Manager}
use pigeongram_chat.Websocket.Manager.Invariant.{IsValid}
use pigeongram_chat.Websocket.Manager.Safety.Handlers.{connect-IsValid}
use pigeongram_chat.Server.{Handler}
use pigeongram_chat.Server.App.{
  Surroundings, App, Request, Chances, Body, Response, panics, site, with_site,
}
use pigeongram_chat.Server.Handling.{Outcome, of_answer, with_user, handle_user, handle}

unfoldable pub is_panic : {O : Type 0} → Response O → Bool
is_panic panics = true
is_panic answer = false

-- The one handler whose code can panic, where it cuts a name.
unfoldable pub may_panic : Handler → Bool
may_panic Handler.request_upload = true
may_panic (Handler.auth_middleware h) = may_panic h
may_panic h = false

of_answer-calm :
    {B O : Type 0} (f : B → Body O) (x : Answer B) (b : Bool)
    → (not (is_panic (of_answer f x)) || b) ≡ true
unfolding is_panic
of_answer-calm f (status n) b = refl
of_answer-calm f (body x) b = refl

module _ {E : Surroundings} where
  -- The program goes on, with a valid manager; only if the test says so may the request be lost to a
  -- panic.
  abbrev pub GoesOn : Bool → Outcome E → Type 0
  GoesOn b o =
      (answer : Response E.Content) × (a : App E) × (o ≡ some (answer, a))
      × ((not (is_panic answer) || b) ≡ true)
      × IsValid a.manager

  -- A new client gets an address at which there is none.
  abbrev pub IsFresh : Chances → App E → Type 0
  IsFresh c a = lookup c.address a.manager.heap ≡ none

  module _ (r : Request) (c : Chances) (u : Text) (a : App E) (v : IsValid a.manager) where
    web_socket-GoesOn : IsFresh c a → GoesOn false (handle_user Handler.web_socket_handler r c u a)
    unfolding handle_user is_panic Sockets.web_socket_handler
    web_socket-GoesOn k = elim (Bool-cases (is_empty u)) [
      | inl e ↦ rw (e, Sockets.web_socket_handler) (_, a, refl, refl, v)
      | inr e ↦ elim (Bool-cases c.upgraded) [
        | inr f ↦ rw (e, f, Sockets.web_socket_handler) (_, a, refl, refl, v)
        | inl f ↦
            let (m, done, valid) = connect-IsValid c.address c.now u a.manager v k in
            (Response.is_websocket, record a { manager = m }, rw (e, f, done), refl, valid)
      ]
    ]

    request_upload-GoesOn : GoesOn true (handle_user Handler.request_upload r c u a)
    unfolding handle_user is_panic
    request_upload-GoesOn =
        elim (Option-cases
          (Uploads.request_upload E.signer E.client c.now c.later u r.chat_id r.filename)) [
            | inl e ↦ (panics, a, rw (e, handle_user), refl, v)
            | inr (x, e) ↦
                (of_answer Body.upload_form x, a, rw (e, handle_user), of_answer-calm _ x true, v)
          ]

    send_to_user-GoesOn : GoesOn false (handle_user Handler.debug_send_test_event r c u a)
    unfolding handle_user
    send_to_user-GoesOn =
        let (x, m, done, valid) =
          debug_send_test_event-IsValid c.now u r.user r.chat_id a.manager v in
        (
          of_answer Body.sent x,
          record a { manager = m },
          rw (done, handle_user),
          of_answer-calm _ x false,
          valid,
        )

    test_notify-GoesOn : GoesOn false (handle_user Handler.test_file_notification r c u a)
    unfolding handle_user Notices.test_file_notification is_panic
    test_notify-GoesOn =
        if-both
          (λ (p : Answer (Text × Text) × Manager E.outside). GoesOn false (
            some (
              of_answer (λ (chat, name). Body.notified chat name) p.0,
              record a { manager = p.1 },
            )))
          (is_empty u) (_, _, refl, refl, v)
          (_, _, refl, refl, record { inv = v.inv; repo = v.repo })

    -- An answer with an unchanged manager.
    answered-GoesOn :
        {B : Type 0} (f : B → Body E.Content) (x : Answer B) (a' : App E)
        → IsValid a'.manager
        → GoesOn false (some (of_answer f x, a'))
    answered-GoesOn f x a' w = (_, a', refl, of_answer-calm f x false, w)

    handle_user-GoesOn : (h : Handler) → IsFresh c a → GoesOn (may_panic h) (handle_user h r c u a)
    unfolding handle_user may_panic is_panic
    handle_user-GoesOn Handler.login_page k = (_, _, refl, refl, v)
    handle_user-GoesOn Handler.register_page k = (_, _, refl, refl, v)
    handle_user-GoesOn Handler.chat_page k = (_, _, refl, refl, v)
    handle_user-GoesOn Handler.file_page k = (_, _, refl, refl, v)
    handle_user-GoesOn Handler.login_handler k = (_, _, refl, refl, v)
    handle_user-GoesOn Handler.register_handler k = (_, _, refl, refl, v)
    handle_user-GoesOn Handler.logout_handler k = (_, _, refl, refl, v)
    handle_user-GoesOn Handler.prometheus k = (_, _, refl, refl, v)
    handle_user-GoesOn Handler.static_files k = (_, _, refl, refl, v)
    handle_user-GoesOn (Handler.auth_middleware h) k = (_, _, refl, refl, v)
    handle_user-GoesOn Handler.web_socket_handler k = web_socket-GoesOn k
    handle_user-GoesOn Handler.request_upload k = request_upload-GoesOn
    handle_user-GoesOn Handler.upload_complete k =
        answered-GoesOn _ _ _ (record { inv = v.inv; repo = v.repo })
    handle_user-GoesOn Handler.delete_file k =
        answered-GoesOn _ _ _ (record { inv = v.inv; repo = v.repo })
    handle_user-GoesOn Handler.test_file_notification k = test_notify-GoesOn
    handle_user-GoesOn Handler.debug_send_test_event k = send_to_user-GoesOn
    handle_user-GoesOn Handler.list_files k = answered-GoesOn _ _ a v
    handle_user-GoesOn Handler.get_download_url k = answered-GoesOn _ _ a v
    handle_user-GoesOn Handler.proxy_download k = answered-GoesOn _ _ a v
    handle_user-GoesOn Handler.debug_web_socket k = answered-GoesOn _ _ a v
    handle_user-GoesOn Handler.debug_check_file k = answered-GoesOn _ _ a v
    handle_user-GoesOn Handler.debug_last_messages k = answered-GoesOn _ _ a v
    handle_user-GoesOn Handler.debug_test_minio k = answered-GoesOn _ _ a v
    handle_user-GoesOn Handler.debug_file_exists k = answered-GoesOn _ _ a v

  with_user-GoesOn :
      (h : Handler) (r : Request) (c : Chances) (a : App E)
      → IsValid a.manager
      → IsFresh c a
      → GoesOn (may_panic h) (with_user (handle_user h r c) r c a)
  unfolding with_user
  with_user-GoesOn h r c a v k =
      let (u, s) = get_user_from_session c.now r.cookie (site a) in
      handle_user-GoesOn r c u (with_site s a) (record { inv = v.inv; repo = v.repo }) h k

  pub handle-GoesOn :
      (h : Handler) (r : Request) (c : Chances) (a : App E)
      → IsValid a.manager
      → IsFresh c a
      → GoesOn (may_panic h) (handle h r c a)
  unfolding handle auth_middleware may_panic is_panic
  handle-GoesOn Handler.login_handler r c a v k =
      (_, _, refl, refl, record { inv = v.inv; repo = v.repo })
  handle-GoesOn Handler.register_handler r c a v k =
      (_, _, refl, refl, record { inv = v.inv; repo = v.repo })
  handle-GoesOn Handler.logout_handler r c a v k =
      (_, _, refl, refl, record { inv = v.inv; repo = v.repo })
  handle-GoesOn Handler.prometheus r c a v k = (_, _, refl, refl, v)
  handle-GoesOn Handler.static_files r c a v k = (_, _, refl, refl, v)
  handle-GoesOn (Handler.auth_middleware h) r c a v k =
      let (u, s) = get_user_from_session c.now r.cookie (site a) in
      if-both (GoesOn (may_panic h)) (is_empty u)
        (_, _, refl, refl, record { inv = v.inv; repo = v.repo })
        (handle-GoesOn h r c (with_site s a) (record { inv = v.inv; repo = v.repo }) k)
  handle-GoesOn h r c a v k = with_user-GoesOn h r c a v k
