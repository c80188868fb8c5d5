-- ===== src/Server/Mux/Routed.antt =====
-- Which handlers can be reached at all.
use pigeongram_chat.Base.{
  ℕ, ◌≡◌, refl, ◌⊎◌, inl, inr, Bool, true, false, not, ◌&&◌, ◌||◌, ◌==◌, nat_eq, list_eq,
  list_beq_iff, Option, some, [], ◌∷◌, ◌++◌, all, arith, Option-cases,
}
use pigeongram_chat.Base.Text.{Text, bytes}
use pigeongram_chat.Base.Dict.{Dict, lookup}
use pigeongram_chat.Config.{Env, ℤ, get_server_environment}
use pigeongram_chat.Server.{Handler, Flags, Services, routes_for, started}
use pigeongram_chat.Server.Mux.{serves, ends_in_slash, longest, by_prefix, route}

module _ (Q : Text × Handler → Bool) where
  lookup-all :
      (path : Text) (routes : Dict Text Handler) (h : Handler)
      → all Q routes ≡ true
      → lookup path routes ≡ some h
      → Q (path, h) ≡ true
  unfolding all lookup
  lookup-all path [] h a e = cc
  lookup-all path ((pattern, g) ∷ routes) h a e =
      grind (arith, lookup-all path routes h, list_beq_iff)

  longest-all :
      (path : Text) (routes : Dict Text Handler) (p : Text × Handler)
      → all Q routes ≡ true
      → longest path routes ≡ some p
      → (Q p ≡ true) × (ends_in_slash p.0 ≡ true)
  unfolding all longest
  longest-all path [] p a e = cc
  longest-all path ((pattern, g) ∷ routes) p a e = ground (arith, longest-all path routes p)

  -- A path comes to a handler by its exact pattern, or by one that ends in a slash.
  pub route-all :
      (path : Text) (routes : Dict Text Handler) (h : Handler)
      → all Q routes ≡ true
      → route routes path ≡ serves h
      → (Q (path, h) ≡ true) ⊎ ((p : Text) × (Q (p, h) ≡ true) × (ends_in_slash p ≡ true))
  unfolding route by_prefix
  route-all path routes h a e = elim (Option-cases (lookup path routes)) [
    | inr (g, f) ↦ inl (lookup-all path routes h a (ground (arith, e, f)))
    | inl f ↦ elim (Option-cases (lookup (path ++ (b'/' ∷ [])) routes)) [
      | inr (g, k) ↦ absurd (ground (arith, e, f, k))
      | inl k ↦ elim (Option-cases (longest path routes)) [
        | inl l ↦ absurd (ground (arith, e, f, k, l))
        | inr ((p, g), l) ↦
            let (held, slash) = longest-all path routes (p, h) a (ground (arith, e, f, k, l)) in
            inr (p, held, slash)
      ]
    ]
  ]

-- The handlers of files, and those of the pages for debugging.
unfoldable pub is_of_files : Handler → Bool
is_of_files Handler.file_page = true
is_of_files Handler.request_upload = true
is_of_files Handler.upload_complete = true
is_of_files Handler.list_files = true
is_of_files Handler.get_download_url = true
is_of_files Handler.delete_file = true
is_of_files Handler.proxy_download = true
is_of_files h = false

unfoldable pub is_for_debugging : Handler → Bool
is_for_debugging Handler.test_file_notification = true
is_for_debugging Handler.debug_web_socket = true
is_for_debugging Handler.debug_send_test_event = true
is_for_debugging Handler.debug_check_file = true
is_for_debugging Handler.debug_last_messages = true
is_for_debugging Handler.debug_test_minio = true
is_for_debugging Handler.debug_file_exists = true
is_for_debugging h = false

-- When a handler may be reached, with the store of files there or not, in development or not.
unfoldable pub is_open : Bool → Bool → Handler → Bool
unfolding is_of_files is_for_debugging
is_open has_minio development h =
    (not (is_of_files h) || has_minio) && (not (is_for_debugging h) || has_minio && development)

all_open : (m d : Bool) → all (λ (p : Text × Handler). is_open m d p.1) (routes_for m d) ≡ true
unfolding all is_open routes_for
all_open true true = refl
all_open true false = refl
all_open false true = refl
all_open false false = refl

-- Whatever path is asked for, a handler of files is reached only if MinIO answered at the start, and a
-- handler for debugging only if it did and the environment is "development".
pub route-is_open :
    (s : Services) (parse : Text → Option ℤ) (f : Flags) (env : Env) (hostname : Text) (now : ℕ)
    (path : Text) (h : Handler)
    → route (started s parse f env hostname now).routes path ≡ serves h
    → is_open
        (started s parse f env hostname now).has_minio
        (get_server_environment env == bytes "development")
        h
      ≡ true
unfolding started
route-is_open s parse f env hostname now path h e = elim (route-all Q path _ h all_known e) [
  | inl held ↦ held
  | inr (p, held, slash) ↦ held
]
  where
    Q : Text × Handler → Bool
    Q p =
        is_open (started s parse f env hostname now).has_minio
          (get_server_environment env == bytes "development") p.1

    all_known : all Q (started s parse f env hostname now).routes ≡ true
    all_known = all_open _ _
