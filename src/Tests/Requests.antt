-- ===== src/Tests/Requests.antt =====
-- The theorem on the counting of requests at a concrete input, and flags of the server.
use pigeongram_chat.Base.{
  true, false, Bool, ltb, all, ◌+◌, ◌≡◌, Option, none, some, List, [], ◌∷◌, ◌==◌, list_eq, nat_eq,
  if◌then◌else◌,
}
use pigeongram_chat.Base.Text.{Text, bytes}
use pigeongram_chat.Server.{Flags}
use pigeongram_chat.Middleware.{Call, writes_header, writes, Request, shown, serve_all}
use pigeongram_chat.Middleware.Counts.{Values, label_of, hits_of, serve_all-counts}

-- "/old" answers with 404, "/bad" panics, and all else answers with a text.
abbrev pages : Request → Option (List Call)
pages r =
    if r.path == bytes "/old"
    then some (writes_header 404 ∷ writes (bytes "gone") ∷ [])
    else if r.path == bytes "/bad"
    then none
    else some (writes (bytes "hello") ∷ [])

abbrev get : Text → Request
get path = record { method = bytes "GET"; path = path }

abbrev requests : List Request
requests = get (bytes "/old") ∷ get (bytes "/ws") ∷ get (bytes "/bad") ∷ get (bytes "/") ∷ []

abbrev old_get : Values
old_get = record { method = bytes "GET"; path = bytes "/old"; status = bytes "404" }

abbrev is_ascii : Text → Bool
is_ascii t = all (λ c. ltb c 128) t

serve_all-counts_example :
    shown (label_of old_get) (serve_all is_ascii pages requests [])
    ≡ shown (label_of old_get) [] + hits_of is_ascii pages old_get requests
serve_all-counts_example = serve_all-counts is_ascii pages old_get requests []

abbrev pub flags : Flags
flags = record { reset_db = false; use_redis = true; server_id = [] }
