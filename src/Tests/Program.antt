-- ===== src/Tests/Program.antt =====
-- The theorems on the whole server, and on the end of sessions, at concrete inputs.
use pigeongram_chat.Base.{
  ◌⊎◌, ◌+◌, all, ltb, arith, ◌≡◌, refl, true, false, Option, none, some, [], ◌∷◌, ◌==◌, list_eq,
  nat_eq, list_beq, length,
}
use pigeongram_chat.Base.Text.{Text, bytes}
use pigeongram_chat.Base.Dict.{lookup}
use pigeongram_chat.Base.Result.{ok}
use pigeongram_chat.Models.{SessionEntity}
use pigeongram_chat.Repository.{Database}
use pigeongram_chat.Cache.Memory.{get_session, new_memory_cache, MemoryCache}
use pigeongram_chat.Cache.Memory.Lawful.{memory_cache}
use pigeongram_chat.Config.{Env, get_server_environment}
use pigeongram_chat.Websocket.Manager.Invariant.{IsValid}
use pigeongram_chat.Websocket.Manager.Run
use pigeongram_chat.Websocket.Manager.Run.{new_manager, step}
use pigeongram_chat.Web.{Site, get_user_from_session}
use pigeongram_chat.Web.Expiry.{visits, sweeps, after_visits}
use pigeongram_chat.Web.Expiry.Bound.{get_user-after_visits}
use pigeongram_chat.Server.{Handler, Services, started, routes_for}
use pigeongram_chat.Server.Mux.{route}
use pigeongram_chat.Server.Mux.Routed.{is_open, route-is_open}
use pigeongram_chat.Server.App.{Surroundings, App, Request, Chances}
use pigeongram_chat.Server.Handling.{serve}
use pigeongram_chat.Server.Handling.Closed.{TurnedAwayOrLost, serve-nobody, is_account_path}
use pigeongram_chat.Server.Handling.Steady.{GoesOn}
use pigeongram_chat.Server.Handling.Answered.{serve-GoesOn}
use pigeongram_chat.Server.Handling.Joined.{JoinsAs, serve-JoinsAs}
use pigeongram_chat.Server.Runs.{
  Act, asks, works, start_app, act, here, next, Proceeds, is_late_act, start-runs,
}
use pigeongram_chat.Tests.World.{world, tables, cached, hello, lobby, lobby-IsValid, alice}
use pigeongram_chat.Tests.Pages.{plain, form}
use pigeongram_chat.Websocket.Channels.{FileInfo}
use pigeongram_chat.Websocket.Manager.Run.{step, takes_file_event}
use pigeongram_chat.Web.Uploads.{clean_key}
use pigeongram_chat.Web.Uploads.Announced.{told, IsReported}
use pigeongram_chat.Server.App.{Body, sends}
use pigeongram_chat.Server.Handling.{uploaded}
use pigeongram_chat.Server.Handling.Uploaded.{TellsAll, uploaded-TellsAll}
use pigeongram_chat.Tests.Uploads.{report, minio, signer, bucket}
use pigeongram_chat.Tests.Requests.{flags}

abbrev place : Surroundings
place = record {
  outside = world;
  store = bucket;
  signer = signer;
  client = minio;
  Content = Text;
  get_object = λ k s. ok k;
  size_of = λ o. some (length o);
  buckets = λ s. ok (bytes "files" ∷ []);
  bcrypt = plain;
  accepts_label = λ t. all (λ c. ltb c 128) t;
}

abbrev request : Option Text → Request
request cookie = record {
  cookie = cookie;
  chat_id = bytes "general";
  filename = [];
  key = [];
  user = [];
  error = [];
  form = form;
  report = none;
  deletion = some (record { chat_id = bytes "general"; key = bytes "chat-general/alice/1-a" });
}

abbrev chances : Chances
chances = record { now = 5; later = 6; draws = []; salt = 0; address = 9; upgraded = true }

abbrev cache_with_alice : MemoryCache
cache_with_alice = record cached {
  sessions =
      (bytes "s1", record { session = some (record { username = bytes "alice" }); timestamp = 5 })
      ∷ [];
}

abbrev services : Services
services = record {
  redis_answers = λ c. false;
  redis_cache_answers = λ c t. false;
  minio_answers = λ c. true;
}

abbrev posted : App place
posted = record {
  manager = record (new_manager world tt cache_with_alice false (bytes "host-1")) {
    broadcast = hello ∷ [];
  };
  objects = tt;
  totals = record { files_uploaded = 0; files_size = 0 };
}

abbrev joins : Act
joins = asks (bytes "/ws") (request (some (bytes "s1"))) chances

-- A message is posted, and then a user asks for a websocket.
start-runs_example :
    IsValid posted.manager
    × ((is_late_act joins posted ≡ true)
        ⊎ Proceeds
            (act (started services (λ t. none) flags [] (bytes "host") 1).routes joins posted))
unfolding act start_app new_manager started
start-runs_example =
    start-runs {E = place} services (λ t. none) flags [] (bytes "host") 1 tt cache_with_alice tt
      posted (next (works (Run.posts_message hello)) here tt refl) joins refl

abbrev app : App place
app = record {
  manager = lobby;
  objects = tt;
  totals = record { files_uploaded = 0; files_size = 0 };
}

-- A file is to be deleted without a cookie.
serve-nobody_example :
    TurnedAwayOrLost
      (bytes "/api/files/delete")
      app
      (serve (routes_for true true) (bytes "/api/files/delete") (request none) chances app)
unfolding is_account_path list_beq get_user_from_session
serve-nobody_example =
    serve-nobody true true (bytes "/api/files/delete") (request none) chances app refl refl

abbrev production : Env
production = (bytes "SERVER_ENVIRONMENT", bytes "production") ∷ []

route-is_open_example :
    is_open true (get_server_environment production == bytes "development") Handler.file_page ≡ true
unfolding route started list_beq
route-is_open_example =
    route-is_open services (λ t. none) flags production (bytes "host") 1 (bytes "/files")
      Handler.file_page refl

serve-GoesOn_example : GoesOn false (
    serve
      (routes_for true true)
      (bytes "/debug/send-to-user")
      (request (some (bytes "s1")))
      chances
      (record app { manager = record lobby { cache = cache_with_alice } }))
unfolding lookup list_beq all
serve-GoesOn_example =
    serve-GoesOn true true (bytes "/debug/send-to-user") (request (some (bytes "s1"))) chances
      (record app { manager = record lobby { cache = cache_with_alice } })
      (record { inv = lobby-IsValid.inv; repo = lobby-IsValid.repo }) refl

serve-JoinsAs_example : JoinsAs (bytes "alice") 9 (
    serve
      (routes_for true true)
      (bytes "/ws")
      (request (some (bytes "s1")))
      chances
      (record app { manager = record lobby { cache = cache_with_alice } }))
unfolding lookup get_user_from_session get_session list_beq new_memory_cache
serve-JoinsAs_example =
    serve-JoinsAs true true (request (some (bytes "s1"))) chances
      (record app { manager = record lobby { cache = cache_with_alice } })
      (record { inv = lobby-IsValid.inv; repo = lobby-IsValid.repo }) refl refl refl refl

abbrev session_row : SessionEntity
session_row = record {
  id = 1;
  session_id = bytes "s1";
  user_id = 7;
  expires_at = 50;
  created_at = 1;
  updated_at = 1;
  deleted_at = none;
  user = alice;
}

abbrev with_row : Database
with_row = record tables { first_session = λ id s. ok session_row }

abbrev site : Site with_row memory_cache
site = record { database = tt; has_cache = true; cache = cached }

get_user-after_visits_example :
    (get_user_from_session 1051
      (some (bytes "s1"))
      (after_visits (visits 40 (some (bytes "s1")) ∷ sweeps 60 ∷ []) site)).0
    ≡ []
unfolding lookup new_memory_cache
get_user-after_visits_example =
    get_user-after_visits (bytes "s1") 50 1000 1051 (visits 40 (some (bytes "s1")) ∷ sweeps 60 ∷ [])
      site (record { row = omega arith; entry = tt; distinct = tt; lifetime = refl }) (omega arith)
      (omega arith)

abbrev upload_request : Request
upload_request = record (request none) { report = some report }

uploaded-TellsAll_example :
    (f : FileInfo) × IsReported bucket (bytes "g") (clean_key minio.bucket_name report.key) tt f
    × (b : App place) × (uploaded upload_request chances (bytes "alice") app
        ≡ some (sends Body.accepted, b))
    × (b.totals ≡ record { files_uploaded = 0 + 1; files_size = 0 + f.size })
    × TellsAll (told 6 (bytes "g") (bytes "alice") f) lobby (step takes_file_event b.manager)
uploaded-TellsAll_example =
    uploaded-TellsAll {E = place} upload_request chances (bytes "alice") report app lobby-IsValid
      refl refl refl
