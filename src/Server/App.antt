-- ===== src/Server/App.antt =====
-- The server as `main` (cmd/server/main.go) puts it together: the state that the handlers share, what a
-- request brings, and what it gets. The handlers are in Handling.
use pigeongram_chat.Base.{ℕ, Bool, Option, List}
use pigeongram_chat.Base.Text.{Text}
use pigeongram_chat.Base.Result.{Result}
use pigeongram_chat.Repository.Users.{Bcrypt}
use pigeongram_chat.Storage.{ObjectStore}
use pigeongram_chat.Storage.Links.{Signer, MinioClient}
use pigeongram_chat.Websocket.Channels.{FileInfo}
use pigeongram_chat.Websocket.Manager.{Outside, Manager}
use pigeongram_chat.Web.{Site, Reply, Form}
use pigeongram_chat.Web.Debug.{Page, MessageRow}
use pigeongram_chat.Web.Files.{Hub, FileRequest}
use pigeongram_chat.Web.Uploads.{UploadForm, UploadReport, UploadTotals, Download}

-- What the server uses and does not implement.
pub record Surroundings : Type 1 where
  pub outside : Outside
  pub store : ObjectStore
  pub signer : Signer
  pub client : MinioClient
  pub Content : Type 0
  pub get_object : Text → store.State → Result Text Content
  pub size_of : Content → Option ℕ
  pub buckets : store.State → Result Text (List Text)
  pub bcrypt : Bcrypt
  -- whether Prometheus takes a value of a label, or panics; method and status it always takes
  pub accepts_label : Text → Bool

-- `main` gives the repositories and the cache of the manager to `InitStores` too, and the manager to
-- `NewFileHandler`, so they are shared.
pub record App (E : Surroundings) : Type 0 where
  pub manager : Manager E.outside
  pub objects : E.store.State
  pub totals : UploadTotals

-- A request: its cookie `session_id`, its query, its form, and what its body decodes to.
pub record Request : Type 0 where
  pub cookie : Option Text
  pub chat_id : Text
  pub filename : Text
  pub key : Text
  pub user : Text
  pub error : Text
  pub form : Form
  pub report : Option UploadReport
  pub deletion : Option FileRequest

-- What a handler is given besides: two readings of the clock, the draws for a session id and for bcrypt,
-- the address of a new client, and whether the connection becomes a websocket.
pub record Chances : Type 0 where
  pub now : ℕ
  pub later : ℕ
  pub draws : List ℕ
  pub salt : ℕ
  pub address : ℕ
  pub upgraded : Bool

-- The bodies of the answers.
pub data Body (O : Type 0) : Type 0 where
  upload_form : UploadForm → Body O
  accepted : Body O
  file_list : List FileInfo → Body O
  link : Text → Body O
  removed : Body O
  download : Download O → Body O
  notified : Text → Text → Body O
  connections : Text → ℕ → Bool → Body O
  sent : Bool → Body O
  checked : Result Text FileInfo → Body O
  rows : List MessageRow → Body O
  buckets_and_files : List Text → List FileInfo → Body O

-- What a request gets; `panics` is a panic that net/http catches, and `elsewhere` stands for the answers
-- of the libraries' handlers.
pub data Response (O : Type 0) : Type 0 where
  shows : Page → Response O
  replies : Reply → Response O
  fails : ℕ → Response O
  sends : Body O → Response O
  is_websocket : Response O
  not_upgraded : Response O
  panics : Response O
  elsewhere : Response O

module _ {E : Surroundings} where
  -- The variables of `InitStores`.
  abbrev pub site : App E → Site E.outside.database E.outside.cache
  site a = record {
    database = a.manager.database;
    has_cache = a.manager.has_cache;
    cache = a.manager.cache;
  }

  abbrev pub with_site : Site E.outside.database E.outside.cache → App E → App E
  with_site s a = record a {
    manager = record (a.manager) { database = s.database; cache = s.cache };
  }

  -- The store and the channel `FileEvents`.
  abbrev pub hub : App E → Hub E.store
  hub a = record { objects = a.objects; events = a.manager.file_events }

  abbrev pub with_hub : Hub E.store → App E → App E
  with_hub h a = record a {
    manager = record (a.manager) { file_events = h.events };
    objects = h.objects;
  }
