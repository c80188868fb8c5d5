-- ===== src/Lib.antt =====
-- A chat server in Go: clients talk over websockets to a manager, which delivers messages, file events
-- and the list of users who are online, keeps a history in a database and a cache, and shares its
-- traffic with other servers through Redis.
--
-- The parts and the files that model them:
-- - pkg/models, internal/models: Models.
-- - What encoding/json makes of the program's structs: Json, Json/Structs; facts about it in
--   Json/RoundTrip, Json/Written and Json/Agree. A document is a tree; its text is a parameter (`JsonText`), and so is
--   the text of a time (`TimeText`).
-- - repository/postgres and pkg/crypto: Repository/Messages, Repository/Users, Repository/Sessions, one
--   function for each method, over the database as GORM presents it (`Database`) and bcrypt, which are
--   parameters. Repository/Messages/Order is about `GetRecent`, Repository/Users/Accounts about passwords.
-- - repository/cache: Cache is the interface with its laws, Cache/Memory is memory.go and Cache/Redis is
--   redis.go, over a Redis server as a parameter (`RedisClient`). Both have a module Lawful; for Redis the laws
--   are about texts that are UTF-8 and usual times, which is what JSON reads back.
--   Cache/Redis/Connection opens and closes the connection.
-- - internal/websocket/client.go: Websocket/Client. `read_frame` is one round of `ReadPump`, `read_pump`
--   the whole of it, `write_round` one round of `WritePump`.
-- - internal/websocket/manager.go: Websocket/Manager holds the state and the cases for Register and
--   Unregister, Manager/Cases the other cases of `Run`, the periodic work and `GetStats`, Manager/Tasks
--   the goroutines that a case starts, Manager/Cluster the traffic with Redis, Websocket/History the list
--   that a new client gets. Manager/Run puts them together with web/websocket.go: an event is one case of
--   `Run`, a send by another goroutine, a pending task or a round of a writer, and a list of events is an
--   interleaving.
--   Websocket/Fleet has several servers on one database that publish to one another.
--   Websocket/Talk follows a message from one client to another, Websocket/Authors the names on messages.
-- - internal/websocket/server_registry.go: Websocket/Registry, with what servers do as a list of events,
--   over a Redis server with time and expiry as a parameter (`HashServer`).
-- - web/handlers.go: Web, one function for each handler that logs in or out, for `getUserFromSession` and
--   for `AuthMiddleware`; Web/Access and Web/Registered are about who gets a session, Web/Expiry about how long
--   it is good. The pages are in Web/Debug. Web/Sockets draws session ids and has the handler of web/websocket.go.
-- - web/file_handlers.go: Web/Files, the handlers that list, hand out and delete files, and Web/Uploads,
--   those that take uploads and pass files through. The debug handlers and web/debug.go are in Web/Debug.
-- - web/render.go: Web/Render, as calls on the writer of the response, over html/template as a parameter.
--   The handlers of pages yield the name of the template with its fields.
-- - internal/storage/minio.go: Storage, over a server of objects as a parameter (`ObjectStore`). Owner
--   below it is about whose a file is, Names about what is read out of a key; Links has the policies and
--   the addresses of links, with the client that signs them as a parameter (`Signer`), and
--   Buckets the calls on the server as a whole.
-- - internal/middleware, internal/metrics: Middleware counts requests, with the values of
--   labels that Prometheus takes as a parameter; the other counters and gauges are
--   fields of the records that use them.
-- - config: Config for what is read from the environment, Config/Postgres for `InitPostgres` as the list
--   of its statements.
-- - cmd/server/main.go: Server, what `main` decides: which services are used and which routes there are.
--   Server/Mux is what the code uses of `http.ServeMux`, for paths that are clean. Server/App is the state
--   that the handlers and the manager share, Server/Handling what each handler that is registered does to
--   it, and `serve` puts the mux into MetricsMiddleware, as `main` does; the modules below are about requests
--   without a session, about panics, about who joins and about uploads. Server/Runs lets
--   requests and the events of the manager follow one another in any order.
--
-- How the code is rendered: a string is the list of its bytes; a time is its distance in nanoseconds
-- from Go's zero time; a map is an association list; a buffered channel is a list, and a send in a
-- `select` with a `default` drops the value when the list has reached the capacity. A client is known by
-- its address in a heap, since goroutines keep pointers to clients that the manager has dropped. A panic
-- is `none`. A method that runs under a lock is one step, and so is each of the goroutines that a case
-- starts, which in the program may also interleave with itself between its calls of the cache. A gauge
-- is a natural number; counters of the memory cache wrap around at 2 ^ 64.
--
-- Bounds and fuel: a number is written in decimal with one more than the number as fuel, since a tenth
-- of it is smaller; the loop that reverses the rows of `GetRecent` has the length of the slice as fuel,
-- and the exchange sort of the history as many rounds as there are messages; the theorems on both show
-- that this is enough.
--
-- Left out: logs and durations, the deadlines, pings and the read limit of a connection, the text of
-- templates, the parsing of flags, the connections themselves and the listening of the server, the text
-- of SQL statements, and `time.ParseDuration`, which computes with floating point numbers and is a
-- parameter. models/ holds structs that nothing uses.
pub mod Base
pub mod Models
pub mod Json
pub mod Config
pub mod Middleware
pub mod Repository
pub mod Cache
pub mod Websocket
pub mod Web
pub mod Server
pub mod Storage
pub mod Tests
