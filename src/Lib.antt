-- ===== src/Lib.antt =====
-- smtp-store receives mail from cameras over SMTP and writes bodies and attachments below a storage
-- root, which is often a network mount. A session authenticates, names recipients and sends a
-- message; the message goes to a local spool, if there is one, or straight to the storage. A worker
-- moves spooled items through pending/ and processing/ to the storage, and keeps them while the
-- storage cannot be reached. Stored videos are classified by workers, indexed, and announced over MQTT,
-- and a web interface shows what is stored to users that have logged in.
--
-- Which file models what:
-- - Base: numbers, lists, strings, maps and the errors of Go. Base/Strings holds the functions of
--   `strings` and `unicode` that the program calls, with split, sort, decimal, hex and file paths.
-- - Config: internal/config/config.go. Defaults is `applyDefaults`, Validate is `Validate`, Users
--   is `UserMap` and `UIUserMap`, Getters the getters; Laws says what a validated configuration guarantees.
-- - Spool: internal/spool/spool.go. Spool.antt has the state and the file calls; Item is the format
--   of a file with `newID` and `readItem`, Enqueue is `Enqueue` and `sizeLocked`, Process is
--   `processOne`, `nextPending`, `recoverProcessing`, `flush` and `run` up to its first tick.
-- - Smtp: internal/smtpserver. Session is `session` and `backend` of server.go, Login is the machine
--   of login_auth.go, Trace has the sequences of commands.
-- - Storage: internal/storage/storage.go. Errors is `IsUnavailableError`, Folder is
--   `NormalizeRecipientFolder`, Body is `writeBodyWithCollisionHandling`, Message is `parseMessage`
--   with `extensionFrom` and `htmlToText`, Deliver is `ProcessAndStore`.
-- - Classify: internal/classify. Classify.antt has the types and predicates of types.go, Category is
--   `normalizeCategory` and `hasCategory` of service.go, Detections is `normalizeDetections`, Queue is
--   `Enqueue`, `enqueueBackfill` and `worker` with a channel of 1024 places, and Process is
--   `processWithRetry` with `writeThumbnail` and `sidecarForVideo`.
-- - Webui: internal/webui/server.go. Paths is `resolvePathFromRequest` and `breadcrumbs`, Session the
--   tokens of a login, Files what is shown of one file, Pages the lists, Handlers every handler and
--   the routes of `NewHandlerWithIndex`.
-- - Fileindex: internal/fileindex/index.go, the table of files with `UpsertPath`, `UpsertSidecar`,
--   `Recent` and `Recipients`.
-- - Mqtt: internal/mqttnotify/publisher.go. Names is the naming of topics, identifiers and events,
--   Cameras is `NewWithClient` and `cameraForName`, Publish what is published.
-- - Main: cmd/smtp-store/main.go, the order of the start and the arguments that join the parts.
--
-- How the code is modelled:
-- - State is passed on explicitly. A directory is an association list from names to contents. Each
--   call to the operating system takes the next entry of a script of faults, so that a theorem for
--   every script covers a failure at every call; a failing write may leave a part of its text.
-- - A Go result with an error is `Outcome`; an error is its text with the error numbers in its chain.
-- - `Enqueue` is cut at its calls: `write_item`, `create_item`, `write_meta`, `write_raw`,
--   `sync_item`, `close_item` and `publish` each treat one failure and go on with the next.
-- - Loops without a bound run on fuel. The flush takes the number of its rounds as an argument and
--   says when it goes on after them, since the program's loop need not end: as long as a move out of
--   the pending directory fails, it goes round again at once. A script holds the faults of as many
--   calls as one likes, and none after them. The body loop has one round more than the faults to come
--   and the files: each round uses a fault up or meets a file of its own.
-- - Strings are lists of code points, of valid UTF-8; a raw message is a list of bytes. The tables of
--   Unicode beyond ASCII are an instance argument. JSON and the formats of time are the parameter
--   `Codec`, and `IsLawful` is what their packages document. `time.ParseDuration`, `os.Stat`,
--   float64, the calendar, the mail reader with what it reads, the extensions of a media type, the
--   unescaping of HTML entities and the store behind the spool are parameters.
-- - Sizes are numbers without a bound: those of files and messages are far below 2 ^ 63. The `%q` of
--   a duplicate name is written for names with no character to escape. The post-store handler is
--   set, as the main program sets it, and spool directories hold files only.
-- - A time is its nanosecond from 1970 on, and in the index and in tokens its second. `sort.Slice`
--   keeps items of equal rank in their order. HMAC, base64, the escaping of URLs, the registry of
--   media types, the formats of times and numbers and `json.Marshal` are parameters. The storage root
--   of the web interface has at least one name: it is not `/`.
-- - An SQL statement is read as the operation on the table that it documents, and may fail. The
--   broker of MQTT answers each call by a script and keeps what it took.
-- - A handler that panics ends without an answer; an interface value that holds a nil pointer is a
--   value, whose method runs with a nil receiver.
-- - The attempts on a video are structural recursion on those that are left. The extractor, the
--   provider and the notifier answer by the number of the attempt; each sidecar is recorded when its
--   write is tried, since an error of the write is only logged.
--
-- Not modelled: logging; the loading of YAML; the construction of the SMTP and web servers with their
-- templates; the redirects of `ServeMux`; the probes of a directory and the timers that call them; the
-- providers, the frame extractor and the walk of the backfill of internal/classify; the opening of
-- the index and its backfill; the options of the MQTT client.
pub mod Base
pub mod Storage
pub mod Config
pub mod Spool
pub mod Smtp
pub mod Classify
pub mod Fileindex
pub mod Main
pub mod Mqtt
pub mod Webui
