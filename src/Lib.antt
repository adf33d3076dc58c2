-- ===== src/Lib.antt =====
-- A verification library for sclawion, the bridge between chat platforms and agents: the admin service
-- (cmd/admin-api) with the packages that it stands on, and the connectors of the chat platforms.
--
-- The parts and the files that model them:
--
--   pkg/config/types.go           Config/Types: the records of the configuration
--   pkg/config/validate.go        Config/Validate: the validators; Validate/Shapes describes the two
--                                 regular expressions, Validate/Accepts the records
--   pkg/config/store.go           Config/Store: the interface; Config/Errors: its errors
--   pkg/config/memstore.go        Config/MemStore: every method; GoMap: Go's maps and maps of maps
--   pkg/config/firestore.go       Config/Firestore: the stub
--   pkg/config/audit.go           Config/Audit: Recorder.Record, Redact and the line of the log;
--                                 Audit/Ids: the ids
--   pkg/config/secretwriter.go    Config/Secrets: the names of secrets and their rotation
--   pkg/config/rbac.go            Config/Rbac: IAPAuth, RequireRole and the ranks
--   cmd/admin-api/handlers/       Admin: Http (requests and responses), Act (the body of a handler),
--                                 Tenants, Agents, Swarms, Connectors, AdminUsers, AuditLog (the
--                                 handlers) and Routes (the mux); Admin/Ui: ui.go, with its pages
--                                 (Views) and its mux (Routes)
--   cmd/admin-api/main.go         Admin/Access: the API behind the authentication; Admin/Mux: the whole
--                                 mux; Admin/Serving: the service over a sequence of requests;
--                                 Admin/Start and Admin/Boot: its start; Admin/Main: what main hands
--                                 to its parts
--   pkg/auth/hmac.go              Auth: signatures and the window of a timestamp; GoTime: the arithmetic
--                                 of package time; Bytes: byte strings, hexadecimal codes and numbers
--   pkg/connectors/               Connectors: Slack (verify.go, decode.go), Signed (whatsapp, imessage),
--                                 Discord and Gchat
--   pkg/event, pkg/pubsub         Event and Pubsub: the envelope and its encoding
--   cmd/ingress, cmd/router,      Services: what the services of the data plane answer in this commit,
--   cmd/emitter, cmd/scion-bridge and pkg/scion/client.go
--   pkg/auth/replay.go, pkg/obs   Dataplane: the interfaces that this commit declares and does not yet
--   pkg/correlation, pkg/secrets  implement or call
--
-- A function keeps its name in the spelling of this language: ListAudit is list_audit, patchTenant is
-- patch_tenant. A method of a store takes the store's state and, where it writes, returns the next one
-- beside its error. The World holds the store's state, that of the Secret Manager, the structured
-- log, and how often the clock and the source of random identifiers were read. A handler is a program
-- of steps on the World (Admin/Act), each of which is atomic: a call of the store, whose methods hold
-- its lock throughout, of the Secret Manager, of the clock, of the random ids or of the log
-- (Admin/Recording for Recorder.Record). An early `return` after `http.Error` ends the program.
--
-- `m ▷ w` is a program run alone: its response and the next World. Admin/Serving runs requests one
-- after the other, Admin/Concurrent, Admin/Ownerless, Admin/Logged, Admin/Reconciled and
-- Admin/Unique at once, with their steps in any order, and Admin/Cost counts these; Admin/Guarded,
-- Admin/Isolated, Admin/Preserved and Admin/Overtaken follow one request or rotation while the others
-- do what they will.
-- Config/Contract says what the handlers' theorems need of a store, and that MemStore gives it;
-- Config/Sound says when a store's documents are in order, and Config/Tenancy what a write to those of
-- one tenant leaves of the others. Admin/Silence and Admin/Trail, Admin/Documents, Admin/Echoes,
-- Admin/Steps, Admin/Phases and Admin/Confined hold the rules by which a program is followed step by
-- step; Admin/Owners, Admin/Under, Admin/Every and Admin/Ui/Every lead a property of the handlers to
-- all routes, Admin/Asking and Admin/Backing one of the routes to the service. Admin/Readback follows
-- a document from the request that writes it to the one that reads it, and Admin/AuditPage a
-- GET /v1/audit from its query to the store and back.
--
-- Taken as parameters: sort.Slice (Sorting: any sort that returns a permutation, in order where the
-- test is a strict weak order), the order in which a map is visited (that of the association list),
-- encoding/json (Decoders, with json.Marshal), time.Now and crypto/rand (Host), the Secret Manager
-- (Writer), the IAP and OIDC verifiers, HMAC-SHA256 and Ed25519, path.Join, the templates and the
-- server of static files (Assets).
--
-- A float64 is the exact multiple of the least positive one, a time.Time the nanoseconds since year 1,
-- an integer of the configuration an unbounded one, since no operation of the modelled code adds or
-- multiplies them. A text is a sequence of characters.
--
-- Every recursion is on a list, a text or a program, so there is no fuel.
--
-- Not modelled: listening on a port and reading the environment; the embedded templates; the text of a
-- response's body beyond the value or the page it shows.
--
-- Prelude holds the shared names and the lemmas on tests, lists, permutations and integers; Tests
-- holds concrete runs.
pub mod Prelude
pub mod Text
pub mod Bytes
pub mod GoTime
pub mod GoMap
pub mod Sorting
pub mod Event
pub mod Auth
pub mod Config
pub mod Connectors
pub mod Pubsub
pub mod Services
pub mod Dataplane
pub mod Admin
pub mod Tests
