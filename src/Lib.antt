-- ===== src/Lib.antt =====
-- Verification library of the dataverse hub: a server of signed objects in realms. A client PUTs an
-- object, signed by its key, under the ref "key.id"; the hub checks it, keeps it as a file, indexes
-- it, and answers searches with the objects that the reader may see.
--
-- How the parts interact. handlePutObject parses and verifies the body (object/), asks the merged
-- view of the shared realms whether the object may be stored (realm/), takes the lock of the ref,
-- compares If-Match and the revision with the index (serving/precondition.go), moves the old file
-- to bk/ and writes the new one (storage/store.go), and updates the index (storage/index.go). The
-- index feeds SHARED_REALM objects to the graph of memberships, which the view reads, and every
-- query of the index filters by CanRead over that view. A GET takes the metadata from the index, the
-- file from the store and the page that shows it from serving/viewer.go, and may redirect to the host
-- of the page (vhost/). The rate limiter (auth/ratelimit.go) and the session of auth/auth.go stand
-- before all handlers of the hub. A hub that is a proxy pushes edits that its root hub has not taken
-- yet from a queue (upstream/).
--
-- Files and the code that they model:
-- - Base: Boolean tests, lists, byte strings, Go maps as association lists with one entry for each
--   key, Go's int with strconv.Itoa (Base/Signed), strings.TrimSpace and strings.Split (Base/Trim).
-- - External: a record of what the program takes from encoding/json, base64, time.Parse, SHA-1,
--   SHA-256, ECDSA and ASN.1. It is a parameter of every definition that uses it; the laws that
--   single theorems need (20 bytes of SHA-1, the alphabet of base64url) are hypotheses of those.
-- - Object: object/ref.go (Ref), object/types.go (Types), object/verify.go and object/conflict.go
--   (Verify). Ref/Shape, Verify/Signed and Verify/SameItem hold the theorems.
-- - Realm: realm/realm.go (Access), realm/realmid.go (RealmId), realm/shared.go (Shared),
--   realm/graph.go (Contract for ParseSharedRealm, Graph for the membership index),
--   realm/resolver.go (Resolver, the interface with its laws, and Merged).
-- - Storage: storage/index.go (Index: NewIndex, Add, Remove, Update, Rebuild; Index/Queries:
--   GetInbound, GetByPubkey, GetAll, GetMeta, GetPageRefs, GetInboundCounts, sortMetaDesc) and
--   storage/store.go (Store: NewStore, Backup, Read, Write, Exists, Scan). The other files of Index hold the theorems:
--   Owners and Sources the invariants, Relations, Meta, Visible and ByPubkey the results, Order the
--   sorting.
--   storage/conflict.go is Conflict, the directories of edits that the hub did not take.
-- - Serving: serving/precondition.go (Precondition: revisionETag, splitETagList, evaluateIfMatch,
--   checkConditionalWrite), paginateAndLoad of serving/paginate.go (Paginate; Follow is a client that
--   follows the cursors) and handlePutObject of serving/handlers.go (Put). `admit` is the handler up
--   to the lock of the ref, `commit` what it does under the lock, and the theorems on `commit` hold
--   for any state of the hub at that time, also one that other requests changed since `admit`.
--   KeyedMutex is serving/keyedmutex.go: `turn` is the next step of one thread, `Step` lets any of
--   them take it, and `Reach` is what any number of threads reaches. Representation has the tests of
--   the header Accept and the content of a BLOB, Viewer is serving/viewer.go, Get is handleGetObject
--   with serveObject and the login, Projection the paths /json, /raw and /page of the hub in
--   serving/projection.go, Search is handleListObjects and handleGetInbound, Root is handleRoot
--   and TLSAskHandler, and Selection the choice of a representation in serving/viewer.go.
-- - Auth: auth/ratelimit.go (RateLimiter) and auth/auth.go (Tokens; `run` is any sequence of calls).
-- - Upstream: upstream/client.go (Client) and upstream/sync.go (Sync). `push_one` and `drain_round`
--   are the code in sequence; `step` and `run` have the drain beside the calls of Add and Remove,
--   which may come between the read of a file and the answer to its push (`run-push_one` in Sync/Kept
--   relates the two).
-- - Vhost: PageHash and AddPage, which PUT calls; vhost/resolver.go (Resolver) and
--   serving/vhost_mode.go (Mode).
-- - Config: config.go, from the decoded file and the environment on.
-- - Tests: the theorems at concrete inputs, with a small stand-in for the parameters (Tests/Fixture).
--
-- Conventions. A string is the list of its bytes. A method that holds a lock from its first to its
-- last access is one step, a function of the state. Two methods release the lock in between and are
-- one step all the same: Load of the graph, whose model is what it leaves, without queries and
-- writes between the reset and each Add; and HandleToken, without other calls between the taking of
-- the challenge and the storing of the token, where it reads no shared state. The clock and the
-- call of the operating system that fails are arguments. Numbers are natural numbers or, for int
-- revisions, Base.ℤ without the bounds of 64 bits: the code compares and prints revisions, and does
-- no arithmetic on them. A `range` over a map visits the entries in the order of the association
-- list; where the order shows, the result is sorted at once. The only fuel is the one of
-- `digits_from` in Base/Signed, the number itself plus one, and a number has at most that many
-- digits: `value-digits_from` reads the number back. The requests of `follow` are bounded by one
-- more than there are objects, which `follow-all` shows to be enough.
--
-- Not modelled: the proxy (serving/proxy.go and its handlers in serving/projection.go), the HTML page of
-- the login of private pages, the decoding of the configuration file, the wiring of main.go and of the
-- routes, the rewriting of texts for answers (stripBlobData, enrichWithInboundCounts,
-- injectBaseDomain), and the texts of error responses (object/problem.go).
pub mod Auth
pub mod Config
pub mod Base
pub mod External
pub mod Object
pub mod Realm
pub mod Serving
pub mod Storage
pub mod Upstream
pub mod Tests
pub mod Vhost
