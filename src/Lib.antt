-- ===== src/Lib.antt =====
-- Screenspace's server: a shared gallery of live wallpapers. Users register, upload a video and
-- finalize it, which has it probed, checked and given a thumbnail and a preview; an admin approves
-- or rejects it; everybody lists what is approved, and users download it, mark it as a favorite or
-- report it. The Go program under server/ is modelled, from its queries to its routes.
--
-- How the parts stand together, from below:
-- - Base: numbers, lists, integers and maps that the other files share. Go's int is ℤ; int32 and
--   the successor of an int64 wrap around as they do in Go.
-- - Types (server/internal/types/enums.go), Apperr (server/internal/apperr/apperr.go), Strconv
--   (the functions of Go's strconv and fmt that are called), Float64 (comparison of floats by their
--   bits), Config (server/internal/config/config.go).
-- - Db (server/db/generated/*.sql.go, models.go, and the constraints of server/db/migrations):
--   Models has the tables and the errors of a query, Users, Wallpapers, Favorites and Reports have
--   one function for each query, on the tables as lists. Order sorts for ORDER BY, with a rank
--   for the rows that it leaves in any order, and page in Models is LIMIT and OFFSET. Wallpapers/Listing and Sorted are about the public listings.
-- - Middleware/RateLimit and Middleware/BannedCache: the state and the operations of
--   server/internal/middleware/ratelimit.go and banned.go, as functions of the time. BannedCache/History
--   sets the cache beside the list of the calls made so far.
-- - Server: Env is what the server asks of code outside the repository (clock, connection of the
--   database, object store, runs of ffmpeg, bcrypt, JWT, UUIDs), answers that may depend on the number
--   of the calls before. World is the state that requests share. Exec is an action on it, with a
--   result, an error, or a panic of the Go code; what was written before an error stays written.
--   Exec/Keeps, Exec/From and Exec/Inversion have the rules by which theorems on actions are proved.
--   Json is server/internal/respond/respond.go, and Request is a request with its decoded body.
-- - Service: server/internal/service, one file for each service, with its theorems below it.
--   Wallpaper/Interleaved is a step relation for requests that run at the same time: which have passed
--   their test, the UPDATE that each has still to do, and the queries with which all others write. Wallpaper/Clean and Files are about temporary files.
-- - Video: FFProber of server/internal/video/ffprober.go, as a function of what ffprobe prints, which
--   stands in for the prober of Env where the two meet. Storage: the interface of
--   server/internal/storage/store.go and S3Store of s3.go, over a record of the operations of the AWS
--   client that it calls.
-- - Middleware/Checks: Auth, Admin, BannedCheck, PerIP and PerUser as functions on handlers.
-- - Handler: server/internal/handler. Adapter is Wrap and handleError, Rows makes JSON of a row, and
--   Wallpaper, Admin, Auth and Social have the handlers. Handler/Keeps/Writes lists the writes of
--   all handlers, so that an invariant of all requests needs one proof for each of them.
-- - Respond: ParsePagination. Routes: the routing table of server/main.go, with the files for what
--   any sequence of requests respects: Lifecycle and Privileges (statuses, roles and bans), Accounts
--   (users), Referred and References (the references between the tables) and Favorites (the lists of
--   favorites); Untouched has the queries that leave a table alone, and Steps
--   relates the routes to the step relation of Service/Wallpaper/Interleaved.
-- - Startup: openDB and the first part of main in server/main.go, and RunMigrations of
--   server/migrate.go, up to the routes, with pgxpool, golang-migrate, which
--   changes the tables, and the AWS library as arguments.
-- - Seed: server/cmd/seed, which fills the tables and the store for development. Videos is its data,
--   Queries its SQL, Footage the download or generation of a video, Run the seeder and Command main.
--   It runs on the World and the Exec of the server, and its theorems use the same rules.
--
-- A request runs as one step after the other, without another request in between, except in
-- Service/Wallpaper/Interleaved, where the reads and the UPDATEs of several requests mix. A query is
-- atomic; Go's mutexes make the limiter and the cache atomic as well. Loops are structural recursion;
-- the only fuel is that of show_int, which has as much as the number it prints and one, more than the
-- number has digits.
--
-- Not modelled: the AWS client, the processes of ffmpeg and ffprobe, pgxpool and golang-migrate, which
-- are arguments of the code that calls them; the HTTP server with its shutdown, middleware of chi,
-- response headers and the limit on the size of a body, logs and generated API types, which have no
-- part in the state; the test doubles of the queries and the store; and the macOS application, which
-- is not Go.
pub mod Base
pub mod Types
pub mod Apperr
pub mod Db
pub mod Middleware
pub mod Strconv
pub mod Float64
pub mod Config
pub mod Server
pub mod Service
pub mod Respond
pub mod Handler
pub mod Routes
pub mod Video
pub mod Storage
pub mod Startup
pub mod Seed
pub mod Tests
