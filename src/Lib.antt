-- ===== src/Lib.antt =====
-- gof: a Go toolkit for services. This library models its JSON-RPC server, its caches with the tokens
-- that stand behind them, and its logging and shutdown utilities, and proves what they promise.
--
-- The parts, and how they work together:
--   * j2rpc/ is the server. `Register` turns an object's methods into callbacks (j2rpc/j2rpc.go,
--     j2rpc/callback.go), a request is checked, decoded, matched with middlewares and answered.
--     J2rpc/Names is `SnakeString`, `CamelString`, `snakePath` (j2rpc/functions.go,
--     j2rpc/middleware.go); J2rpc/Error is j2rpc/error.go; J2rpc/Http the request checks and the
--     writer; J2rpc/Message is j2rpc/message.go; J2rpc/Reflect stands for package reflect;
--     J2rpc/Callback is j2rpc/callback.go; J2rpc/Middleware is j2rpc/middleware.go and
--     j2rpc/option.go; J2rpc/Args the positional arguments of j2rpc/functions.go; J2rpc/Server is the
--     registration of j2rpc/j2rpc.go, and J2rpc/Server/Serve its handling of a request.
--   * g2util/: G2util/Level is g2util/level_logger.go; G2util/Retry is `Clamp` (g2util/math.go) and
--     `RetryDoTimes` (g2util/time.go); G2util/BackFile is the buffered log file of
--     g2util/auto_back_file.go, BackFile/Registry its registry of files and BackFile/Directories the
--     names of backups and the deletion of old ones; G2util/JsonTime is `JSONTime` (g2util/time.go);
--     G2util/Validator the rules of g2util/validator.go over Base/Regex; G2util/Crypto g2util/crypto.go;
--     G2util/Config g2util/config.go; G2util/JsonHelp g2util/json_help.go over Base/Base64;
--     G2util/Resty is the HTTP client's settings, g2util/resty.go; G2util/Small the functions of file.go,
--     template.go, cron.go and captcha.go; G2util/Exec/Inner the wrapper of a command of g2util/exec.go.
--     G2util/Graceful is g2util/graceful.go; G2util/GoPool
--     is g2util/goroutine.go. The modules Level/Make, Config/Access, JsonTime/Make, BackFile/Access,
--     Validator/Setup and Maps/Getters are how these objects are made and asked.
--   * g2cache/: G2cache/Store is the interface and the registry of g2cache/store/store.go;
--     G2cache/Backends are its implementations in g2cache/cachebig, cachego and cacheledis.
--     G2cache/Ristretto is g2cache/cacheristretto, a cache that may lose what it holds. G2cache/Ledis is
--     how g2cache/cacheledis opens its database, G2cache/Instance g2cache/cache.go.
--   * g2db/: G2db/Cache is the read-through cache of g2db/cache.go over a `Store`; G2db/Token is
--     g2db/token.go, which keeps tokens in Redis behind that cache. Its errors are `TokenError`, which
--     the server answers with code 401. G2db/Mysql is transactions and cached rows of g2db/mysql.go
--     with `HasError` of g2db/functions.go; G2db/Session is g2db/session.go, whose writes publish the
--     keys to drop; G2db/Redis is the subscription of g2db/redis.go, which takes those keys to the
--     caches; G2db/Query is g2db/mysql_query_rows.go. G2util/Maps is g2util/map.go, by which an update
--     merges beans. G2db/Conditions is the conditions of a bean (g2db/cache.go, `cacheBind`) and
--     compound indexes (g2db/mysql.go, `CompoundIndex`) over a bean's fields as reflect finds them;
--     G2db/Coherence joins them with the cache and the subscription, and G2db/Window puts the commit of a
--     write among them. G2db/Locker is the locks of g2db/atomic.go, and G2db/Cache/Atomic the calls of the
--     cache that run at once under them. G2db/Token/Options is the options and copies of a token,
--     G2db/Mysql/Model the base of the models and `Update`. G2db/Mysql/Sync is `sync` of g2db/mysql.go
--     with `initializeTables` of g2db/functions.go, and G2db/Mysql/Engine its dialling and migration.
--   * g2emq/: G2emq is g2emq/emq.go, and G2emq/Queue the channel of publications behind it: callers and
--     the goroutine are steps that may come in any order.
--   * g2cmd/: G2cmd is what the commands do, over the shell: G2util/Exec is g2util/exec.go. G2cmd/Flags is
--     their flags and workers, with the version of g2cmd/version.go.
--   * g2gin/: G2gin is g2gin/gin-handler.go, functions as handlers, which reads values by J2rpc/Reflect.
--     G2gin/Engine is `Run` of g2gin/g2gin.go with the middlewares of g2gin/middleware.go: it hangs the
--     handler of J2rpc/Server/Serve on the route `/jsonrpc`, and registers its servers with G2util/Graceful.
--     G2gin/LogLine is the line of its log.
--   * App is gof.go: App/Steps the monad of the start, App/Effects what each step registers, App/Startup
--     the composition with G2util/Graceful, App/Commands the commands of g2cmd/g2cmd.go.
--     Constructors run over the fields that G2util/Fields (g2util/reflect.go) finds.
--
-- Names and bytes: a Go string is a list of bytes or characters as numbers, a method of Go keeps its
-- name in snake case, a map is an association list, an `error` is a value, a panic is an outcome of
-- its own (`Outcome`). Code that changes a state takes it and gives it back: the writer of a response
-- in J2rpc, the world of caches and of Redis in G2cache and G2db. Base holds what the parts share,
-- Fault the errors of the caches and of the database.
--
-- Parameters: what the code takes from other packages is an argument of the definitions: reflect,
-- JSON, media types and regular expressions (`Libraries`), the cache clients (`Client`), Redis and
-- encryption (`Redis`, `Codec`), package time (`Clock`), the shell (`Shell`), viper, gin (`Gin`), the
-- client library of ledis (`Library`), xorm (`Transactions`, `Beans`, `Rows`, `Driver`, `Sql`, `Ddl`,
-- `Xorm`), and the order in which a map is ranged over (`Iteration`). The laws that a theorem needs of
-- them are records (`IsClient`, `IsRedis`, `IsCodec`, `IsStore`, `IsTransactional`, `IsJson`,
-- `IsLossyStore`, `IsIteration`, `IsNaming`, `IsSql`, `IsCounting`, `IsKeeping`, `IsGin`),
-- which the modules of tests fill with tables.
--
-- Bounds and fuel: `retry_loop` runs on fuel, which is the clamped number of attempts, at
-- most 20, and the loop makes no more attempts than that. `replace_loop` (Base/Replace) has the length of
-- the text as fuel, and each of its rounds takes at least a byte away; `digits` (Base/Decimal) has one
-- more than the number, and each of its rounds divides it by ten. All other loops go down
-- their lists. Sizes and times are natural numbers without an upper bound, ids and codes are integers
-- without one.
--
-- Not modelled: the rounding of floating point numbers (g2util/math.go, g2util/number.go), which antt has
-- no type for; the lower case of letters outside ASCII (`strings.ToLower` in j2rpc/functions.go is taken
-- byte by byte); how long the releases of a shutdown may take; the timeouts of HTTP servers and the
-- writers of gin; random numbers, tickers, uuids and the aliases of JSON libraries in json/, which are
-- single calls of libraries; what loggers print; and what locks exclude, beyond BackFile/Race and
-- G2db/Cache/Atomic.
pub mod Base
pub mod J2rpc
pub mod G2util
pub mod Fault
pub mod G2cache
pub mod G2db
pub mod App
pub mod G2cmd
pub mod G2emq
pub mod G2gin
