-- ===== src/Lib.antt =====
-- The BitBoxBase, a Bitcoin and Lightning full node: its middleware (middleware/src), which serves a
-- desktop app over a websocket, its supervisor (tools/bbbsupervisor), which watches logs and metrics
-- on the device, and two tools: the fan control (tools/bbbfancontrol) and the generator of the
-- configuration files (tools/bbbconfgen). They are Go programs that run shell scripts, read and write
-- Redis and query Prometheus.
--
-- How the parts interact. A client's message reaches a method of the RPC server
-- (middleware/src/rpcserver), which validates the token of the request and then calls one method of
-- the middleware (middleware/src/middleware.go, middleware/src/util.go). The middleware runs a
-- script, reads or writes Redis or queries Prometheus, and sends events on a channel; the handlers
-- (middleware/src/handlers) pass these events on to the connected clients, or queue them while there
-- is none. Before its first request, a client and the middleware agree on the ciphers of the channel
-- by a Noise handshake (middleware/src/noise), and the user confirms a new client by comparing a
-- hash on both screens. The supervisor is a process of its own: it turns log lines and metrics into events and
-- restarts units or changes the configuration. When a script has changed a value in Redis, it calls
-- the generator, which writes the configuration files of the services from their templates.
--
-- The files.
--   Base            texts as lists of bytes, with the functions of the Go packages strings, strconv
--                   and unicode that the code calls; integers, maps, Boolean tests, state passing.
--   Rpcmessages     middleware/src/rpcmessages: the messages (structs are records, a pointer is an
--                   Option) and the error codes with their texts.
--   Configuration   middleware/src/configuration: the arguments of the program, read-only.
--   System          what the middleware calls and does not implement: `System` is a record of
--                   calls over a type of worlds; its Keys are the Redis keys and the queries.
--   Middleware      middleware/src/middleware.go and middleware/src/util.go. State is the struct
--                   `Middleware` with a record of effects: the commands and Redis writes, the events
--                   sent, the delayed commands. Scripts runs commands (`runCommand`,
--                   `handleBBBScriptErrorCode`); Flashdrive has `mountFlashdrive` and the backup and
--                   restore methods; Hostname has `SetHostname` and `setHSMConfig`; Settings has the
--                   methods that toggle or set one thing; Auth has `UserAuthenticate` and
--                   `UserChangePassword`; Start has what `NewMiddleware` reads and writes;
--                   Download has `getBaseUpdateInfo`; Update has `UpdateBase`, `parseBaseUpdateStdout` and a round of
--                   `updateCheckLoop`; Info has `GetBaseInfo`, `GetServiceStatus`,
--                   `getServiceInfo`, `didServiceInfoChange` and `FinalizeSetupWizard`; Loops has
--                   `Start` and a round of `rpcLoop`; Pairing has `VerifyAppMiddlewarePairing`;
--                   Commands has lemmas on which commands each of these methods runs; Ipc is middleware/src/ipcnotification with
--                   `ipcNotificationLoop`.
--   RpcServer       middleware/src/rpcserver/rpcserver.go. Api is the Go interface `Middleware` as a
--                   record of operations, Methods the 28 methods over it, Dispatch a request as data
--                   with the method that serves it, Implementation the middleware as that record,
--                   Reachable the requests and the loops of the middleware as steps that take turns.
--   Authentication  middleware/src/authentication/authentication.go over the package jwt-go, the random
--                   bytes and the clock.
--   Redis           middleware/src/redis/redis.go over the package redigo, and in Mock
--                   middleware/src/redis/redis_mock.go. The middleware is modelled
--                   over the methods of the clients of Redis and Prometheus, in System. Kept has
--                   the laws on what is written, which allow every call to fail.
--   Prometheus      Client is middleware/src/prometheus/prometheus.go and Query is
--                   tools/bbbsupervisor/prometheus/prometheus.go, over HTTP and the package gjson.
--   Noise           middleware/src/noise/noise.go and the read loop of
--                   middleware/src/handlers/websocket.go: the handshake in the parts between the
--                   waits for the client and for the user, the static keys of the known clients in
--                   the file `base.json`, encryption and decryption by the ciphers agreed on.
--                   Interleaved has the steps of connections that run at the same time.
--   Handlers        middleware/src/handlers/handlers.go: the event queue and the clients, one step
--                   for each critical section of the mutex. Pumps has the goroutines with the read
--                   and write loops of middleware/src/handlers/websocket.go, which wait for the
--                   mutex and for each other, one step for each part between two waits.
--   Hsm             middleware/src/hsm/hsm.go over the serial port and the package bitbox02-api-go: the
--                   loops that wait for the firmware or the bootloader, with the rounds left as fuel
--                   that is counted down as the code counts up.
--   Supervisor      tools/bbbsupervisor/supervisor and tools/bbbsupervisor/watcher: Logs parses log
--                   lines, Handling has the event handlers, Polling the watcher of a metric with the
--                   supervisor's own Prometheus client, and its rounds and the events of the log
--                   watchers as steps that take turns, each handler as one step.
--   FanControl      tools/bbbfancontrol/bbbfancontrol.go: a round of the loop on 64-bit integers with
--                   wrap-around, and the loop over the temperatures that are read with all values
--                   that it writes to the fan.
--   ConfGen         tools/bbbconfgen/bbbconfgen.go. Patterns has the regular expressions, Template
--                   `parseTemplate`, Output `connectRedis`, `openOutputFile` and `main`.
--   Tests           runs at concrete inputs, on a small device that is written down in Tests/Demo.
--
-- How the code is modelled. A method is a function from the state to its result and the next state,
-- written in the order of the code, error paths included; a Go pair of a value and an error is a
-- pair of a value and an Option. A call of the outside world changes the world in an unknown way,
-- so that other processes may act between any two calls. A panic is a value of Outcome where the
-- code can panic. A goroutine that sleeps and then starts a command is an entry of `scheduled`.
-- Loops over lists are structural recursion. The fuel of the decimal notation in Base/Decimal is
-- the value, and a number has at most one digit more than that: the round trip of that file shows that
-- this is enough. The loops of Hsm count the rounds that are left, at most 30, as the code does.
--
-- What is not modelled: HTTP, websockets, the Noise library, JSON, JSON web tokens, bcrypt and the HSM's
-- protocol are calls of `System`, parameters, or left out; log output has no effect and is left out;
-- the loops that repeat a round with a pause are modelled by the round. Left out are the heartbeat to
-- the HSM, the creation of the named pipe, the processes that read the journal, the
-- table of system states, the flags of the programs and their `main`, but for that of the generator. The shell and Python scripts of the image are not modelled.
pub mod Base
pub mod Rpcmessages
pub mod Configuration
pub mod System
pub mod Middleware
pub mod RpcServer
pub mod Authentication
pub mod Redis
pub mod Prometheus
pub mod Noise
pub mod Handlers
pub mod Hsm
pub mod Supervisor
pub mod FanControl
pub mod ConfGen
pub mod Tests
