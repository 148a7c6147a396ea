-- ===== src/Lib.antt =====
-- The Solvela Go client: a chat client that pays a gateway for each request it is asked to pay for.
--
-- A call of `Chat` (client.go) picks the model, looks up the session (session.go), asks the response
-- cache (cache.go), and otherwise sends the request (transport.go). If the gateway answers 402, the
-- client picks one of the offered payments, checks it against its configuration, has the signer sign
-- it and sends the request again with the signature. The answer goes through the quality check
-- (quality.go), which sends again a limited number of times, and then into the cache and the session.
--
-- The files and the code that they model:
--   Base                    lists, Boolean tests, integers and byte texts that all parts share
--   Types, Errors, Wire     types.go and errors.go: the types, the errors, the decoding methods;
--                             Errors/Text: the Error methods
--   Config                  config.go, constants.go: the defaults and the options, the caller's own as any
--                             function on the configuration
--   Strings, Base64, Http,  the functions of Go's standard library that the code calls and whose
--     Floats, Maps, Clock     results the theorems depend on, on bytes
--   Library                 those that are parameters: sha256, url.Parse, encoding/json
--   Amount                  client.go: parseAmount
--   Payment                 client.go: findCompatibleScheme, validatePayment, validateResourceOrigin
--   Url                     client.go: validateGatewayURL
--   Quality                 quality.go: CheckDegraded
--   Cache                   cache.go: ResponseCache, Get, Put
--   Sessions                session.go: SessionStore, GetOrCreate, RecordRequest, CleanupExpired
--   Keys                    cache.go: CacheKey; session.go: DeriveSessionID, DeriveSessionIDWithSalt
--   Exec                    the world that an action changes, and what it does outside the client
--   Transport               transport.go: SendChat, FetchModels
--   Stream                  transport.go: SendChatStream; client.go: synthesizeStreamFromResponse and the
--                             loop of ChatStream's goroutine
--   Balance                 balance.go: BalanceMonitor, poll; Client/Monitor: run, its goroutine beside
--                             the client that NewClient sets it on
--   Wallet                  wallet.go: Wallet; signer.go: UnimplementedSigner
--   Client                  client.go: signPaymentRequired, sendWithPayment,
--                             resolvePaymentSignature; Client/Chat: Chat; Client/Streams:
--                             ChatStream; Client/Construction: NewClient, Close;
--                             Client/Queries: Models, LastKnownBalance, String;
--                             Client/Life: any sequence of a client's calls;
--                             Client/Calls: calls of Chat at once
--   Smoke                   scripts/smoke/main.go: run
--   Tests                   concrete runs
-- The children of a part hold its theorems.
--
-- Text is a list of bytes. An int or int64 is a signed integer with no bound, a uint64 a natural
-- number (parse_amount keeps its bound), a float64 its 64 bits, a duration a number of nanoseconds,
-- an instant a number of nanoseconds on the process's clock. A map is an association list with one
-- entry to a key. An action takes a world and gives a result and a world: the client's fields that
-- change, and the history of readings of the clock, exchanges with the gateway, tests of the context
-- and calls of the signer. Each answer from outside is any function of the history so far. A reading
-- of the clock that the code makes on one branch only is made on all of them; the branches that do
-- not need it ignore it. The stores lock a mutex in every operation, so each operation is one step;
-- Client/Chat is one call of `Chat` by itself, and in Client/Calls any number of calls run at once, as
-- processes of such steps.
--
-- Nothing runs on fuel. The loop of the quality check recurs on the retries that are left, the
-- eviction loop on the order list that it shortens, every other loop on its list.
--
-- In a stream the code waits in `select`s for a receiver or for the end of the context. Whether the
-- context was alive at the n-th test, and whether the n-th item was taken, are functions that a
-- theorem takes as they come; the scanner that splits the body into lines is a parameter.
--
-- The goroutine of the balance monitor and the client's balance are one system whose steps are those
-- of the goroutine, of the ticker and of Stop, in any order; what holds the monitor's mutex is one
-- step, and so is each callback. What the caller's function answers is free in each poll.
--
-- The smoke test is modelled from the variable of the environment to the exit code, with one
-- constructor for each of its failures.
--
-- Not modelled: what fmt makes of the pieces of a text, the draining and closing of channels and
-- bodies, the memory that a wallet shares with the bytes that it was made of, and what the smoke test
-- prints.
pub mod Base
pub mod Types
pub mod Errors
pub mod Wire
pub mod Strings
pub mod Amount
pub mod Quality
pub mod Config
pub mod Url
pub mod Payment
pub mod Clock
pub mod Maps
pub mod Cache
pub mod Sessions
pub mod Base64
pub mod Http
pub mod Library
pub mod Exec
pub mod Transport
pub mod Stream
pub mod Client
pub mod Balance
pub mod Wallet
pub mod Smoke
pub mod Keys
pub mod Floats
pub mod Tests
