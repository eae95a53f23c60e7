-- ===== src/Lib.antt =====
-- A model of dfl: the packages http, http/version, events and db/pgxdb, with the theorems that make
-- them correct. Paths are from the repository's root.
--
-- Parts. Every package works on Go errors, which GoErrors models as a tree: plain errors with an
-- address, errors that wrap one error or several, and the error types of the packages. errors.Is and
-- errors.As are searches of that tree. Base holds the shared lists, texts, maps and decimals.
--
--   Http/ReqError   http/reqerr.go: ReqError, its status, DefaultCoercer
--   Http/Wire       what net/http and log/slog keep: the request, the response being written, the log
--   Http/Router     http/http.go and http/logger.go: writeJSON, DefaultErrorWriter, combineChain,
--                   applyMiddleware, Router.HandleFunc, Group and Use
--   Http/Parser     http/parser.go: the schema that reflection shows (Schema), the setters and the
--                   machine integers they store (Numbers), the binding plan and the cache of plans
--                   (Plan), binding a request and Parse (Bind)
--   Http/Adapt      http/adapt.go and Router.Handle: typed handlers
--   Http/Cher       http/cher/cher.go: the coercer for cher errors
--   Http/Oops       http/oops/oops.go: the coercer for oops errors
--   Http/Middleware http/middleware.go: Recoverer, RequestMeta, the fallback handlers
--   Version/Scheme  http/version/version.go: Scheme with the laws of its order, and Sequential
--   Version/Search  slices.BinarySearchFunc and slices.Insert, as the standard library defines them
--   Version/Resolver  http/version/resolver.go, source.go and context.go
--   Version/Endpoint  http/version/endpoint.go: HandleFunc, Withdraw, pick and Serve
--   Version/Registrar http/version/registrar.go: the declarations, Build and Latest
--   Version/Typed   the typed Handle of endpoint.go and registrar.go in http/version
--   Events/EventError  events/eventerr.go, and IsNotFound of events/retry.go
--   Events/Retry    events/retry.go: Retry, its policy, backoff and exhausted actions
--   Events/Dispatcher  events/dispatcher.go and events/mem.go
--   Events/Bus      events/events.go, codec.go, validate.go, logger.go: On and Emit
--   Events/Setup    the options and the construction of the bus, and the name of an event type
--   Events/Endpoint events/endpoint.go: an event's handler as an HTTP route
--   Events/Headers  the headers of an envelope as one text, which three transports share
--   Events/Push     the answer of a push sink to a dispatch, which three transports share
--   Events/Sqs      events/aws/sqs/sqs.go: Publish, handle, ReceiveOnce and Receive
--   Events/Sns      events/aws/sns/sns.go: the publisher and the push sink with its handshake
--   Events/Eventbridge  events/aws/eventbridge/eventbridge.go: the publisher and the push sink
--   Events/Pubsub   events/gcp/pubsub/pubsub.go: the publishers, the pull sink and the push sink
--   Pgxdb/Errors    db/pgxdb/errors.go: the classes of driver errors
--   Pgxdb/Tx        db/pgxdb/pgxdb.go and context.go: transactions and the serializable retry loop
--   Pgxdb/Rows      db/pgxdb/pgxdb.go: Get, Scalar and Select
--
-- How they interact. A version endpoint's Serve is a handler of the http router, and its errors go
-- through the router's coercer and error writer. A bus subscription runs under the bus's middleware,
-- of which Retry is one, on whatever sink carries it: each transport hands the envelope of a message to
-- its Dispatcher, whose error decides whether the message is acknowledged. A typed handler is adapted by
-- the request parser and stands on the router as any other; an event's endpoint is such a handler. The serializable retry loop decides by the class
-- of the error that the transaction runner returns.
--
-- Conventions. A handler takes the world (response and log, or database and log) and returns its result
-- with the new world. A nil error is `none`. A Go panic in a registration is `none`; a panic of a
-- handler or a transaction body is an outcome of its own, which recover sees. The error writer panics where
-- net/http refuses a status and where a MarshalJSON in the encoded error panics. Third-party code is a
-- parameter: the JSON encoder and decoder, the codec's hooks, the cloud clients, the timer, the pool of
-- pgx, the SQLSTATE codes, what errors.AsType finds of the libraries cher and oops. Reflection gives way
-- to a schema: a struct type is the list of its fields, each with its type and its tags. A text is a sequence of characters; a time.Duration is its 64-bit pattern.
--
-- Bounds. The binary search runs on fuel, one more than the length of the list, of which each round
-- uses one and halves the interval. Printing a number runs on fuel, one more than the number. Retry
-- runs on the rounds left, as many as the policy has attempts, and the serializable loop on one more
-- than the retries: each breaks at its last attempt. The Receive of
-- Sqs runs for a number of rounds, `none` standing for a run that has not returned; how many rounds are
-- enough is stated against a clock on the world that the calls of the queue move on.
--
-- Not modelled. The scheme Dates, which stands on time.Parse, and Ordered, which stands on its caller; the
-- opening of a pool, which only calls pgx; the OpenTelemetry plugin, which calls an SDK outside the
-- repository; the interleaving of goroutines, of the in-memory sink and of a Pub/Sub pull; the deadline of
-- a context that is detached for a delete; a SuccessStatus outside 200 to 999; a coercer of the user's
-- that panics; texts that are not valid UTF-8; nil handlers passed to HandleFunc. A field whose type embeds another struct is
-- one field; the number that ParseFloat reads is a parameter, and so is what a custom setter,
-- UnmarshalText or json.Unmarshal makes of a text.
pub mod Base
pub mod GoErrors
pub mod Http
pub mod Version
pub mod Events
pub mod Pgxdb
