-- ===== src/Lib.antt =====
-- The back end for the portal's browser application (signbyte-bff): it keeps the browser's session on
-- the server, and composes the document, envelope, signing and preview services on the user's behalf.
--
-- A browser signs in at the Auth Service. The flow is parked under a key that binds it to the browser
-- (session/session.go), the return redeems it and a session is stored; the browser holds its id in a
-- cookie. Each later request passes the gate of routes/middleware.go, gets a fresh access token, and is
-- answered from calls to the composed services, each with the user's subject and token.
--
-- Base, with its children: shared types, Go's maps as association lists, the order of texts, `int`.
-- Errors: the errors that the code tells apart, and results.
-- Session: session/session.go. Session.Interface is the interface `Store` with its contract IsStore;
-- Session.Memory is session/memory.go and Session.Redis session/redis.go; Session.Keys holds FlowKey,
-- MarshalKey and ParseKey. Laws modules hold the proofs.
-- Server: what a request meets (the record Env: clock, random source, services, Auth Service, encodings,
-- configuration), and the effects it has. Server.Monad is the type of a handler: an action on the store
-- and on the trace of effects, which returns a value, has replied or has panicked; an early return
-- of the source is a reply, and the use of a client that is not there a panic. Server.Safe has the rules by
-- which a property is carried through a handler.
-- Server.Public has what an anonymous request meets (PublicEnv), Server.Files the files of a form.
-- Clients: Types has the structs of clients/envelope.go, clients/document.go and clients/signflow.go;
-- Calls is clients/clients.go; Envelope, Document, Signflow, Preview and Verify have one function for each
-- operation of these files; Zero has the zero values that an empty body leaves;
-- Offer is `OfferedFlows` of clients/offer.go, Offer.Reads the reads that it remembers (also
-- clients/signinmethods.go).
-- Answers: anscache.go. Answers is the interface AnswerCache with its contract IsAnswerCache;
-- Answers.Memory and Answers.Redis are the two caches. Audit: audit/audit.go and audit/verify.go.
-- Routes.Relay: relayErr and redirectWithError of routes/router.go. Routes.Token: applyTokens, freshToken
-- (routes/session.go) and onBehalf (routes/documents.go). Routes.Cookies: routes/cookies.go. Routes.Gate:
-- routes/middleware.go. Routes.Login: loginStart and loginCallback. Routes.Account: me, refresh, logout.
-- Routes.Documents, Routes.Uploads (uploadDocument), Routes.Envelopes, Routes.EnvelopeView (getEnvelope),
-- Routes.Sign (signEnvelopeSlot), Routes.Signing and Routes.Previews: the handlers of routes/documents.go,
-- routes/envelope.go, routes/signing.go and routes/preview.go. Routes.Validations: routes/anscache.go and
-- the two handlers that use it. Routes.Dashboard: routes/dashboard.go. Routes.Verify: `inflightGate` of
-- routes/verify.go, Routes.Verify.Handler its handler. Routes.Public: the public route of a verification
-- with its limiter and its event (routes/router.go), routes/health.go and routes/signinmethods.go.
-- Routes.Table: the routes of routes/router.go that a session has.
-- App: `init` of app.go, with the settings of config.go that it reads (App.Config). The parts that it
-- builds or leaves out are what Env and PublicEnv say is configured. App.Poster: auditposter.go.
-- Routes.Delegation, Routes.Closes, Routes.Quiet and the modules below the handlers hold proofs. Tests has
-- runs at concrete inputs.
--
-- A step-indexed field of Env is an oracle: its answer may differ at every step, so nothing is assumed of
-- the services. Times are in nanoseconds, and 0 is Go's zero time; an expiry is computed with the 64-bit
-- wrap of time.Duration written out. A decoded body is an argument of its handler, an error where the
-- decoding or validation refuses it. Every loop is over a list, so no fuel is needed. A request runs
-- alone: the store's operations are atomic in the source, and two requests of one session that refresh
-- at once are not interleaved here.
--
-- A cache of answers works on the same state as the session store (with Redis they share one server), and
-- its operations are atomic too. An upload is a list of bytes and the position at which reading it fails;
-- sizes are below 2 ^ 63 - 1, so that the limit plus one does not wrap. A multipart body is kept as its
-- parts.
--
-- The keys of `inflightGate` are values here. In the source a key is a view over a request's buffer, which
-- keeps its text until that request ends; under a cap of one an entry is made and dropped by one request, so
-- that this makes no difference. The flows that `me` reads from OfferedFlows are an argument of it.
--
-- Not modelled: binding and validating the environment (config.go), the start and the stop of the process
-- (app.go, cmd/), the outbox of undelivered access records (audit/drain.go), the rate
-- limiter itself, and logging.
pub mod Base
pub mod Errors
pub mod Session
pub mod Answers
pub mod Server
pub mod Clients
pub mod Audit
pub mod Routes
pub mod App
pub mod Tests
