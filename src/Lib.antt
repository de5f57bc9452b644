-- ===== src/Lib.antt =====
-- mockgo-server: a server that answers HTTP requests as mock files say, records the requests that it
-- answers, and keeps a key-value store for the response templates.
--
-- The parts of the program and the files that model them:
--   Prelude, Prelude/*   what the other files share: Boolean tests, lists, Go maps as association
--                        lists, texts cut into segments, results and integers.
--   Http, Http/Writer    what the handlers use of Go's net/http: a request, whose body can be read
--                        once, and the response writer, in which the first status stays.
--   Http/Base64, Http/BasicAuth
--                        base64 and Request.BasicAuth of the standard library, for ASCII texts.
--   Util, Util/*         mockgo/util/http.go: the middlewares around a handler, WriteEntity and
--                        BasicAuth; mockgo/util/log.go (Util/Logging).
--   Kvstore, Kvstore/*   mockgo/kvstore/storage.go (Kvstore: the interface Storage and its in-memory
--                        implementation; Kvstore/Functions: the functions for templates) and
--                        mockgo/kvstore/requestHandler.go (Kvstore/Handlers, with the middlewares
--                        around them in Kvstore/Handled).
--   Matches, Matches/*   mockgo/matches/matchstore.go (Matches), inmemoryMatchstore.go
--                        (Matches/Inmemory) and requestHandler.go (Matches/Handlers).
--   Mock, Mock/*         mockgo/mock/model.go (Mock/Model, Mock/Tree) and mockgo/mock/requestHandler.go:
--                        registerEndpoint (Mock/Register), the loop of matchRequestToEndpoint
--                        (Mock/Search), matchSearchNode and what it calls (Mock/Select), renderResponse
--                        (Mock/Render), LoadFiles and handleReload (Mock/Load),
--                        AddRoutes (Mock/Routes) and RegisterMetrics (Mock/Metrics).
--   Redis, Redis/*       mockgo-redis/kvstore/kvstore.go and mockgo-redis/matchstore/matchstore.go, with
--                        their constructors (Redis/Connect).
--   Grpc, Grpc/*         mockgo-grpc/kvstore/kvstore.go (Grpc/Kvstore) and
--                        mockgo-grpc/matchstore/matchstore.go: the messages and the mapping to and
--                        from them (Grpc/Messages), the handlers and the operations
--                        (Grpc/Matchstore), the merge of the servers' answers (Grpc/Merge); the loop
--                        of a write over the clients (Grpc/Attempt); the constructors (Grpc/Connect) and the
--                        server of a store (Grpc/Serving).
--   Config, Config/*     the configurations of mockgo-grpc/cmd/mockgo/main.go and
--                        mockgo-redis/cmd/mockgo/main.go.
--   Starter, Starter/*   mockgo/starter/starter.go: the basic configuration (Starter), the state of the
--                        whole server and the packages that it uses (Starter/Server), the routes and
--                        the answer to a request (Starter/Routes; a path that is not clean, which mux
--                        answers itself, in Starter/Routes/Clean), the start (Starter/Setup, and
--                        with the loggers and handlers Starter/Start), and the end
--                        (Starter/Lifecycle); the stores of the functions main of
--                        mockgo-standalone, mockgo-grpc and mockgo-redis (Starter/Mains).
--   Testutil, Testutil/* mockgo/testutil/http.go and util.go.
--
-- How they interact: the tree of Mock/Tree is built by Mock/Register, walked by Mock/Search, and the
-- node that the walk ends at is what Mock/Select chooses an endpoint from; the choice is recorded in a
-- match store, which Mock/Select takes as a parameter of the interface of Matches; Mock/Render then
-- renders the response of the endpoint and puts its status in the match. Mock/Load builds a new tree
-- from the mock files by Mock/Register and replaces the old one. Mock/Routes runs the choice and the
-- rendering as the router does, for several requests whose steps interleave. The
-- handlers of Kvstore and Matches take their store as a parameter too, which can be the one in memory or
-- that of Redis. Starter puts these parts together: one state that the handlers of all routes share, and
-- a request that goes to the first route that accepts it, within the check of the credentials.
--
-- State is passed explicitly: an operation takes the state and returns it anew, also where it fails.
-- Go's `map` is an association list in which a write replaces an entry; nil and the empty map are told
-- apart where the code does. A pointer to a match is an index into a heap, since the response is
-- written into the match after the store was handed the pointer. A nil slice and an empty one are the same
-- empty list: that GetMatches over Redis returns the former, which is JSON's null, is not represented. The lengths that are converted to
-- uint16 and the counters of type uint64 are taken modulo 2 ^ 16 and 2 ^ 64.
--
-- Two loops run on fuel: that of matchRequestToEndpoint on two rounds more than the path has segments,
-- since a round moves on by a segment at least, and the merge over gRPC on one round more than there are
-- matches. Every other loop is structural.
--
-- What requests leave in the memory is specified as a journal of outcomes, one for each request: a match of an
-- endpoint or a mismatch (Mock/Routes/Outcomes, Recorded and Journal). It is used for matchers and handlers that
-- overlap (Mock/Routes/Overlapping), for the routes of the whole server (Starter/Routes/Noted), and for what the
-- API of a server that was started tells its clients (Starter/Setup/Recorded, Reported and Forgotten). What a
-- client of the key-value store is told rests on the laws of a storage in Kvstore/Storing (Starter/Routes/Addressed,
-- Spared and Remembered).
--
-- Calls of Put on the storages of mockgo-grpc and of Redis and on the one in memory are those of Kvstore/Written. The
-- calls over gRPC of which two Puts at the same time consist stand in Grpc/Kvstore/Calls and Crossing.
--
-- What is not modelled: what is logged; the packages zap, net/url, regexp, text/template, yaml, encoding/json,
-- prometheus, mux and go-redis and the file system, of which the definitions take what they use as parameters;
-- the time, which is an argument; the network and the listening of the servers; the registry of the metrics
-- beside RegisterMetrics. A call over gRPC that reads is taken to leave the state of its server as it is. An
-- endpoint has a request and a response: the nil dereference of a mock file without them is not represented.
pub mod Prelude
pub mod Http
pub mod Util
pub mod Kvstore
pub mod Matches
pub mod Mock
pub mod Redis
pub mod Grpc
pub mod Config
pub mod Starter
pub mod Testutil
