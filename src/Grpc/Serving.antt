-- ===== src/Grpc/Serving.antt =====
-- startServe, StopServe and Shutdown of mockgo-grpc/matchstore/matchstore.go and
-- mockgo-grpc/kvstore/kvstore.go: the gRPC server of a store, which a goroutine starts.
mod Tests
use mockgo_server.Prelude.{refl, ◌≡◌, String, ◌<>◌, Option, none, some, Result, ok, err}
use mockgo_server.Prelude.Int.{ℤ}
use mockgo_server.Config.{show_int}

-- How far the goroutine has come. The field `server` is nil until the server is made. After log.Fatalf the
-- program is over.
pub data Serving : Type 0 where
  unstarted : Serving
  made : Serving
  running : Serving
  stopped : Serving
  returned : Serving
  exited : String → Serving

-- The error of Serve on a server that was stopped before, as package grpc documents it.
abbrev pub server_stopped : String
server_stopped = "grpc: the server has been stopped"

-- `name` stands before the text of the error of Serve: it is empty for the match store.
module _ (name : String) (port : ℤ) where
  serve_failed : String → Serving
  serve_failed e = exited (name <> "can't listen to port " <> show_int port <> ": " <> e)

  -- startServe up to the call of Serve, with the result of net.Listen
  unfoldable pub make_server : Result (Unit {0}) → Serving → Serving
  make_server (err e) unstarted =
      exited ("can't create listening to port " <> show_int port <> ": " <> e)
  make_server (ok _) unstarted = made
  make_server listening s = s

  -- The call of Serve, which blocks
  unfoldable pub serve : Serving → Serving
  unfolding serve_failed
  serve made = running
  serve stopped = serve_failed server_stopped
  serve s = s

  -- An error that Serve returns while it runs
  unfoldable pub serve_returns : String → Serving → Serving
  unfolding serve_failed
  serve_returns e running = serve_failed e
  serve_returns e s = s

-- Shutdown and StopServe: GracefulStop, which panics where the field is nil, and lets Serve return without an
-- error where it runs.
unfoldable pub graceful_stop : Serving → Option Serving
graceful_stop unstarted = none
graceful_stop made = some stopped
graceful_stop running = some returned
graceful_stop s = some s

-- startServe of the match store, and of the key-value store with this id, with the result of net.Listen
unfoldable pub start_matchstore : ℤ → Result (Unit {0}) → Serving → Serving
unfolding make_server serve
start_matchstore port listening s = serve "" port (make_server "" port listening s)

abbrev pub storage_name : String → String
storage_name id = "kvstore " <> id <> ": "

unfoldable pub start_storage : String → ℤ → Result (Unit {0}) → Serving → Serving
unfolding make_server serve
start_storage id port listening s =
    serve (storage_name id) port (make_server (storage_name id) port listening s)

-- StopServe of the match store, and StopServe and Shutdown of the key-value store
unfoldable pub stop_serve : Serving → Option Serving
unfolding graceful_stop
stop_serve s = graceful_stop s

unfoldable pub storage_stop_serve : Serving → Option Serving
unfolding graceful_stop
storage_stop_serve s = graceful_stop s

unfoldable pub storage_shutdown : Serving → Option Serving
unfolding graceful_stop
storage_shutdown s = graceful_stop s

-- A store whose server could be made and serves can be shut down, once and again, and its goroutine ends
-- without an error.
graceful_stop-start :
    (id : String) (port : ℤ)
    → (graceful_stop (start_matchstore port (ok tt) unstarted) ≡ some returned)
      × (storage_shutdown (start_storage id port (ok tt) unstarted) ≡ some returned)
      × (graceful_stop returned ≡ some returned)
unfolding start_matchstore start_storage storage_shutdown
graceful_stop-start id port = (refl, refl, refl)
