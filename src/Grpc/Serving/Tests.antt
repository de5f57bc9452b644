-- ===== src/Grpc/Serving/Tests.antt =====
-- The shutdown of a store whose goroutine has not run yet, or not far enough.
use mockgo_server.Prelude.{◌≡◌, refl, none, some, ok}
use mockgo_server.Prelude.Int.{pos}
use mockgo_server.Prelude.Decimal.{itoa}
use mockgo_server.Grpc.Serving.{exited, unstarted, make_server, serve, stopped, graceful_stop}

-- The field is nil: the shutdown panics.
stop_early : graceful_stop unstarted ≡ none
unfolding graceful_stop
stop_early = refl

-- The server is made but does not serve yet: Serve fails then, and log.Fatalf ends the program.
stop_before_serve :
    (graceful_stop (make_server "" (pos 50051) (ok tt) unstarted) ≡ some stopped)
    × (serve "" (pos 50051) stopped
        ≡ exited "can't listen to port 50051: grpc: the server has been stopped")
unfolding graceful_stop make_server serve itoa
stop_before_serve = (refl, refl)
