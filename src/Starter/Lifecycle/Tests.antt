-- ===== src/Starter/Lifecycle/Tests.antt =====
-- A server of mockgo/starter/starter.go that gets a signal.
use mockgo_server.Prelude.{true, false, ◌≡◌, ◌⊎◌, refl, inl, err}
use mockgo_server.Starter.Lifecycle.{
  Life, started, match_store, matches_down, serving_started, shut_down, signal, serve, own, shut,
  Runs, here, then_step,
}
use mockgo_server.Starter.Lifecycle.Steps.{IsOrdered}
use mockgo_server.Starter.Lifecycle.Ends.{
  Runs-IsOrdered, Inevitable, CanCrash, Cancelled-Inevitable,
}

abbrev interrupted : Life
interrupted = record (serving_started started) { signalled = true }

-- The match store is down, and it could not be closed.
abbrev half_down : Life
half_down = shut_down match_store matches_down (err "closed") interrupted

run : Runs started half_down
run =
    then_step half_down
      (then_step interrupted
        (then_step (serving_started started) (here started) (own (serve started refl refl)))
        (signal (serving_started started) refl refl))
      (own (shut interrupted match_store matches_down (err "closed") refl (inl refl) refl refl))

Runs-IsOrdered_example : IsOrdered half_down
Runs-IsOrdered_example = Runs-IsOrdered half_down run

Cancelled-Inevitable_example :
    ((true ≡ true) × Inevitable half_down) ⊎ ((true ≡ false) × CanCrash half_down)
Cancelled-Inevitable_example = Cancelled-Inevitable half_down run (inl refl) refl
