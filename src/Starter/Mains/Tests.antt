-- ===== src/Starter/Mains/Tests.antt =====
-- The store of mockgo-standalone/cmd/mockgo/main.go with a capacity of 65536, which keeps no match.
use mockgo_server.Prelude.{ℕ, ◌≡◌, refl, List, [], ◌∷◌, ok, arith}
use mockgo_server.Prelude.Int.{pos}
use mockgo_server.Matches.{Mismatch}
use mockgo_server.Matches.Inmemory.{get_matches}
use mockgo_server.Matches.Inmemory.Log.{Call, matched, serve_calls}
use mockgo_server.Starter.{BasicConfiguration}
use mockgo_server.Starter.Samples.{config}
use mockgo_server.Starter.Mains.{standalone_stores}
use mockgo_server.Starter.Mains.Capacity.{standalone_stores-capacity}

abbrev large : BasicConfiguration
large = record config { matches_capacity = pos 65536 }

abbrev calls : List (Call ℕ Mismatch)
calls = matched "a" 0 ∷ matched "a" 1 ∷ []

standalone_stores-capacity_example :
    (get_matches "a" (serve_calls (standalone_stores large).0 calls)).0 ≡ ok []
standalone_stores-capacity_example =
    standalone_stores-capacity large 65536 calls "a" refl (omega arith)
