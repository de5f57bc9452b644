-- ===== src/Starter/Mains/Capacity.antt =====
-- What MATCHES_CAPACITY means for the store that mockgo-standalone/cmd/mockgo/main.go makes.
use mockgo_server.Prelude.{ℕ, ◌%◌, ◌^◌, ◌<◌, String, ◌≡◌, ap, List, ok, ◌∙◌}
use mockgo_server.Prelude.Int.{pos}
use mockgo_server.Matches.{Mismatch}
use mockgo_server.Matches.Inmemory.{new_inmemory, get_matches}
use mockgo_server.Matches.Inmemory.Capacity.{last}
use mockgo_server.Matches.Inmemory.Log.{
  Call, empty_log, record_calls, serve_calls, get_matches-serve_calls,
}
use mockgo_server.Starter.{BasicConfiguration}
use mockgo_server.Starter.Mains.{uint16_of, standalone_stores}

-- The store keeps the last matches of an endpoint up to the remainder of the capacity modulo 2 ^ 16, where the
-- remainder is below 65535, whatever is recorded and deleted: none at all with a capacity of 65536.
pub standalone_stores-capacity :
    (basic : BasicConfiguration) (n : ℕ) (cs : List (Call ℕ Mismatch)) (id : String)
    → basic.matches_capacity ≡ pos n
    → n % 2 ^ 16 < 65535
    → (get_matches id (serve_calls (standalone_stores basic).0 cs)).0
      ≡ ok (last (n % 2 ^ 16) ((record_calls empty_log cs).matches id))
unfolding standalone_stores
standalone_stores-capacity basic n cs id h small =
    ap (λ c. (get_matches id (serve_calls (new_inmemory (uint16_of c)) cs)).0) h
    ∙ (get_matches-serve_calls (n % 2 ^ 16) small cs id).0
