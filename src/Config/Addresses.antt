-- ===== src/Config/Addresses.antt =====
-- The addresses of the cluster in mockgo-grpc/cmd/mockgo/main.go.
use mockgo_server.Prelude.{
  contains_char-between, ap, suc, String, ◌≡◌, refl, true, List, [], ◌∷◌, All, length,
  contains_char, Bool-cases, inl, inr,
}
use mockgo_server.Prelude.Int.{ℤ}
use mockgo_server.Config.{create_addresses, show_int}

-- Each hostname gives one address, and every address has a colon.
create_addresses-All :
    (hosts : List String) (port : ℤ)
    → (length (create_addresses hosts port) ≡ length hosts)
      × All (λ address. contains_char address b':' ≡ true) (create_addresses hosts port)
unfolding create_addresses
create_addresses-All [] port = (refl, tt)
create_addresses-All (host ∷ hosts) port =
    let (count, all) = create_addresses-All hosts port in
    elim (Bool-cases (contains_char host b':')) [
      | inl has ↦ rw has (ap suc count, (has, all))
      | inr without ↦ rw without (ap suc count, (contains_char-between host (show_int port), all))
    ]
