-- ===== src/Grpc/Attempt.antt =====
-- What the calls of mockgo-grpc end with, and the loop of a write over the clients.
use mockgo_server.Prelude.{
  ℕ, String, ◌≡◌, refl, sym, ap, ◌∙◌, Option, none, some, List, [], ◌∷◌, All, Result, ok, err,
}
use mathlib.Core.Path.{subst}

-- A value, an error, or a panic, from which neither the program nor the gRPC server recovers.
pub data Attempt {ℓ} (A : Type ℓ) : Type ℓ where
  returned : A → Attempt A
  failed : String → Attempt A
  crashed : Attempt A

-- `if err != nil { return nil, err }`, and what comes behind it
abbrev pub if_returned {ℓ κ} : {A : Type ℓ} {B : Type κ} → Attempt A → (A → Attempt B) → Attempt B
if_returned (returned a) rest = rest a
if_returned (failed e) rest = failed e
if_returned crashed rest = crashed

abbrev pub call_of {ℓ} : {A : Type ℓ} → Result A → Attempt A
call_of (ok a) = returned a
call_of (err e) = failed e

-- A nil pointer that is dereferenced panics.
abbrev pub or_crash {ℓ} : {A : Type ℓ} → Option A → Attempt A
or_crash (some a) = returned a
or_crash none = crashed

module _ {C : Type 0} where
  pub after_call : Result (Unit {0}) × C → (C → Result (Unit {0}) × C) → Result (Unit {0}) × C
  after_call (err e, s) rest = (err e, s)
  after_call (ok _, s) rest = rest s

  -- The loop over the clients, which the first error ends.
  unfoldable pub call_all : (ℕ → C → Result (Unit {0}) × C) → List ℕ → C → Result (Unit {0}) × C
  unfolding after_call
  call_all call [] s = (ok tt, s)
  call_all call (i ∷ is) s = after_call (call i s) (λ s'. call_all call is s')

  pub after_call_ok :
      (x : Result (Unit {0}) × C) (rest : C → Result (Unit {0}) × C)
      → (after_call x rest).0 ≡ ok tt
      → (x.0 ≡ ok tt) × (after_call x rest ≡ rest x.1)
  unfolding after_call
  after_call_ok (err e, s) rest h = cc
  after_call_ok (ok _, s) rest h = (refl, refl)

module _ {C : Type 0} (call : ℕ → C → Result (Unit {0}) × C) (P : C → ℕ → Type 0)
    (made : (i : ℕ) (s : C) → (call i s).0 ≡ ok tt → P (call i s).1 i)
    (kept : (i j : ℕ) (s : C) → (call i s).0 ≡ ok tt → P s j → P (call i s).1 j) where
  call_all_keeps :
      (clients : List ℕ) (s : C)
      → (call_all call clients s).0 ≡ ok tt
      → All (P (call_all call clients s).1) clients
        × ((j : ℕ) → P s j → P (call_all call clients s).1 j)
  unfolding call_all
  call_all_keeps [] s done = (tt, λ j h. h)
  call_all_keeps (i ∷ is) s done =
      let (called, same) = after_call_ok (call i s) (λ s'. call_all call is s') done in
      let (all, keep) = call_all_keeps is (call i s).1 (ap (λ x. x.0) (sym same) ∙ done) in
      subst (λ x. All (P x.1) (i ∷ is) × ((j : ℕ) → P s j → P x.1 j)) (sym same)
        ((keep i (made i s called), all), λ j h. keep j (kept i j s called h))

  -- What a successful call makes true of its server, and no other successful call undoes, holds of all
  -- servers after all calls succeeded.
  pub call_all-All :
      (clients : List ℕ) (s : C)
      → (call_all call clients s).0 ≡ ok tt
      → All (P (call_all call clients s).1) clients
  call_all-All clients s done = (call_all_keeps clients s done).0
