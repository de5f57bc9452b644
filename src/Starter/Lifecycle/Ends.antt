-- ===== src/Starter/Lifecycle/Ends.antt =====
-- How a server of mockgo/starter/starter.go ends.
use mockgo_server.Prelude.{
  ℕ, zero, suc, ◌<◌, ◌≡◌, refl, ap, arith, ◌⊎◌, inl, inr, true, false, Bool-cases, some, ok,
}
use mockgo_server.Starter.Lifecycle.{
  Part, match_store, key_value_store, http_server, Stage, waiting, matches_down, stores_down,
  all_down, next_part, Phase, to_start, listening, returned, is_set, Life, started, Cancelled,
  can_shut, shut_down, Own, serve, closed, shut, panics, Step, own, Runs, here, then_step, Exited,
}
use mockgo_server.Starter.Lifecycle.Steps.{
  IsOrdered, Step-IsOrdered, Step-Cancelled, rank, Step-rank, IsDown, Runs-IsDown, Step-IsDown,
  IsUp, Step-IsUp, can_shut-set,
}

-- At every time after the start, the parts that were shut down are the match store, the key-value store and the
-- HTTP server, in this order and each once at most; and none was before a signal came or a function of the group
-- returned an error.
pub Runs-IsOrdered : (l : Life) → Runs started l → IsOrdered l
Runs-IsOrdered l (here _) = (refl, inl refl)
Runs-IsOrdered l (then_step k run step) = Step-IsOrdered step (Runs-IsOrdered _ run)

-- The group ends, whatever steps are taken and whether or not anything comes from outside: it has ended, or one
-- of its goroutines has a step and every possible step leads to such a state.
pub data Inevitable : Life → Type 0 where
  ended : (l : Life) → Exited l → Inevitable l
  steps : (l k : Life) → Own l k → ((m : Life) → Step l m → Inevitable m) → Inevitable l

-- A state that has not exited has a step of a goroutine, once the context is done.
next_step : (l : Life) → Cancelled l → IsUp l → IsDown l → Exited l ⊎ ((k : Life) × Own l k)
next_step l c (set, live) down = at l.stage refl
  where
    shut_next :
        (part : Part) (stage : Stage)
        → next_part l.stage ≡ some (part, stage)
        → (k : Life) × Own l k
    shut_next part stage h = (_, shut l part stage (ok tt) live c h (can_shut-set part l.phase set))

    serving :
        (phase : Phase) → l.phase ≡ phase → l.stage ≡ all_down → Exited l ⊎ ((k : Life) × Own l k)
    serving to_start h last = inr (_, serve l live h)
    serving listening h last = inr (_, closed l live h (down last).0)
    serving returned h last = inl (h, last, live)

    at : (stage : Stage) → l.stage ≡ stage → Exited l ⊎ ((k : Life) × Own l k)
    at waiting h = inr (shut_next match_store matches_down (ap next_part h))
    at matches_down h = inr (shut_next key_value_store stores_down (ap next_part h))
    at stores_down h = inr (shut_next http_server all_down (ap next_part h))
    at all_down h = serving l.phase refl h

Inevitable-within : (n : ℕ) (l : Life) → rank l < n → Cancelled l → IsUp l → IsDown l → Inevitable l
Inevitable-within zero l small c up down = absurd (omega arith)
Inevitable-within (suc n) l small c up down = elim (next_step l c up down) [
  | inl done ↦ ended l done
  | inr (k, step) ↦ steps l k step λ m move.
      Inevitable-within n m (omega (arith, Step-rank move)) (Step-Cancelled move c)
        (Step-IsUp move up) (Step-IsDown move down)
]

-- A run that ends the process by a panic.
abbrev pub CanCrash : Life → Type 0
CanCrash l = (k : Life) × Runs l k × (k.is_crashed ≡ true)

-- The three shutdowns in a row, while DefaultServing has not set the server: the third one panics.
crash :
    (l : Life) → Cancelled l → l.is_crashed ≡ false → is_set l.phase ≡ false → IsDown l → CanCrash l
crash l c live unset down = from_stage l.stage refl
  where
    last :
        {k : Life} (m : Life)
        → Runs k m
        → Cancelled m
        → m.is_crashed ≡ false
        → is_set m.phase ≡ false
        → m.stage ≡ stores_down
        → CanCrash k
    last m run c' live' unset' h = (
      record m { is_crashed = true },
      then_step (record m { is_crashed = true }) run
          (own (panics m http_server all_down live' c' (ap next_part h) unset')),
      refl,
    )

    close :
        (m : Life) (part : Part) (stage : Stage)
        → can_shut part m.phase ≡ true
        → next_part m.stage ≡ some (part, stage)
        → Cancelled m
        → m.is_crashed ≡ false
        → Step m (shut_down part stage (ok tt) m)
    close m part stage safe h c' live' = own (shut m part stage (ok tt) live' c' h safe)

    second :
        (m : Life)
        → Runs l m
        → Cancelled m
        → m.is_crashed ≡ false
        → is_set m.phase ≡ false
        → m.stage ≡ matches_down
        → CanCrash l
    second m run c' live' unset' h =
        let step = close m key_value_store stores_down refl (ap next_part h) c' live' in
        last (shut_down key_value_store stores_down (ok tt) m)
          (then_step (shut_down key_value_store stores_down (ok tt) m) run step)
          (Step-Cancelled step c') live' unset' refl

    from_stage : (stage : Stage) → l.stage ≡ stage → CanCrash l
    from_stage waiting h =
        let step = close l match_store matches_down refl (ap next_part h) c live in
        second (shut_down match_store matches_down (ok tt) l)
          (then_step (shut_down match_store matches_down (ok tt) l) (here l) step)
          (Step-Cancelled step c) live unset refl
    from_stage matches_down h = second l (here l) c live unset h
    from_stage stores_down h = last l (here l) c live unset h
    from_stage all_down h = ground (arith, (down h).1, unset)

-- At every time after the start, once a signal came or a function of the group returned an error, and if no panic
-- ended the process: if DefaultServing has set the variable `server`, both functions of the group return after finitely
-- many steps and without a panic, whatever comes from outside and whatever the calls of the shutdowns return, if they
-- return; all parts are shut down then. If it has not set it yet, there is a run in which DefaultShutdown panics on
-- the nil server.
pub Cancelled-Inevitable :
    (l : Life)
    → Runs started l
    → Cancelled l
    → l.is_crashed ≡ false
    → ((is_set l.phase ≡ true) × Inevitable l) ⊎ ((is_set l.phase ≡ false) × CanCrash l)
Cancelled-Inevitable l run c live = elim (Bool-cases (is_set l.phase)) [
  | inl set ↦
      inl (set, Inevitable-within (suc (rank l)) l (omega arith) c (set, live) (Runs-IsDown l run))
  | inr unset ↦ inr (unset, crash l c live unset (Runs-IsDown l run))
]
