-- ===== src/Starter/Lifecycle/Steps.antt =====
-- What a step of the group of mockgo/starter/starter.go keeps, and the number of the steps that are left.
use mockgo_server.Prelude.{
  ℕ, suc, ◌+◌, ◌<◌, String, ◌≡◌, refl, ap, sym, ◌∙◌, arith, ◌⊎◌, inl, inr, Bool, true, false, List,
  [], ◌∷◌, ◌++◌, Option, none, some, Result, ok, err,
}
use mockgo_server.Starter.Lifecycle.{
  Part, match_store, key_value_store, http_server, Stage, waiting, matches_down, stores_down,
  all_down, next_part, Phase, to_start, listening, returned, is_set, Life, started, note_error,
  group_result, Cancelled, can_shut, closes, Own, serve, closed, shut, panics, Step, own, signal,
  failed, Runs, here, then_step,
}

-- The parts that are down at a stage, in the order in which they were shut down.
abbrev pub parts_down : Stage → List Part
parts_down waiting = []
parts_down matches_down = match_store ∷ []
parts_down stores_down = match_store ∷ key_value_store ∷ []
parts_down all_down = match_store ∷ key_value_store ∷ http_server ∷ []

-- The parts are shut down once each and in their order, and only if the context is done.
abbrev pub IsOrdered : Life → Type 0
IsOrdered l = (l.calls ≡ parts_down l.stage) × ((l.stage ≡ waiting) ⊎ Cancelled l)

parts_down_next :
    (stage next : Stage) (part : Part)
    → next_part stage ≡ some (part, next)
    → parts_down stage ++ part ∷ [] ≡ parts_down next
parts_down_next waiting next part h = cc
parts_down_next matches_down next part h = cc
parts_down_next stores_down next part h = cc
parts_down_next all_down next part h = cc

note_error-some :
    (done : Result (Unit {0})) (first : Option String)
    → ((e : String) × (first ≡ some e))
    → (e : String) × (note_error done first ≡ some e)
note_error-some (ok _) first h = h
note_error-some (err new) none (e, h) = (new, refl)
note_error-some (err new) (some old) h = (old, refl)

Own-Cancelled : {l k : Life} → Own l k → Cancelled l → Cancelled k
Own-Cancelled (serve l up h) c = c
Own-Cancelled (closed l up h down) (inl s) = inl s
Own-Cancelled (closed l up h down) (inr e) =
    inr (note_error-some (err "http: Server closed") l.first_error e)
Own-Cancelled (shut l part stage done up d h safe) (inl s) = inl s
Own-Cancelled (shut l part stage done up d h safe) (inr e) =
    inr (note_error-some (group_result part done) l.first_error e)
Own-Cancelled (panics l part stage up d h bad) c = c

pub Step-Cancelled : {l k : Life} → Step l k → Cancelled l → Cancelled k
Step-Cancelled (own step) c = Own-Cancelled step c
Step-Cancelled (signal l up h) c = inl refl
Step-Cancelled (failed l e up h) (inl s) = inl s
Step-Cancelled (failed l e up h) (inr first) = inr (note_error-some (err e) l.first_error first)

-- The context stays done, if the goroutine that shuts down has begun.
still :
    {l k : Life} (stage : Stage)
    → Step l k
    → (stage ≡ waiting) ⊎ Cancelled l
    → (stage ≡ waiting) ⊎ Cancelled k
still stage step (inl w) = inl w
still stage step (inr c) = inr (Step-Cancelled step c)

Own-IsOrdered : {l k : Life} → Own l k → IsOrdered l → IsOrdered k
Own-IsOrdered (serve l up h) (calls, at) = (calls, still l.stage (own (serve l up h)) at)
Own-IsOrdered (closed l up h down) (calls, at) =
    (calls, still l.stage (own (closed l up h down)) at)
Own-IsOrdered (shut l part stage done up d h safe) (calls, at) = (
  ap (λ x. x ++ part ∷ []) calls ∙ parts_down_next l.stage stage part h,
  inr (Own-Cancelled (shut l part stage done up d h safe) d),
)
Own-IsOrdered (panics l part stage up d h bad) (calls, at) = (calls, at)

pub Step-IsOrdered : {l k : Life} → Step l k → IsOrdered l → IsOrdered k
Step-IsOrdered (own step) at = Own-IsOrdered step at
Step-IsOrdered (signal l up h) (calls, at) = (calls, inr (inl refl))
Step-IsOrdered (failed l e up h) (calls, at) = (calls, still l.stage (failed l e up h) at)

-- The steps that are left.
abbrev pub stage_rank : Stage → ℕ
stage_rank waiting = 3
stage_rank matches_down = 2
stage_rank stores_down = 1
stage_rank all_down = 0

abbrev pub open_bit : Bool → ℕ
open_bit true = 0
open_bit false = 1

abbrev pub phase_rank : Phase → ℕ
phase_rank to_start = 2
phase_rank listening = 1
phase_rank returned = 0

abbrev pub rank : Life → ℕ
rank l = open_bit l.signalled + phase_rank l.phase + stage_rank l.stage + open_bit l.is_crashed

stage_rank_next :
    (stage next : Stage) (part : Part)
    → next_part stage ≡ some (part, next)
    → stage_rank stage ≡ suc (stage_rank next)
stage_rank_next waiting next part h = cc
stage_rank_next matches_down next part h = cc
stage_rank_next stores_down next part h = cc
stage_rank_next all_down next part h = cc

Own-rank : {l k : Life} → Own l k → rank k < rank l
Own-rank (serve l up h) = rw h (omega arith)
Own-rank (closed l up h down) = rw h (omega arith)
Own-rank (shut l part stage done up d h safe) = omega (arith, stage_rank_next l.stage stage part h)
Own-rank (panics l part stage up d h bad) = rw up (omega arith)

pub Step-rank : {l k : Life} → Step l k → rank k < rank l
Step-rank (own step) = Own-rank step
Step-rank (signal l up h) = rw h (omega arith)
Step-rank (failed l e up h) = rw h (omega arith)

-- Where all parts are down, the HTTP server is, and its variable was set.
abbrev pub IsDown : Life → Type 0
IsDown l = l.stage ≡ all_down → (l.is_server_down ≡ true) × (is_set l.phase ≡ true)

last_part :
    (stage next : Stage) (part : Part)
    → next_part stage ≡ some (part, next)
    → next ≡ all_down
    → part ≡ http_server
last_part waiting next part h last = cc
last_part matches_down next part h last = cc
last_part stores_down next part h last = cc
last_part all_down next part h last = cc

pub Step-IsDown : {l k : Life} → Step l k → IsDown l → IsDown k
Step-IsDown (own (serve l up h)) down last = ((down last).0, refl)
Step-IsDown (own (closed l up h set)) down last = (set, refl)
Step-IsDown (own (shut l part stage done up d h safe)) down last =
    let same = last_part l.stage stage part h last in
    (ap (λ x. closes x l.is_server_down) same, sym (ap (λ x. can_shut x l.phase) same) ∙ safe)
Step-IsDown (own (panics l part stage up d h bad)) down last = down last
Step-IsDown (signal l up h) down last = down last
Step-IsDown (failed l e up h) down last = ((down last).0, refl)

pub Runs-IsDown : (l : Life) → Runs started l → IsDown l
Runs-IsDown l (here _) last = cc
Runs-IsDown l (then_step k run step) last = Step-IsDown step (Runs-IsDown _ run) last

-- The variable of the server is set, and no panic ended the process.
abbrev pub IsUp : Life → Type 0
IsUp l = (is_set l.phase ≡ true) × (l.is_crashed ≡ false)

pub can_shut-set : (part : Part) (phase : Phase) → is_set phase ≡ true → can_shut part phase ≡ true
can_shut-set match_store phase h = refl
can_shut-set key_value_store phase h = refl
can_shut-set http_server phase h = h

pub Step-IsUp : {l k : Life} → Step l k → IsUp l → IsUp k
Step-IsUp (own (serve l up h)) (set, live) = (refl, live)
Step-IsUp (own (closed l up h down)) (set, live) = (refl, live)
Step-IsUp (own (shut l part stage done up d h safe)) is = is
Step-IsUp (own (panics l part stage up d h bad)) (set, live) =
    ground (arith, can_shut-set part l.phase set, bad)
Step-IsUp (signal l up h) is = is
Step-IsUp (failed l e up h) (set, live) = (refl, live)
