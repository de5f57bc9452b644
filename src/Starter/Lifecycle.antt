-- ===== src/Starter/Lifecycle.antt =====
-- The end of SetupRouter of mockgo/starter/starter.go: the goroutine that serves, the one that shuts down,
-- and the signal, whose steps interleave.
pub mod Steps
pub mod Ends
mod Tests
use mockgo_server.Prelude.{
  String, ◌≡◌, ◌⊎◌, Bool, true, false, List, [], ◌∷◌, ◌++◌, Option, none, some, Result, ok, err,
}

-- The parts that are shut down.
pub data Part : Type 0 where
  match_store : Part
  key_value_store : Part
  http_server : Part

-- How far the goroutine that shuts down has come. It waits for the group's context first.
pub data Stage : Type 0 where
  waiting : Stage
  matches_down : Stage
  stores_down : Stage
  all_down : Stage

-- What it shuts down next.
abbrev pub next_part : Stage → Option (Part × Stage)
next_part waiting = some (match_store, matches_down)
next_part matches_down = some (key_value_store, stores_down)
next_part stores_down = some (http_server, all_down)
next_part all_down = none

-- How far DefaultServing has come: the variable `server` is nil, the server listens, or ListenAndServe returned.
pub data Phase : Type 0 where
  to_start : Phase
  listening : Phase
  returned : Phase

-- The variable `server` is set.
abbrev pub is_set : Phase → Bool
is_set to_start = false
is_set listening = true
is_set returned = true

-- The group, its context and the process: whether a signal came, the first error of a function of the group, how far
-- its two functions have come, whether the HTTP server is shut down, the parts that were shut down, in their order,
-- and whether a panic ended the process.
pub record Life : Type 0 where
  pub signalled : Bool
  pub first_error : Option String
  pub phase : Phase
  pub stage : Stage
  pub is_server_down : Bool
  pub calls : List Part
  pub is_crashed : Bool

-- The start of the group.
abbrev pub started : Life
started = record {
  signalled = false;
  first_error = none;
  phase = to_start;
  stage = waiting;
  is_server_down = false;
  calls = [];
  is_crashed = false;
}

-- What a function of the group returns: the first error stays.
abbrev pub note_error : Result (Unit {0}) → Option String → Option String
note_error (ok _) first = first
note_error (err e) none = some e
note_error (err e) (some first) = some first

-- The result that a shutdown has for the group: the errors of the stores are logged and dropped.
abbrev pub group_result : Part → Result (Unit {0}) → Result (Unit {0})
group_result match_store done = ok tt
group_result key_value_store done = ok tt
group_result http_server done = done

-- The group's context is done: by the signal, or by an error.
abbrev pub Cancelled : Life → Type 0
Cancelled l = (l.signalled ≡ true) ⊎ ((e : String) × (l.first_error ≡ some e))

-- `server = &http.Server{…}`
abbrev pub serving_started : Life → Life
serving_started l = record l { phase = listening }

-- ListenAndServe returned an error; it returns nothing else.
abbrev pub serving_ended : String → Life → Life
serving_ended e l = record l { phase = returned; first_error = note_error (err e) l.first_error }

-- A part can be shut down: DefaultShutdown panics if `server` is nil.
abbrev pub can_shut : Part → Phase → Bool
can_shut match_store phase = true
can_shut key_value_store phase = true
can_shut http_server phase = is_set phase

-- Whether the HTTP server is down after the shutdown of a part.
abbrev pub closes : Part → Bool → Bool
closes match_store down = down
closes key_value_store down = down
closes http_server down = true

-- A part was shut down.
abbrev pub shut_down : Part → Stage → Result (Unit {0}) → Life → Life
shut_down part stage done l = record l {
  stage = stage;
  is_server_down = closes part l.is_server_down;
  calls = l.calls ++ part ∷ [];
  first_error = note_error (group_result part done) l.first_error;
}

-- A step of the two goroutines, until a panic ends the process: DefaultServing sets the server; ListenAndServe
-- returns because the server is shut down, as net/http documents; a part is shut down, with any result; or
-- DefaultShutdown panics.
pub data Own : Life → Life → Type 0 where
  serve : (l : Life) → l.is_crashed ≡ false → l.phase ≡ to_start → Own l (serving_started l)
  closed :
      (l : Life)
      → l.is_crashed ≡ false
      → l.phase ≡ listening
      → l.is_server_down ≡ true
      → Own l (serving_ended "http: Server closed" l)
  shut :
      (l : Life) (part : Part) (stage : Stage) (done : Result (Unit {0}))
      → l.is_crashed ≡ false
      → Cancelled l
      → next_part l.stage ≡ some (part, stage)
      → can_shut part l.phase ≡ true
      → Own l (shut_down part stage done l)
  panics :
      (l : Life) (part : Part) (stage : Stage)
      → l.is_crashed ≡ false
      → Cancelled l
      → next_part l.stage ≡ some (part, stage)
      → can_shut part l.phase ≡ false
      → Own l (record l { is_crashed = true })

-- A step: one of the goroutines', a signal, or a failure of ListenAndServe, such as a port in use. The last two
-- come from outside and need not come.
pub data Step : Life → Life → Type 0 where
  own : {l k : Life} → Own l k → Step l k
  signal :
      (l : Life)
      → l.is_crashed ≡ false
      → l.signalled ≡ false
      → Step l (record l { signalled = true })
  failed :
      (l : Life) (e : String)
      → l.is_crashed ≡ false
      → l.phase ≡ listening
      → Step l (serving_ended e l)

pub data Runs : Life → Life → Type 0 where
  here : (l : Life) → Runs l l
  then_step : {l m : Life} (k : Life) → Runs l m → Step m k → Runs l k

-- g.Wait() returns: both functions of the group have returned.
abbrev pub Exited : Life → Type 0
Exited l = (l.phase ≡ returned) × (l.stage ≡ all_down) × (l.is_crashed ≡ false)
