-- ===== src/Pool/Tests.antt =====
-- Runs of the pool, and the theorems at concrete inputs.
use zqim.Prelude.{ℕ, ◌+◌, ◌≡◌, refl, arith, false, List, [], ◌∷◌, ◌++◌, length}
use zqim.Pool.{
  waiting, working, WorkPool, Event, add_work, take_work, return_work, step, add_wrok_send, receive,
  turn_work, turn_return, Run, done, next,
}
use zqim.Pool.Turns.{left, IsRunning}
use zqim.Pool.Drain.{Drained, run-Drained}
use zqim.Pool.Fifo.{accepted, Run-accepted}

-- Two goroutines, and three functions that wait.
abbrev three : WorkPool ℕ
three = record {
  work_func_chan = 7 ∷ 8 ∷ 9 ∷ [];
  chan_size = 4;
  workers = waiting ∷ waiting ∷ [];
  started = [];
  is_exit = false;
  panicked = false;
}

abbrev two : WorkPool ℕ
two = record three {
  work_func_chan = 8 ∷ 9 ∷ [];
  workers = waiting ∷ working 7 ∷ [];
  started = 7 ∷ [];
}

abbrev one : WorkPool ℕ
one = record two {
  work_func_chan = 9 ∷ [];
  workers = working 8 ∷ working 7 ∷ [];
  started = 7 ∷ 8 ∷ [];
}

abbrev taken : List (Event ℕ)
taken = take_work 1 ∷ take_work 0 ∷ []

run : Run three taken one
unfolding step turn_work receive
run = next {q = two} refl (next {q = one} refl done)

three-IsRunning : IsRunning three
three-IsRunning = record {
  not_exit = refl;
  sound = refl;
  alive = (refl, (refl, tt));
  some_worker = omega arith;
}

run-Drained_example : (left one + length taken ≡ left three) × Drained three one
run-Drained_example = run-Drained three one taken three-IsRunning (tt, (tt, tt)) run

-- One function is given, taken and returned from, and one is given after it.
abbrev fresh : WorkPool ℕ
fresh = record three { work_func_chan = []; workers = waiting ∷ [] }

abbrev given : List (Event ℕ)
given = add_work 5 ∷ take_work 0 ∷ return_work 0 ∷ add_work 6 ∷ []

abbrev given_to : WorkPool ℕ
given_to = record fresh { work_func_chan = 6 ∷ []; started = 5 ∷ [] }

given_run : Run fresh given given_to
unfolding step add_wrok_send turn_work receive turn_return
given_run = next {q = record fresh { work_func_chan = 5 ∷ [] }} refl (
    next {q = record fresh { workers = working 5 ∷ []; started = 5 ∷ [] }} refl
      (next {q = record fresh { started = 5 ∷ [] }} refl (next {q = given_to} refl done)))

Run-accepted_example :
    given_to.started ++ given_to.work_func_chan
    ≡ (fresh.started ++ fresh.work_func_chan) ++ accepted fresh.is_exit given
Run-accepted_example = Run-accepted fresh given_to given given_run
