-- ===== src/Pool.antt =====
-- comit/fxsrv/workpool.go: the goroutines that run the handlers of all connections.
pub mod Drain
pub mod Fifo
pub mod Turns
mod Tests
use zqim.Prelude.{
  ℕ, zero, suc, ◌+◌, ◌≡◌, Bool, true, false, Option, none, some, List, [], ◌∷◌, ◌++◌, ltb,
  if◌then◌else◌, length, get_elem?, replicate,
}

-- A goroutine of the pool: in its select, in the call of a function, or ended.
pub data Worker (W : Type 0) : Type 0 where
  waiting : Worker W
  working : W → Worker W
  ended : Worker W

-- `work_func_chan` is what waits in the channel, oldest first; `started` are the functions that
-- were called, in the order in which they came out of the channel. `is_exit` is set when exitchan
-- is closed, and with it workFuncChan. A panic of a goroutine ends the process.
pub record WorkPool (W : Type 0) : Type 0 where
  pub work_func_chan : List W
  pub chan_size : ℕ
  pub workers : List (Worker W)
  pub started : List W
  pub is_exit : Bool
  pub panicked : Bool

-- The case that a select takes, with the number of the goroutine; the return of a function; Stop.
pub data Event (W : Type 0) : Type 0 where
  add_exit add_work : W → Event W
  exit take_work return_work : ℕ → Event W
  stop : Event W

abbrev pub set_worker : {W : Type 0} → ℕ → Worker W → List (Worker W) → List (Worker W)
set_worker i w [] = []
set_worker zero w (v ∷ vs) = w ∷ vs
set_worker (suc i) w (v ∷ vs) = v ∷ set_worker i w vs

module _ {W : Type 0} where
  -- newWorkPoll and Start
  unfoldable pub start : ℕ → ℕ → WorkPool W
  start worcksize chansize = record {
    work_func_chan = [];
    chan_size = chansize;
    workers = replicate worcksize waiting;
    started = [];
    is_exit = false;
    panicked = false;
  }

  -- AddWrok: with the error, or with the send, which waits for room in the channel. A send on the
  -- closed channel panics.
  unfoldable pub add_wrok_exit : WorkPool W → Option (WorkPool W)
  add_wrok_exit p = if p.is_exit then some p else none

  unfoldable pub add_wrok_send : W → WorkPool W → Option (WorkPool W)
  add_wrok_send f p =
      if p.is_exit
      then some (record p { panicked = true })
      else if ltb (length p.work_func_chan) p.chan_size
      then some (record p { work_func_chan = p.work_func_chan ++ f ∷ [] })
      else none

  -- The case work:=<-this.workFuncChan. The empty channel makes it wait, or gives nil when it is
  -- closed, whose call panics.
  unfoldable pub receive : ℕ → List W → WorkPool W → Option (WorkPool W)
  receive i [] p = if p.is_exit then some (record p { panicked = true }) else none
  receive i (f ∷ fs) p = some (record p {
    work_func_chan = fs;
    workers = set_worker i (working f) p.workers;
    started = p.started ++ f ∷ [];
  })

  -- One turn of `start`, by the place where its goroutine is.
  unfoldable pub turn_exit : ℕ → Option (Worker W) → WorkPool W → Option (WorkPool W)
  turn_exit i (some waiting) p =
      if p.is_exit then some (record p { workers = set_worker i ended p.workers }) else none
  turn_exit i (some (working f)) p = none
  turn_exit i (some ended) p = none
  turn_exit i none p = none

  unfoldable pub turn_work : ℕ → Option (Worker W) → WorkPool W → Option (WorkPool W)
  unfolding receive
  turn_work i (some waiting) p = receive i p.work_func_chan p
  turn_work i (some (working f)) p = none
  turn_work i (some ended) p = none
  turn_work i none p = none

  unfoldable pub turn_return : ℕ → Option (Worker W) → WorkPool W → Option (WorkPool W)
  turn_return i (some (working f)) p = some (record p { workers = set_worker i waiting p.workers })
  turn_return i (some waiting) p = none
  turn_return i (some ended) p = none
  turn_return i none p = none

  -- `none` where the case cannot be taken.
  abbrev step_live : Event W → WorkPool W → Option (WorkPool W)
  unfolding add_wrok_exit add_wrok_send turn_exit turn_work turn_return
  step_live (add_exit f) p = add_wrok_exit p
  step_live (add_work f) p = add_wrok_send f p
  step_live (exit i) p = turn_exit i (get_elem? p.workers i) p
  step_live (take_work i) p = turn_work i (get_elem? p.workers i) p
  step_live (return_work i) p = turn_return i (get_elem? p.workers i) p
  step_live stop p = some (record p { is_exit = true })

  unfoldable pub step : Event W → WorkPool W → Option (WorkPool W)
  unfolding turn_exit turn_work turn_return add_wrok_exit add_wrok_send
  step e p = if p.panicked then none else step_live e p

-- A run, with the events in their order.
pub data Run {W : Type 0} : WorkPool W → List (Event W) → WorkPool W → Type 0 where
  done : {p : WorkPool W} → Run p [] p
  next :
      {p q r : WorkPool W} {e : Event W} {es : List (Event W)}
      → step e p ≡ some q
      → Run q es r
      → Run p (e ∷ es) r
