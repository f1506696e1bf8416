-- ===== src/Serve.antt =====
-- Run of comit/fxsrv/server.go, with work and read of connect.go and the callbacks of
-- comit/router/router.go: the accepting of connections, and the goroutines that read them and run
-- their requests.
pub mod Turns
pub mod Streams
pub mod Once
pub mod Effects
pub mod Delivered
mod Tests
use zqim.Prelude.{
  ℕ, zero, suc, ◌+◌, Bool, true, false, Option, none, some, List, [], ◌∷◌, ◌++◌, map, if◌then◌else◌,
}
use zqim.Frame.{Request, Buffer, Unpacked, waiting, panicked, out_of_fuel, unpack}
use zqim.Conn.{accept, close}
use zqim.Heap.{update}
use zqim.Ack.{on_conn}
use zqim.Services.{Services, Sys, with_world}
use zqim.Auth.{close_handle}
use zqim.Route.{Route, routes_run, set_router}

-- A request, as unpack made it, with the address of the connection that it came from.
abbrev pub Work : Type 0
Work = ℕ × Request

-- `unread` is each connection's buffer, and `reading` holds of the connections whose read loop has
-- not returned. `handed` is what routesRun was given, in order, and `handled` what was run of it;
-- `waiting` is what the goroutines of the pool have not run yet, with what waits for room in its
-- channel. `fresh` is the address of the next connection.
pub record Server (S : Type 0) : Type 0 where
  pub sys : Sys S
  pub unread : ℕ → List ℕ
  pub reading : ℕ → Bool
  pub handed : List Work
  pub handled : List Work
  pub waiting : List Work
  pub fresh : ℕ

-- What the goroutines do, one step at a time: AcceptTCP gives a connection or an error; a Read
-- gives a chunk, with what the buffer's array holds behind it, or an error; a goroutine of the pool
-- runs one of the requests that wait, at a time, with what the buffer's array holds of its body by
-- then, if a later chunk has overwritten it; or another part of the process changes the state, as
-- the write loops, TimeLoop and the calls of other servers do.
pub data NetEvent (S : Type 0) : Type 0 where
  accepts accept_fails : NetEvent S
  receives : ℕ → List ℕ → List ℕ → NetEvent S
  read_fails : ℕ → NetEvent S
  handles : ℕ → Option (List ℕ) → ℕ → NetEvent S
  changes : Sys S → NetEvent S

-- The body of a request is a slice of its connection's buffer.
abbrev pub seen : Option (List ℕ) → Request → Request
seen none r = r
seen (some body) r = record r { body = body }

module _ {S : Type 0} (sv : Services S) where
  abbrev hand_on : ℕ → List Request → Buffer → Server S → Server S
  hand_on a rs b s =
      let works : List Work = map (λ r. (a, r)) rs in
      record s {
        handed = s.handed ++ works;
        waiting = s.waiting ++ works;
        unread = update s.unread a b.unread;
      }

  abbrev pub unpacked : ℕ → Unpacked → Server S → Option (Server S)
  unpacked a (waiting rs b) s = some (hand_on a rs b s)
  unpacked a (panicked rs) s = none
  unpacked a out_of_fuel s = none

  -- One chunk of read.
  unfoldable pub receive : ℕ → List ℕ → List ℕ → Server S → Option (Server S)
  unfolding unpack
  receive a chunk spare s =
      let b : Buffer = record { unread = s.unread a ++ chunk; spare = spare } in
      if s.reading a then unpacked a (unpack b) s else some s

  -- The end of read and of work, and the callback after it.
  unfoldable pub hang_up : ℕ → Server S → Server S
  unfolding close close_handle
  hang_up a s =
      let ended = record s {
        sys = close_handle sv a (with_world (on_conn a close) s.sys);
        reading = update s.reading a false;
      } in
      if s.reading a then ended else s

  abbrev take_at : ℕ → List Work → Option (Work × List Work)
  take_at i [] = none
  take_at zero (w ∷ ws) = some (w, ws)
  take_at (suc i) (w ∷ ws) = elim (take_at i ws) [ none ↦ none | some (v, vs) ↦ some (v, w ∷ vs) ]

  abbrev pub run_one : ℕ → Option (List ℕ) → Option (Work × List Work) → Server S → Server S
  run_one now held none s = s
  run_one now held (some ((a, r), rest)) s = record s {
    sys = routes_run (set_router sv now) a (seen held r) s.sys;
    handled = s.handled ++ (a, r) ∷ [];
    waiting = rest;
  }

  -- What Run does with an accepted connection.
  unfoldable pub start : Server S → Server S
  unfolding accept
  start s = record s {
    sys = with_world (on_conn s.fresh (λ c. accept)) s.sys;
    unread = update s.unread s.fresh [];
    reading = update s.reading s.fresh true;
    fresh = s.fresh + 1;
  }

  -- Run goes on after an error of AcceptTCP, with the nil connection, on which setCoonBuffer
  -- panics.
  unfoldable pub step : NetEvent S → Server S → Option (Server S)
  unfolding receive hang_up start routes_run set_router
  step accepts s = some (start s)
  step accept_fails s = none
  step (receives a chunk spare) s = receive a chunk spare s
  step (read_fails a) s = some (hang_up a s)
  step (handles now held i) s = some (run_one now held (take_at i s.waiting) s)
  step (changes y) s = some (record s { sys = y })

  unfoldable pub run : List (NetEvent S) → Server S → Option (Server S)
  unfolding step
  run [] s = some s
  run (e ∷ es) s = elim (step e s) [ none ↦ none | some s' ↦ run es s' ]
