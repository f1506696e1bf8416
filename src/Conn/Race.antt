-- ===== src/Conn/Race.antt =====
-- Write and Close of comit/fxsrv/connect.go from several goroutines at once, one access of the
-- shared connection at a time.
pub mod Inv
pub mod Safety
mod Tests
use zqim.Prelude.{ℕ, ◌+◌, ◌≤◌, ◌<◌, ◌≡◌, Bool, true, false, List, [], ◌∷◌, ◌++◌, length}
use zqim.Frame.{Request}
use zqim.Heap.{update}
use zqim.Conn.{chan_size, WriteResult, written, closed_error, block_error}

-- isClose, whether the two channels are closed, and what waits in writeChan. A panic of a goroutine
-- ends the process.
pub record Shared : Type 0 where
  pub is_close : Bool
  pub exit_closed : Bool
  pub chan_closed : Bool
  pub write_chan : List Request
  pub panicked : Bool

-- Where a call of Write stands: before the test of IsClose, before the select, or at its return.
pub data WritePc : Type 0 where
  called : Request → WritePc
  checked : Request → WritePc
  returned : WriteResult → WritePc

-- A call of Close: before the compare-and-swap, after it, after the first channel is closed, and at
-- its end, with or without the swap.
pub data ClosePc : Type 0 where
  entered swapped exit_done ended lost : ClosePc

pub data WriteMove (m : Shared) : WritePc → Shared → WritePc → Type 0 where
  refused : {r : Request} → m.is_close ≡ true → WriteMove m (called r) m (returned closed_error)
  passes : {r : Request} → m.is_close ≡ false → WriteMove m (called r) m (checked r)
  exit_case :
      {r : Request} → m.exit_closed ≡ true → WriteMove m (checked r) m (returned closed_error)
  send_case :
      {r : Request}
      → m.chan_closed ≡ false
      → length m.write_chan < chan_size
      → WriteMove m
          (checked r)
          (record m { write_chan = m.write_chan ++ r ∷ [] })
          (returned written)
  send_panics :
      {r : Request}
      → m.chan_closed ≡ true
      → WriteMove m (checked r) (record m { panicked = true }) (checked r)
  default_case :
      {r : Request}
      → m.exit_closed ≡ false
      → m.chan_closed ≡ false
      → chan_size ≤ length m.write_chan
      → WriteMove m (checked r) m (returned block_error)

-- To close a channel a second time panics.
pub data CloseMove (m : Shared) : ClosePc → Shared → ClosePc → Type 0 where
  swap_fails : m.is_close ≡ true → CloseMove m entered m lost
  swap_works : m.is_close ≡ false → CloseMove m entered (record m { is_close = true }) swapped
  close_exit :
      m.exit_closed ≡ false → CloseMove m swapped (record m { exit_closed = true }) exit_done
  exit_panics : m.exit_closed ≡ true → CloseMove m swapped (record m { panicked = true }) swapped
  close_chan : m.chan_closed ≡ false → CloseMove m exit_done (record m { chan_closed = true }) ended
  chan_panics :
      m.chan_closed ≡ true → CloseMove m exit_done (record m { panicked = true }) exit_done

pub record System : Type 0 where
  pub mem : Shared
  pub writer : ℕ → WritePc
  pub closer : ℕ → ClosePc

-- A goroutine that writes or closes takes its next step, or writeLoop takes a request.
pub data Step (s : System) : System → Type 0 where
  writes :
      (i : ℕ) {m : Shared} {p : WritePc}
      → s.mem.panicked ≡ false
      → WriteMove s.mem (s.writer i) m p
      → Step s (record s { mem = m; writer = update s.writer i p })
  closes :
      (i : ℕ) {m : Shared} {p : ClosePc}
      → s.mem.panicked ≡ false
      → CloseMove s.mem (s.closer i) m p
      → Step s (record s { mem = m; closer = update s.closer i p })
  takes :
      {r : Request} {rest : List Request}
      → s.mem.panicked ≡ false
      → s.mem.write_chan ≡ r ∷ rest
      → Step s (record s { mem = record (s.mem) { write_chan = rest } })

pub data Steps : System → System → Type 0 where
  still : {s : System} → Steps s s
  later : {s t u : System} → Steps s t → Step t u → Steps s u
