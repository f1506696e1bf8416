-- ===== src/Conn.antt =====
-- comit/fxsrv/connect.go and contex.go: one connection, its two channels and its heartbeat.
pub mod Life
pub mod Race
mod Tests
use zqim.Prelude.{
  ℕ, ◌+◌, ◌≡◌, Bool, true, false, List, [], ◌∷◌, ◌++◌, Option, none, some, ltb, leb, if◌then◌else◌,
  length, nat_eq,
}
use zqim.Prelude.Maps
use zqim.Frame.{Request, get_bytes}

-- `write_chan` is what waits in the buffered channel, oldest first; `wire` what the socket took.
-- `exitChan` is closed exactly when `is_close` is set, and so is `writeChan`. The context maps the
-- id of a message to the address of the AckMessage stored for it.
pub record Connect : Type 0 where
  pub id : ℕ
  pub ctx : List (ℕ × ℕ)
  pub write_chan : List Request
  pub wire : List ℕ
  pub heart_time : ℕ
  pub is_close : Bool
  pub auth : Bool

-- What `service.Run` makes of an accepted socket.
unfoldable pub accept : Connect
accept = record {
  id = 0;
  ctx = [];
  write_chan = [];
  wire = [];
  heart_time = 0;
  is_close = false;
  auth = false;
}

-- `make(chan *Request,10)`
abbrev pub chan_size : ℕ
chan_size = 10

pub data WriteResult : Type 0 where
  written closed_error block_error : WriteResult

-- Write: the select takes the send if the channel has room, and never blocks.
unfoldable pub write : Connect → Request → Connect × WriteResult
write c r =
    if c.is_close
    then (c, closed_error)
    else if ltb (length c.write_chan) chan_size
    then (record c { write_chan = c.write_chan ++ r ∷ [] }, written)
    else (c, block_error)

-- Close: the compare-and-swap lets only the first call through.
unfoldable pub close : Connect → Connect
close c = if c.is_close then c else record c { is_close = true }

-- One turn of the loop of writeLoop, by the case that the select takes, with whether it goes on.
pub data Turn : Type 0 where
  exit_case : Turn
  -- the socket takes the bytes, or fails
  write_case : Bool → Turn
  -- the ticker fires, at this time
  tick_case : ℕ → Turn

abbrev put : Connect → List Request → Bool → Connect × Bool
put c [] ok = (c, true)
put c (r ∷ rest) true = (record c { write_chan = rest; wire = c.wire ++ get_bytes r }, true)
put c (r ∷ rest) false = (record c { write_chan = rest }, false)

unfoldable pub write_loop : ℕ → Connect → Turn → Connect × Bool
unfolding close
write_loop timeout c exit_case = (c, false)
write_loop timeout c (write_case ok) = put c c.write_chan ok
write_loop timeout c (tick_case now) =
    if ltb (c.heart_time + timeout) now then (close c, false) else (c, true)

-- A turn that the select can take: the exit case once the channels are closed, the write case if a
-- request waits or the channel is closed.
pub data Enabled (c : Connect) : Turn → Type 0 where
  exit_enabled : {t : Turn} → c.is_close ≡ true → t ≡ exit_case → Enabled c t
  write_enabled :
      (r : Request) (rest : List Request) (ok : Bool)
      → c.write_chan ≡ r ∷ rest
      → Enabled c (write_case ok)
  drained : (ok : Bool) → c.write_chan ≡ [] → c.is_close ≡ true → Enabled c (write_case ok)
  tick_enabled : (now : ℕ) → Enabled c (tick_case now)

-- The fields' setters, and Contex over the keys that the program uses.
abbrev pub set_heart_time : ℕ → Connect → Connect
set_heart_time t c = record c { heart_time = t }

abbrev pub set_auth : Bool → Connect → Connect
set_auth status c = record c { auth = status }

abbrev pub set_id : ℕ → Connect → Connect
set_id id c = record c { id = id }

abbrev pub ctx_set : ℕ → ℕ → Connect → Connect
ctx_set k p c = record c { ctx = Maps.insert k p c.ctx }

abbrev pub ctx_get : ℕ → Connect → Option ℕ
ctx_get k c = Maps.lookup k c.ctx

abbrev pub ctx_delete : ℕ → Connect → Connect
ctx_delete k c = record c { ctx = Maps.erase k c.ctx }

-- comit/handles/pinghandle.go
unfoldable pub ping_handle : ℕ → Connect → Connect
ping_handle now c = set_heart_time (now + 100) c

-- What can happen to a connection, one event at a time.
pub data Event : Type 0 where
  writes : Request → Event
  turns : Turn → Event
  pings : ℕ → Event
  closes : Event

unfoldable pub step : ℕ → Connect → Event → Connect
unfolding write write_loop close ping_handle
step timeout c (writes r) = (write c r).0
step timeout c (turns t) = (write_loop timeout c t).0
step timeout c (pings now) = ping_handle now c
step timeout c closes = close c

unfoldable pub run : ℕ → Connect → List Event → Connect
run timeout c [] = c
run timeout c (e ∷ es) = run timeout (step timeout c e) es

-- The requests that Write has taken along a run.
abbrev pub taken : Connect → Request → WriteResult → List Request
taken c r written = r ∷ []
taken c r closed_error = []
taken c r block_error = []

unfoldable pub accepted : ℕ → Connect → List Event → List Request
accepted timeout c [] = []
accepted timeout c (writes r ∷ es) =
    taken c r (write c r).1 ++ accepted timeout (step timeout c (writes r)) es
accepted timeout c (turns t ∷ es) = accepted timeout (step timeout c (turns t)) es
accepted timeout c (pings now ∷ es) = accepted timeout (step timeout c (pings now)) es
accepted timeout c (closes ∷ es) = accepted timeout (step timeout c closes) es
