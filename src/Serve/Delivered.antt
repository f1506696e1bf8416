-- ===== src/Serve/Delivered.antt =====
-- What comes of the requests that a connection sends, from its chunks to the routes.
use zqim.Prelude.{ℕ, ◌≡◌, Bool, some, List, [], ◌++◌, All}
use zqim.Frame.{Request}
use zqim.Frame.Step.{IsValid}
use zqim.Frame.Stream.{Chunked}
use zqim.Services.{Services}
use zqim.Serve.{Work, Server, NetEvent, run}
use zqim.Serve.Turns.{of_conn, chunks_of, StaysUp, IsUp}
use zqim.Serve.Once.{IsOnce}
use zqim.Serve.Streams.{run-Chunked}
use zqim.Serve.Effects.{Replayed, run-IsRun}

module _ {S : Type 0} (sv : Services S) (a : ℕ) where
  -- However the goroutines take turns: if the chunks that a connection that is being read sends
  -- hold the frames of some valid requests, and each ends between two frames, within the first
  -- four bytes of a frame, or behind its whole header with at least three bytes of its body
  -- missing, and no read of it fails, then exactly these requests of it are handed on, in order,
  -- and its buffer is empty. If every request that was handed on before was run once or waited,
  -- then so it is at the end: for each test of requests, as many that pass it were run or wait as
  -- were handed on; each event of a goroutine of the pool runs the request at its place among
  -- those that wait, if there is one; and the state is what the requests that were run, each
  -- through its route at its turn, with what the buffer holds of its body then, and the other
  -- events make of the first state.
  pub run-Delivered :
      (es : List (NetEvent S)) (s s' : Server S) (rs : List Request)
      → IsUp sv a s
      → All (StaysUp a) es
      → run sv es s ≡ some s'
      → Chunked (s.unread a) (chunks_of a es) rs
      → All IsValid rs
      → ((p : Work → Bool) → IsOnce sv p s)
      → (of_conn a s'.handed ≡ of_conn a s.handed ++ rs)
        × (s'.unread a ≡ [])
        × ((p : Work → Bool) → IsOnce sv p s')
        × Replayed sv es s s'
  run-Delivered es s s' rs h u r c v o =
      let (handed, empty) = run-Chunked sv a es s s' rs h u r c v in
      let (once, replayed) = run-IsRun sv es s s' o r in (handed, empty, once, replayed)
