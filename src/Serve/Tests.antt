-- ===== src/Serve/Tests.antt =====
-- The server at a concrete input: two connections whose chunks come in turns.
use zqim.Prelude.{ℕ, ◌≡◌, refl, List, [], ◌∷◌, ◌++◌, arith, some, none, true, Bool, Option, length}
use zqim.Frame.{Request, get_bytes, unpack, round}
use zqim.Frame.Step.{IsValid}
use zqim.Frame.Stream.{IsPartial, Chunked}
use zqim.Heap.{update}
use zqim.Services.Samples.{services, server}
use zqim.Route.{routes_run, set_router}
use zqim.Serve.{Work, Server, NetEvent, receives, handles, changes, receive, step, run}
use zqim.Serve.Turns.{of_conn, chunks_of, IsUp}
use zqim.Serve.Once.{IsOnce}
use zqim.Serve.Effects.{Replayed, run-IsRun}
use zqim.Serve.Delivered.{run-Delivered}

abbrev request : ℕ → List ℕ → Request
request typ body = record { typ = typ; body_len = length body; flag = 0; body = body }

abbrev ping : Request
ping = request 6 []

abbrev chat : Request
chat = request 2 (10 ∷ 20 ∷ 30 ∷ 40 ∷ [])

abbrev running : Server (Option (List ℕ))
running = record {
  sys = server;
  unread = λ a. [];
  reading = λ a. true;
  handed = [];
  handled = [];
  waiting = [];
  fresh = 2;
}

-- The first chunk of connection 0 ends one byte into the body of its second frame.
abbrev events : List (NetEvent (Option (List ℕ)))
events =
    receives 0 (0 ∷ 6 ∷ 0 ∷ 0 ∷ 0 ∷ 0 ∷ 0 ∷ 0 ∷ 2 ∷ 0 ∷ 0 ∷ 0 ∷ 4 ∷ 0 ∷ 10 ∷ []) (9 ∷ 9 ∷ [])
    ∷ receives 1 (0 ∷ 6 ∷ 0 ∷ 0 ∷ 0 ∷ 0 ∷ 0 ∷ []) []
    ∷ changes server
    ∷ receives 0 (20 ∷ 30 ∷ 40 ∷ []) []
    ∷ []

abbrev partial : List ℕ
partial = 0 ∷ 2 ∷ 0 ∷ 0 ∷ 0 ∷ 4 ∷ 0 ∷ 10 ∷ []

abbrev last : Server (Option (List ℕ))
last = record running {
  unread = update (update (update running.unread 0 partial) 1 []) 0 [];
  handed = (0, ping) ∷ (1, ping) ∷ (0, chat) ∷ [];
  waiting = (0, ping) ∷ (1, ping) ∷ (0, chat) ∷ [];
}

runs : run services events running ≡ some last
unfolding run step receive unpack round
runs = refl

running-IsUp : IsUp services 0 running
running-IsUp = record { reading = refl; known = omega arith }

ping-IsValid : IsValid ping
ping-IsValid = record {
  typ_range = omega arith;
  flag_range = omega arith;
  sized = refl;
  fits = omega arith;
}

chat-IsValid : IsValid chat
chat-IsValid = record {
  typ_range = omega arith;
  flag_range = omega arith;
  sized = refl;
  fits = omega arith;
}

chunks-Chunked : Chunked [] (chunks_of 0 events) (ping ∷ chat ∷ [])
unfolding get_bytes
chunks-Chunked =
    Chunked.chunk (ping ∷ []) (chat ∷ []) refl
      (IsPartial.body chat (10 ∷ []) (20 ∷ 30 ∷ 40 ∷ []) chat-IsValid refl (omega arith) refl)
      (Chunked.chunk (chat ∷ []) [] refl (IsPartial.header (omega arith)) Chunked.end)

none_yet : (p : Work → Bool) → IsOnce services p running
none_yet p = refl

run-Delivered_example :
    (of_conn 0 last.handed ≡ [] ++ (ping ∷ chat ∷ []))
    × (last.unread 0 ≡ [])
    × ((p : Work → Bool) → IsOnce services p last)
    × Replayed services events running last
run-Delivered_example =
    run-Delivered services 0 events running last (ping ∷ chat ∷ []) running-IsUp
      (tt, (tt, (tt, (tt, tt)))) runs chunks-Chunked (ping-IsValid, (chat-IsValid, tt)) none_yet

last_once : (p : Work → Bool) → IsOnce services p last
last_once p = omega arith

-- A goroutine of the pool then runs the second request, the ping of connection 1.
abbrev later_events : List (NetEvent (Option (List ℕ)))
later_events = handles 5 none 1 ∷ []

abbrev after_ping : Server (Option (List ℕ))
after_ping = record last {
  sys = routes_run (set_router services 5) 1 ping last.sys;
  handled = (1, ping) ∷ [];
  waiting = (0, ping) ∷ (0, chat) ∷ [];
}

runs_later : run services later_events last ≡ some after_ping
unfolding run step
runs_later = refl

run-IsRun_example :
    ((p : Work → Bool) → IsOnce services p after_ping)
    × Replayed services later_events last after_ping
run-IsRun_example = run-IsRun services later_events last after_ping last_once runs_later
