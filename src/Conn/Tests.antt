-- ===== src/Conn/Tests.antt =====
-- Runs of a connection, and its theorems at concrete inputs.
use zqim.Prelude.{◌≡◌, refl, List, [], ◌∷◌, ◌++◌, true}
use zqim.Frame.{Request}
use zqim.Frame.Stream.{frames}
use zqim.Conn.{accept, write_case, tick_case, Event, writes, turns, pings, step, run, accepted}
use zqim.Conn.Life.{pledged, run-pledged}

abbrev ack : Request
ack = record { typ = 4; body_len = 1; flag = 0; body = 7 ∷ [] }

abbrev history : List Event
history =
    writes ack
    ∷ turns (write_case true)
    ∷ pings 50
    ∷ writes ack
    ∷ turns (tick_case 300)
    ∷ writes ack
    ∷ []

history-accepted : accepted 100 accept history ≡ ack ∷ ack ∷ []
unfolding accepted accept step
history-accepted = refl

run-pledged_example :
    pledged (run 100 accept history) ≡ pledged accept ++ frames (accepted 100 accept history)
run-pledged_example = run-pledged 100 accept history tt
