-- ===== src/Balance/Tests.antt =====
-- The list of servers at concrete inputs.
use zqim.Prelude.{ℕ, ◌++◌, Option, some, List, ◌≡◌, refl, arith, [], ◌∷◌, ◌≢◌, false, string_eq}
use Prim.Native.String.{String}
use zqim.Balance.{ComitManages}
use zqim.Balance.Sync.{put, delete, Event, imwatch, rpcwatch, watch_events}
use zqim.Balance.Sync.Stays.{im_puts, watch_events-im_puts}

abbrev three : ComitManages
three = record { comits = []; tcpserver = "a" ∷ "b" ∷ "c" ∷ []; index = 0 }

apart : (a b : String) → string_eq.beq a b ≡ false → a ≢ b
apart a b e f = ground (arith, string_eq.beq_iff a b)

abbrev dial : String → Option ℕ
dial addr = some 4

-- The server "b" ends, and another starts; its etcd keys go with it.
abbrev history : List Event
history =
    imwatch delete ""
    ∷ rpcwatch delete "srv_b" ""
    ∷ imwatch put "d"
    ∷ rpcwatch put "srv_d" "10.0.0.4"
    ∷ []

watch_events-im_puts_example :
    (watch_events dial "logic" history three).tcpserver ≡ three.tcpserver ++ im_puts history
watch_events-im_puts_example =
    watch_events-im_puts dial "logic" history three (refl, (tt, (apart "d" "" refl, (tt, tt))))
      (apart "a" "" refl, (apart "b" "" refl, (apart "c" "" refl, tt)))
