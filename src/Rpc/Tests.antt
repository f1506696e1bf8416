-- ===== src/Rpc/Tests.antt =====
-- The relayed messages at concrete inputs.
use zqim.Prelude.{◌≡◌, refl, arith, none, some, [], ◌∷◌, ◌++◌, nat_eq}
use zqim.Prelude.Maps
use zqim.Conn.{accept}
use zqim.Heap.Members.{In}
use zqim.Ack.{World, push_case, get_connect, time_loop}
use zqim.Ack.Inv.{IsConsistent}
use zqim.Services.{OneMessage}
use zqim.Services.Samples.{services, server, world}
use zqim.Rpc.{transfer, tranfer_loop}
use zqim.Rpc.Relay.{addresses, AreQueued, tranfer_loop-AreQueued}
use zqim.Rpc.Resend.{IsFree, IsNew, transfer-time_loop}

absent : get_connect 9 world ≡ none
unfolding get_connect Maps.lookup
absent = refl

there : (get_connect 7 world ≡ some 0) × (get_connect 8 world ≡ some 1)
unfolding get_connect Maps.lookup
there = (refl, refl)

tranfer_loop-AreQueued_example :
    let w' = tranfer_loop (1 ∷ []) 5 (7 ∷ 8 ∷ []) world in
    (w'.push_ch ≡ world.push_ch ++ addresses (1 ∷ []) 5 0 (7 ∷ 8 ∷ []))
    × AreQueued (1 ∷ []) 5 (7 ∷ 8 ∷ []) 0 w'.msgheap
tranfer_loop-AreQueued_example =
    tranfer_loop-AreQueued (1 ∷ []) 5 (7 ∷ 8 ∷ []) world
      (λ e. ground (arith, there), (λ e. ground (arith, there), tt))

world-IsConsistent : IsConsistent world
unfolding get_connect Maps.lookup accept
world-IsConsistent = record {
  heap = record { heap = λ c p l. absurd (omega arith); indexed = λ c l. absurd (omega arith) };
  single = λ u v a e f. ground arith;
  tracked = λ uid a k p e x. absurd (ground arith);
  unique = λ p q (i, l, e) j x y. absurd (omega arith);
}

world-IsFree : IsFree world
unfolding get_connect Maps.lookup accept
world-IsFree = record {
  heap = λ (i, l, e). absurd (omega arith);
  contexts = λ uid a k c x. absurd (ground arith);
}

world-IsNew : IsNew 5 8 world
world-IsNew q (i, l, e) x y = absurd (omega arith)

-- Message 5 of user 7 to user 8.
abbrev hello : OneMessage
hello = record { rek = 5; sender = 7; receiver = 8; msgbody = []; msgtype = 1; time = 0 }

named : (server.world.conn 1).id ≡ 8
unfolding accept
named = refl

transfer-time_loop_example :
    (w' : World) × (time_loop 100 (transfer services hello server).world push_case ≡ some w')
    × IsConsistent w'
    × In w'.msgheap 0
transfer-time_loop_example =
    transfer-time_loop services 100 1 (5 ∷ 7 ∷ 8 ∷ []) hello server world-IsConsistent world-IsFree
      there.1 named world-IsNew refl refl
