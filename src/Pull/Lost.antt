-- ===== src/Pull/Lost.antt =====
-- PullNotifie on a connection that takes no more requests.
use zqim.Prelude.{ℕ, ◌≡◌, ◌≤◌, arith, refl, true, some, List, length, map}
use zqim.Frame.{Request}
use zqim.Conn.{Connect, write, chan_size}
use zqim.Services.{Services, Sys, Notifie, request_of, pull_notifie}
use zqim.Chat.{id_of}
use zqim.Pull.{pull_notifies}

write-full : (c : Connect) (r : Request) → chan_size ≤ length c.write_chan → (write c r).0 ≡ c
unfolding write
write-full c r h = ground arith

module _ {S : Type 0} (sv : Services S) where
  -- The connection's channel is full: PullNotifie sends nothing and reports no error, but deletes
  -- the notifications that it has read.
  pull_notifies-full :
      (a : ℕ) (buf : List ℕ) (y : Sys S)
      → let notifies = sv.list_notifies (id_of sv a y) y.store in
        chan_size ≤ length (y.world.conn a).write_chan
        → sv.marshal_pull_notifie (map (λ (n : Notifie). (n.notifie_type, n.body)) notifies)
          ≡ some buf
        → let r = pull_notifies sv a y in
          (r.1 ≡ true)
          × (r.0.world.conn a ≡ y.world.conn a)
          × (r.0.store ≡ (sv.delete_notifies (map (λ (n : Notifie). n.id) notifies) y.store).1)
  unfolding pull_notifies
  pull_notifies-full a buf y full e =
      rw (e, pull_notifies)
        (refl, ground (arith, write-full (y.world.conn a) (request_of pull_notifie buf) full), refl)
