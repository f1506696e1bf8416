-- ===== src/Rpc/Resend.antt =====
-- A message that Transfer takes for a user who is connected here: the manager's loop then puts it
-- into the heap, where it waits for its ack.
use mathlib.Core.Path.{subst}
use zqim.Prelude.{
  ℕ, ◌<◌, ◌≡◌, ◌≢◌, sym, ap, ◌∙◌, arith, none, some, List, [], ◌∷◌, ◌++◌, ◌⊎◌, inl, inr, nat_eq,
}
use zqim.Prelude.Maps
use zqim.Frame.{Request}
use zqim.Conn.{Connect, write, ctx_get}
use zqim.Heap.{AckMessage, Heap}
use zqim.Heap
use zqim.Heap.Members.{In}
use zqim.Ack.{World, push_case, push, get_connect, time_loop, receive_push}
use zqim.Ack.Inv.{IsTracked, IsConsistent}
use zqim.Ack.Push.{IsLone, push-IsConsistent}
use zqim.Services.{Services, Sys, OneMessage, push_new, write_to, request_of, one_message}
use zqim.Rpc.{transfer}

write-ctx : (c : Connect) (r : Request) → (write c r).0.ctx ≡ c.ctx
unfolding write
write-ctx c r = ground arith

write-id : (c : Connect) (r : Request) → (write c r).0.id ≡ c.id
unfolding write
write-id c r = ground arith

write_to-ctx :
    (b : ℕ) (r : Request) (w : World) (a : ℕ) → ((write_to b r w).conn a).ctx ≡ (w.conn a).ctx
write_to-ctx b r w a = ground (arith, write-ctx (w.conn b) r)

-- The address that the next message gets is not in use.
pub record IsFree (w : World) : Type 0 where
  pub heap : ¬ In w.msgheap w.next
  pub contexts : (uid a k : ℕ) → get_connect uid w ≡ some a → ctx_get k (w.conn a) ≢ some w.next

-- No message of the heap has this id and this receiver.
abbrev pub IsNew : ℕ → ℕ → World → Type 0
IsNew msgid receiver w =
    (q : ℕ)
    → In w.msgheap q
    → (w.msgheap.msg q).msgid ≡ msgid
    → (w.msgheap.msg q).receiver ≡ receiver
    → ⊥

write_to-IsConsistent :
    (b : ℕ) (r : Request) (w : World) → IsConsistent w → IsConsistent (write_to b r w)
unfolding get_connect
write_to-IsConsistent b r w v = record {
  heap = v.heap;
  single = v.single;
  tracked = λ uid a k p c x.
      v.tracked uid a k p c (sym (ap (λ m. Maps.lookup k m) (write_to-ctx b r w a)) ∙ x);
  unique = v.unique;
}

module _ (body : List ℕ) (receiver msgid typ : ℕ) (w : World) (v : IsConsistent w)
    (free : IsFree w) where
  abbrev pub queued : World
  queued = push_new body receiver msgid typ w

  apart : (c : ℕ) → c < w.msgheap.len → w.msgheap.at c ≢ w.next
  apart c l e = free.heap (c, l, e)

  older : (p : ℕ) → p ≢ w.next → queued.msgheap.msg p ≡ w.msgheap.msg p
  unfolding push_new
  older p d = ground arith

  In-queued : (q : ℕ) → In queued.msgheap q → In w.msgheap q
  unfolding push_new
  In-queued q i = i

  In-apart : (q : ℕ) → In w.msgheap q → q ≢ w.next
  In-apart q i e = free.heap (subst (In w.msgheap) e i)

  kept : (uid k p : ℕ) → p ≢ w.next → IsTracked w.msgheap uid k p → IsTracked queued.msgheap uid k p
  unfolding push_new
  kept uid k p d t = record {
    msgid = ap (λ m. m.msgid) (older p d) ∙ t.msgid;
    receiver = ap (λ m. m.receiver) (older p d) ∙ t.receiver;
    place = stay t.place;
  }
    where
      stay :
          In w.msgheap p ⊎ ((w.msgheap.msg p).index ≡ none)
          → In queued.msgheap p ⊎ ((queued.msgheap.msg p).index ≡ none)
      stay (inl i) = inl i
      stay (inr e) = inr (ap (λ m. m.index) (older p d) ∙ e)

  -- AckMange.Push keeps the manager consistent: the message is not in the heap yet.
  pub push_new-IsConsistent : IsConsistent queued
  unfolding push_new get_connect
  push_new-IsConsistent = record {
    heap = record {
      heap = λ c pos l. ground (arith, v.heap.heap c pos l, apart c l, apart (Heap.parent c));
      indexed = λ c l. ground (arith, v.heap.indexed c l, apart c l);
    };
    single = v.single;
    tracked = λ uid a k p c x.
        kept uid k p (λ e. free.contexts uid a k c (x ∙ ap some e)) (v.tracked uid a k p c x);
    unique = λ p q i j e f.
        v.unique p q i j
          (sym (ap (λ m. m.msgid) (older p (In-apart p i)))
            ∙ e
            ∙ ap (λ m. m.msgid) (older q (In-apart q j)))
          (sym (ap (λ m. m.receiver) (older p (In-apart p i)))
            ∙ f
            ∙ ap (λ m. m.receiver) (older q (In-apart q j)));
  }

-- What the message that `next` gets has to do with the state: the receiver is connected by `b`,
-- which carries its id, and nothing else is on the channel.
module _ {S : Type 0} (sv : Services S) (now b : ℕ) (buf : List ℕ) (msg : OneMessage) (y : Sys S)
    (v : IsConsistent y.world) (free : IsFree y.world)
    (connected : get_connect msg.receiver y.world ≡ some b)
    (named : (y.world.conn b).id ≡ msg.receiver) (fresh : IsNew msg.rek msg.receiver y.world)
    (idle : y.world.push_ch ≡ []) (encoded : sv.marshal_one msg ≡ some buf) where
  abbrev sent : World
  sent = write_to b (request_of one_message buf) y.world

  abbrev receiver : ℕ
  receiver = (sent.conn b).id

  receiver-eq : receiver ≡ msg.receiver
  receiver-eq = ground (arith, write-id (y.world.conn b) (request_of one_message buf))

  abbrev pushed : World
  pushed = push_new buf receiver msg.rek one_message sent

  transfer-eq : (transfer sv msg y).world ≡ pushed
  unfolding transfer
  transfer-eq = rw (connected, transfer) (rw encoded)

  sent-IsFree : IsFree sent
  unfolding get_connect
  sent-IsFree = record {
    heap = free.heap;
    contexts = λ uid a k c x. free.contexts uid a k c (
        sym (ap (λ m. Maps.lookup k m) (write_to-ctx b (request_of one_message buf) y.world a))
        ∙ x);
  }

  abbrev taken : World
  taken = record pushed { push_ch = [] }

  taken-IsConsistent : IsConsistent taken
  unfolding get_connect
  taken-IsConsistent =
      let k =
        push_new-IsConsistent buf receiver msg.rek one_message sent
          (write_to-IsConsistent b (request_of one_message buf) y.world v) sent-IsFree in
      record { heap = k.heap; single = k.single; tracked = k.tracked; unique = k.unique }

  loop-eq : time_loop now pushed push_case ≡ some (push now y.world.next taken)
  unfolding time_loop push_new
  loop-eq = ap (λ ch. receive_push now (ch ++ y.world.next ∷ []) pushed) idle

  message-receiver : (taken.msgheap.msg y.world.next).receiver ≡ msg.receiver
  unfolding push_new
  message-receiver = ground (arith, receiver-eq)

  message-msgid : (taken.msgheap.msg y.world.next).msgid ≡ msg.rek
  unfolding push_new
  message-msgid = ground arith

  taken-older : (q : ℕ) → In y.world.msgheap q → taken.msgheap.msg q ≡ y.world.msgheap.msg q
  unfolding push_new
  taken-older q i =
      older buf receiver msg.rek one_message sent
        (write_to-IsConsistent b (request_of one_message buf) y.world v) sent-IsFree q
        (λ e. free.heap (subst (In y.world.msgheap) e i))

  taken-connected : get_connect (taken.msgheap.msg y.world.next).receiver taken ≡ some b
  unfolding push_new get_connect
  taken-connected = ap (λ u. get_connect u taken) message-receiver ∙ connected

  taken-IsLone : IsLone y.world.next taken
  unfolding push_new
  taken-IsLone q i e f =
      fresh q i (sym (ap (λ m. m.msgid) (taken-older q i)) ∙ e ∙ message-msgid)
        (sym (ap (λ m. m.receiver) (taken-older q i)) ∙ f ∙ message-receiver)

  -- Transfer gets a message that protobuf can marshal, for a user who is connected here by a
  -- connection that carries the user's id; the manager is consistent, the address of the next
  -- message is not in use, the heap has no message of this id for the user, and the push channel is
  -- empty. When TimeLoop then takes the case of the push channel, the process has not panicked, the
  -- manager is consistent, and the message waits in the heap for its ack.
  pub transfer-time_loop :
      (w' : World) × (time_loop now (transfer sv msg y).world push_case ≡ some w')
      × IsConsistent w'
      × In w'.msgheap y.world.next
  unfolding push_new
  transfer-time_loop =
      let (k, i) =
        push-IsConsistent now y.world.next b taken taken-IsConsistent free.heap taken-IsLone
          taken-connected in
      (push now y.world.next taken, rw transfer-eq loop-eq, k, i)
