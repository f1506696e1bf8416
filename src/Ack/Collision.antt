-- ===== src/Ack/Collision.antt =====
-- What happens when two messages for one receiver have the same id: a chat message and a group
-- message may, since each table checks only its own ids.
use mathlib.Core.Path.{subst}
use zqim.Prelude.{
  ℕ, ◌<◌, ◌≡◌, ◌≢◌, refl, sym, ◌∙◌, ap, arith, ◌==◌, none, some, true, false, ltb, lt→ltb,
}
use zqim.Conn.{ctx_get, ctx_delete}
use zqim.Heap.{Heap, pop}
use zqim.Heap
use zqim.Heap.Members.{In}
use zqim.Heap.Ops.{IsValid, Removed, pop-Removed}
use zqim.Heap.Insert.{delete-Removed}
use zqim.Ack.{World, get_connect, delete, go_on, panic, retry, tick_round, tick_loop, tick, on_conn}

module _ (now a : ℕ) (w : World) (valid : IsValid w.msgheap) (two : w.msgheap.len ≡ 2)
    (late : (w.msgheap.msg (w.msgheap.at 0)).timeout < now)
    (spent : 3 < (w.msgheap.msg (w.msgheap.at 0)).ntime)
    (connected : get_connect (w.msgheap.msg (w.msgheap.at 0)).receiver w ≡ some a)
    (shadowed : ctx_get (w.msgheap.msg (w.msgheap.at 0)).msgid (w.conn a)
      ≡ some (w.msgheap.at 1)) where
  abbrev p : ℕ
  p = w.msgheap.at 0

  abbrev q : ℕ
  q = w.msgheap.at 1

  q-ne-p : q ≢ p
  q-ne-p e = ground (arith, valid.indexed 0, valid.indexed 1)

  module _ (h' h'' : Heap) (popped : pop w.msgheap ≡ some (p, h')) (r : Removed w.msgheap p h')
      (deleted : Heap.delete h' q ≡ some h'') where
    abbrev left : World
    left = record w { msgheap = h' }

    connected' : get_connect (h'.msg p).receiver left ≡ some a
    unfolding get_connect
    connected' = ap (λ u. get_connect u w) (ground (arith, r.same p)) ∙ connected

    shadowed' : ctx_get (h'.msg p).msgid (w.conn a) ≡ some q
    shadowed' = ap (λ k. ctx_get k (w.conn a)) (ground (arith, r.same p)) ∙ shadowed

    abbrev bare : World
    bare = record (on_conn a (ctx_delete (h'.msg p).msgid) left) { msgheap = h'' }

    give_up : delete (h'.msg p).msgid (h'.msg p).receiver left ≡ some bare
    unfolding delete
    give_up = rw (connected', delete) (rw shadowed' (rw deleted))

    first : tick_round now w ≡ go_on bare
    unfolding tick_round
    first =
        let full : (w.msgheap.len == 0) ≡ false = ground arith in
        let spent' : ltb 3 (h'.msg p).ntime ≡ true = ground (arith, r.same p) in
        rw (full, lt→ltb _ _ late, popped) (rw (connected', retry) (rw (spent', give_up)))

  second : (x : World) → x.msgheap.len ≡ 0 → tick_round now x ≡ panic
  unfolding tick_round
  second x e = rw e

  -- The heap is valid and holds exactly two messages; the first is overdue and was sent more than
  -- three times; its receiver is connected, and the entry of its id in the connection's context is
  -- the second message. Then giving up the first takes the second out of the heap too, and the
  -- round that the loop still makes reads an empty heap: the process panics.
  pub tick-shadowed : tick now w ≡ none
  unfolding tick
  tick-shadowed =
      let (h', popped, r, least) = pop-Removed w.msgheap valid (omega (arith, two)) in
      let there : In h' q = (r.others q q-ne-p).0 (1, omega (arith, two), refl) in
      let (h'', deleted, s) = delete-Removed h' q r.valid there in
      let gone = second (bare h' h'' popped r deleted) (omega (arith, two, r.len, s.len)) in
      subst (λ n. tick_loop n now w ≡ none) (sym two)
        (rw (first h' h'' popped r deleted, tick_loop) (rw (gone, tick_loop)))
