-- ===== src/Ack/Rounds.antt =====
-- One round of the ticker's case of TimeLoop, in a consistent state.
use mathlib.Core.Path.{subst}
use zqim.Prelude.{
  ℕ, ◌+◌, ◌≤◌, ◌<◌, ◌≡◌, ◌≢◌, refl, sym, ap, ◌∙◌, none, [], ◌∷◌, ◌++◌, arith, ◌==◌, some, ◌⊎◌, inl,
  inr, Option-cases, false, Bool-cases, ltb, ltb→le, ltb→lt,
}
use zqim.Frame.{Request}
use zqim.Conn.{Connect, ctx_get, write, WriteResult, written, closed_error, block_error}
use zqim.Heap.{AckMessage, Heap, update, pop}
use zqim.Heap
use zqim.Heap.Order.{root_least}
use zqim.Heap.Members.{In}
use zqim.Heap.Ops.{Removed, pop-Removed}
use zqim.Ack.{
  World, get_connect, on_conn, push, delete, Round, break_off, go_on, retry, resend_request,
  tick_round, unless_sent, or_panic,
}
use zqim.Ack.Inv.{IsConsistent, Removed-IsConsistent, delete_absent}
use zqim.Ack.Push.{IsLone, push-IsConsistent, push-Waits, push-Stays, push_chan}
use zqim.Ack.Treated.{Treated, resent, refused, spent, gone, write-written, write-refused}

abbrev pub timeout : World → ℕ → ℕ
timeout w q = (w.msgheap.msg q).timeout

-- `q` waits in the heap of `w` beyond its time.
abbrev pub IsOverdue : ℕ → World → ℕ → Type 0
IsOverdue now w q = In w.msgheap q × (timeout w q < now)

-- What one round makes of the world: it stops where nothing is overdue, or goes on in a consistent
-- world where one overdue message less waits, which was sent again or given up.
pub data RoundOk (now : ℕ) (w : World) (r : Round) : Type 0 where
  stopped : r ≡ break_off → ((q : ℕ) → ¬ IsOverdue now w q) → RoundOk now w r
  went :
      (p : ℕ) (w' : World)
      → r ≡ go_on w'
      → IsConsistent w'
      → w.msgheap.len ≤ w'.msgheap.len + 1
      → IsOverdue now w p
      → ((q : ℕ) → IsOverdue now w' q → IsOverdue now w q × (q ≢ p))
      → ((q : ℕ) → IsOverdue now w q → q ≢ p → IsOverdue now w' q)
      → Treated now w p w'
      → RoundOk now w r

write-ctx : (c : Connect) (r : Request) → (write c r).0.ctx ≡ c.ctx
unfolding write
write-ctx c r = ground arith

-- A write to a connection does not touch its context.
write-IsConsistent :
    (w : World) (a : ℕ) (r : Request)
    → IsConsistent w
    → IsConsistent (on_conn a (λ _. (write (w.conn a) r).0) w)
unfolding get_connect
write-IsConsistent w a r v = record {
  heap = v.heap;
  single = v.single;
  tracked = λ uid b k q c x. v.tracked uid b k q c (kept b k q x);
  unique = v.unique;
}
  where
    kept :
        (b k q : ℕ)
        → ctx_get k (update w.conn a (write (w.conn a) r).0 b) ≡ some q
        → ctx_get k (w.conn b) ≡ some q
    kept b k q x = ground (arith, write-ctx (w.conn a) r)

module _ (now p : ℕ) (w : World) (h' : Heap) (v : IsConsistent w) (there : In w.msgheap p)
    (late : timeout w p < now) (r : Removed w.msgheap p h') where
  -- The world once the message at `p` is popped.
  abbrev popped : World
  popped = record w { msgheap = h' }

  popped-IsConsistent : IsConsistent popped
  popped-IsConsistent = Removed-IsConsistent w p h' v r

  alone : IsLone p popped
  alone q m e f =
      let d : q ≢ p = λ x. r.out (subst (In h') x m) in
      d (
        v.unique q p ((r.others q d).1 m) there (ground (arith, r.same q, r.same p))
          (ground (arith, r.same q, r.same p)))

  popped-due : (q : ℕ) → In h' q → (h'.msg q).timeout < now → IsOverdue now w q × (q ≢ p)
  popped-due q m l =
      let d : q ≢ p = λ x. r.out (subst (In h') x m) in
      (((r.others q d).1 m, ground (arith, r.same q)), d)

  still-due : (q : ℕ) → IsOverdue now w q → q ≢ p → In h' q × ((h'.msg q).timeout < now)
  still-due q (m, l) d = ((r.others q d).0 m, ground (arith, r.same q, l))

  -- A message that is given up.
  dropped :
      (s : Round)
      → ((x : World) → ¬ In x.msgheap p → Treated now w p x)
      → (w' : World) × (s ≡ go_on w') × IsConsistent w' × (w'.msgheap ≡ h')
      → RoundOk now w s
  dropped s why (w', e, c, same) =
      went p w' e c (omega (arith, ap (λ (x : Heap). x.len) same, r.len)) (there, late)
        (λ q (m, l). popped-due q (subst (λ x. In x q) same m) (ground (arith, same)))
        (λ q o d.
          subst (λ (x : Heap). In x q × ((x.msg q).timeout < now)) (sym same) (still-due q o d))
        (why w' (λ m. r.out (subst (λ x. In x p) same m)))

  drop-RoundOk :
      ((x : World) → ¬ In x.msgheap p → Treated now w p x)
      → RoundOk now w (or_panic (delete (h'.msg p).msgid (h'.msg p).receiver popped))
  drop-RoundOk why =
      let (w', e, c, same) =
        delete_absent (h'.msg p).msgid (h'.msg p).receiver popped popped-IsConsistent alone in
      dropped _ why (w', ap or_panic e, c, same)

  -- A message that is sent again, or that its connection does not take.
  module _ (a : ℕ) (c : get_connect (h'.msg p).receiver popped ≡ some a) where
    abbrev sent : World
    sent = on_conn a (λ _. (write (w.conn a) (resend_request (h'.msg p))).0) popped

    sent-IsConsistent : IsConsistent sent
    sent-IsConsistent = write-IsConsistent popped a _ popped-IsConsistent

    -- The receiver of the message, before it was popped.
    receiver : get_connect (w.msgheap.msg p).receiver w ≡ some a
    unfolding get_connect
    receiver = ap (λ u. get_connect u w) (ground (arith, r.same p)) ∙ c

    closed_or_full :
        ((write (w.conn a) (resend_request (h'.msg p))).1 ≡ closed_error)
          ⊎ ((write (w.conn a) (resend_request (h'.msg p))).1 ≡ block_error)
        → RoundOk now w (go_on sent)
    closed_or_full e =
        dropped _ (λ x. refused a receiver (write-refused (w.conn a) _ e))
          (sent, refl, sent-IsConsistent, refl)

    same_request : resend_request (h'.msg p) ≡ resend_request (w.msgheap.msg p)
    same_request = ground (arith, r.same p)

    sent_chan :
        (sent.conn a).write_chan ≡ (write (w.conn a) (resend_request (h'.msg p))).0.write_chan
    sent_chan = ground arith

    send-RoundOk :
        (x : WriteResult)
        → (h'.msg p).ntime ≤ 3
        → (write (w.conn a) (resend_request (h'.msg p))).1 ≡ x
        → RoundOk now w (go_on (unless_sent x sent (push now p sent)))
    unfolding get_connect
    send-RoundOk closed_error few y = closed_or_full (inl y)
    send-RoundOk block_error few y = closed_or_full (inr y)
    send-RoundOk written few y =
        let out : ¬ In sent.msgheap p = r.out in
        let next = push-IsConsistent now p a sent sent-IsConsistent out alone c in
        let (len, waits) = push-Waits now p a sent sent-IsConsistent out alone c in
        went p (push now p sent) refl next.0 (omega (arith, len, r.len)) (there, late)
          (λ q (m, l). due q l (waits q m))
          (λ q o d.
            let (m, l) = still-due q o d in
            let (n, t) = push-Stays now p a sent sent-IsConsistent out alone c q m in
            (n, omega (arith, t, l)))
          (resent a receiver (omega (arith, few, (r.same p).ntime))
            (push_chan now p a sent sent-IsConsistent out alone c a
              ∙ sent_chan
              ∙ write-written (w.conn a) (resend_request (h'.msg p)) y
              ∙ ap (λ (z : Request). (w.conn a).write_chan ++ z ∷ []) same_request)
            next.1 (own (waits p next.1)))
      where
        own :
            ((p ≡ p) × (timeout (push now p sent) p ≡ now + 5))
              ⊎ (In h' p × (timeout (push now p sent) p ≡ (h'.msg p).timeout))
            → timeout (push now p sent) p ≡ now + 5
        own (inl (e, t)) = t
        own (inr (m, t)) = absurd (r.out m)

        due :
            (q : ℕ)
            → timeout (push now p sent) q < now
            → ((q ≡ p) × (timeout (push now p sent) q ≡ now + 5))
              ⊎ (In h' q × (timeout (push now p sent) q ≡ (h'.msg q).timeout))
            → IsOverdue now w q × (q ≢ p)
        due q l (inl (e, t)) = absurd (omega arith)
        due q l (inr (m, t)) = popped-due q m (omega arith)

  retry-RoundOk : RoundOk now w (retry now p popped)
  unfolding retry get_connect
  retry-RoundOk = elim (Option-cases (get_connect (h'.msg p).receiver popped)) [
    | inl e ↦
        let lost : get_connect (w.msgheap.msg p).receiver w ≡ none =
          ap (λ u. get_connect u w) (ground (arith, r.same p)) ∙ e in
        rw (e, retry) (drop-RoundOk (λ x. gone lost))
    | inr (a, e) ↦ elim (Bool-cases (ltb 3 (h'.msg p).ntime)) [
      | inl often ↦
          let sent_often = ltb→lt 3 _ often in
          rw (e, retry)
            (rw often (drop-RoundOk (λ x. spent (omega (arith, sent_often, (r.same p).ntime)))))
      | inr fresh ↦ rw (e, retry) (rw fresh (send-RoundOk a e _ (ltb→le 3 _ fresh) refl))
    ]
  ]

pub tick_round-RoundOk :
    (now : ℕ) (w : World) → IsConsistent w → 0 < w.msgheap.len → RoundOk now w (tick_round now w)
unfolding tick_round
tick_round-RoundOk now w v pos = elim (Bool-cases (ltb (Heap.key w.msgheap 0) now)) [
  | inr calm ↦
      rw (full, calm)
        (stopped refl λ q ((c, l, e), late).
          let least = root_least w.msgheap w.msgheap.len c v.heap.heap l in
          let same = ap (timeout w) e in omega (arith, ltb→le _ _ calm))
  | inl late ↦
      let (h', e, r, least) = pop-Removed w.msgheap v.heap pos in
      rw (full, late, e)
        (retry-RoundOk now (w.msgheap.at 0) w h' v (0, pos, refl) (ltb→lt _ _ late) r)
]
  where
    full : (w.msgheap.len == 0) ≡ false
    full = ground arith
