-- ===== src/Ack/Push.antt =====
-- The method `push`: a message goes into the heap of the manager and the context of its receiver.
use mathlib.Core.Path.{subst}
use native.Mathlib.Decide.{ℕ_discrete}
use zqim.Prelude.{
  ℕ, ◌+◌, ◌≡◌, ◌≢◌, sym, ◌∙◌, ap, arith, ◌==◌, none, some, ◌⊎◌, inl, inr, nat_eq, Bool-cases,
}
use zqim.Prelude.Maps
use zqim.Conn.{ctx_get, ctx_set}
use zqim.Heap.{AckMessage, Heap, update}
use zqim.Heap
use zqim.Heap.Members.{In}
use zqim.Heap.Insert.{Added}
use zqim.Ack.{World, get_connect, on_conn, push}
use zqim.Ack.Inv.{IsTracked, IsConsistent, none-not-In, renew, renew-Added}

-- No message of the heap has the id and the receiver of the one at `p`.
abbrev pub IsLone : ℕ → World → Type 0
IsLone p w =
    (q : ℕ)
    → In w.msgheap q
    → (w.msgheap.msg q).msgid ≡ (w.msgheap.msg p).msgid
    → (w.msgheap.msg q).receiver ≡ (w.msgheap.msg p).receiver
    → ⊥

module _ (now p a : ℕ) (w : World) (v : IsConsistent w) (out : ¬ In w.msgheap p) (lone : IsLone p w)
    (c : get_connect (w.msgheap.msg p).receiver w ≡ some a) where
  abbrev m : AckMessage
  m = w.msgheap.msg p

  abbrev h' : Heap
  h' = Heap.push (renew now p w v out).msgheap p

  abbrev pushed : World
  pushed = record (on_conn a (ctx_set m.msgid p) (renew now p w v out)) { msgheap = h' }

  pub push-eq : push now p w ≡ pushed
  unfolding push
  push-eq = rw (c, push)

  pub push-Added : Added (renew now p w v out).msgheap p h'
  push-Added = renew-Added now p w v out

  entry :
      (b k q : ℕ)
      → ctx_get k (pushed.conn b) ≡ some q
      → ((b ≡ a) × (k ≡ m.msgid) × (q ≡ p)) ⊎ (ctx_get k (w.conn b) ≡ some q)
  entry b k q x = elim (Bool-cases (a == b)) [
    | inr e ↦ inr (ground arith)
    | inl e ↦ elim (Bool-cases (m.msgid == k)) [
      | inl f ↦ inl (ground (arith, Maps.lookup-insert m.msgid k p (w.conn a).ctx))
      | inr f ↦ inr (ground (arith, Maps.lookup-insert m.msgid k p (w.conn a).ctx))
    ]
  ]

  self : (uid k : ℕ) → m.msgid ≡ k → m.receiver ≡ uid → IsTracked h' uid k p
  self uid k e f = record {
    msgid = ground (arith, push-Added.same p);
    receiver = ground (arith, push-Added.same p);
    place = inl push-Added.there;
  }

  other : (uid k q : ℕ) → q ≢ p → IsTracked w.msgheap uid k q → IsTracked h' uid k q
  other uid k q d t = record {
    msgid = ground (arith, push-Added.same q, t.msgid);
    receiver = ground (arith, push-Added.same q, t.receiver);
    place = stay t.place;
  }
    where
      stay : In w.msgheap q ⊎ ((w.msgheap.msg q).index ≡ none) → In h' q ⊎ ((h'.msg q).index ≡ none)
      stay (inl i) = inl (push-Added.kept q i)
      stay (inr e) =
          let n = none-not-In w.msgheap q v.heap e in inr (ground (arith, push-Added.apart q d n))

  pushed-IsTracked :
      (uid b k q : ℕ)
      → get_connect uid w ≡ some b
      → ctx_get k (pushed.conn b) ≡ some q
      → IsTracked h' uid k q
  pushed-IsTracked uid b k q e x = elim (entry b k q x) [
    | inl (eb, ek, eq) ↦
        subst (IsTracked h' uid k) (sym eq)
          (self uid k (sym ek) (v.single m.receiver uid a c (e ∙ ap some eb)))
    | inr old ↦ elim (ℕ_discrete q p) [
      | yes eq ↦
          let t = subst (IsTracked w.msgheap uid k) eq (v.tracked uid b k q e old) in
          subst (IsTracked h' uid k) (sym eq) (self uid k t.msgid t.receiver)
      | no d ↦ other uid k q d (v.tracked uid b k q e old)
    ]
  ]

  kept_msgid : (q : ℕ) → (h'.msg q).msgid ≡ (w.msgheap.msg q).msgid
  kept_msgid q = ground (arith, push-Added.same q)

  kept_receiver : (q : ℕ) → (h'.msg q).receiver ≡ (w.msgheap.msg q).receiver
  kept_receiver q = ground (arith, push-Added.same q)

  pushed_unique :
      (q r : ℕ)
      → In h' q
      → In h' r
      → (h'.msg q).msgid ≡ (h'.msg r).msgid
      → (h'.msg q).receiver ≡ (h'.msg r).receiver
      → q ≡ r
  pushed_unique q r i j e f = go (push-Added.only q i) (push-Added.only r j)
    where
      ids : (w.msgheap.msg q).msgid ≡ (w.msgheap.msg r).msgid
      ids = sym (kept_msgid q) ∙ e ∙ kept_msgid r

      receivers : (w.msgheap.msg q).receiver ≡ (w.msgheap.msg r).receiver
      receivers = sym (kept_receiver q) ∙ f ∙ kept_receiver r

      go : (q ≡ p) ⊎ In w.msgheap q → (r ≡ p) ⊎ In w.msgheap r → q ≡ r
      go (inl x) (inl y) = x ∙ sym y
      go (inl x) (inr y) = absurd (
          lone r y (sym ids ∙ ap (λ k. (w.msgheap.msg k).msgid) x)
            (sym receivers ∙ ap (λ k. (w.msgheap.msg k).receiver) x))
      go (inr x) (inl y) = absurd (
          lone q x (ids ∙ ap (λ k. (w.msgheap.msg k).msgid) y)
            (receivers ∙ ap (λ k. (w.msgheap.msg k).receiver) y))
      go (inr x) (inr y) = v.unique q r x y ids receivers

  -- A message that is new to the heap, for a receiver that is connected here: `push` keeps the
  -- manager consistent, and the message waits in the heap.
  pub push-IsConsistent : IsConsistent (push now p w) × In (push now p w).msgheap p
  unfolding get_connect
  push-IsConsistent =
      subst (λ (x : World). IsConsistent x × In x.msgheap p) (sym push-eq)
        (
          record {
            heap = push-Added.valid;
            single = v.single;
            tracked = pushed-IsTracked;
            unique = pushed_unique;
          },
          push-Added.there,
        )

  -- What waits in the heap after `push`: the message, due in five seconds, and what waited before.
  abbrev Waits : World → Type 0
  Waits x =
      (q : ℕ)
      → In x.msgheap q
      → ((q ≡ p) × ((x.msgheap.msg q).timeout ≡ now + 5))
        ⊎ (In w.msgheap q × ((x.msgheap.msg q).timeout ≡ (w.msgheap.msg q).timeout))

  pushed-Waits : Waits pushed
  pushed-Waits q i = go (push-Added.only q i)
    where
      go :
          (q ≡ p) ⊎ In w.msgheap q
          → ((q ≡ p) × ((h'.msg q).timeout ≡ now + 5))
            ⊎ (In w.msgheap q × ((h'.msg q).timeout ≡ (w.msgheap.msg q).timeout))
      go (inl e) = inl (e, ground (arith, push-Added.same q))
      go (inr j) =
          let d : p ≢ q = λ e. out (subst (In w.msgheap) (sym e) j) in
          inr (j, ground (arith, push-Added.same q))

  pub push-Waits : ((push now p w).msgheap.len ≡ w.msgheap.len + 1) × Waits (push now p w)
  push-Waits =
      subst (λ (x : World). (x.msgheap.len ≡ w.msgheap.len + 1) × Waits x) (sym push-eq)
        (push-Added.len, pushed-Waits)

  pushed-Stays :
      (q : ℕ) → In w.msgheap q → In h' q × ((h'.msg q).timeout ≡ (w.msgheap.msg q).timeout)
  pushed-Stays q j =
      let d : p ≢ q = λ e. out (subst (In w.msgheap) (sym e) j) in
      (push-Added.kept q j, ground (arith, push-Added.same q))

  -- What waited before goes on to wait, and nothing is written to a connection.
  pub push-Stays :
      (q : ℕ)
      → In w.msgheap q
      → In (push now p w).msgheap q
        × (((push now p w).msgheap.msg q).timeout ≡ (w.msgheap.msg q).timeout)
  push-Stays q j =
      subst
        (λ (x : World). In x.msgheap q × ((x.msgheap.msg q).timeout ≡ (w.msgheap.msg q).timeout))
        (sym push-eq) (pushed-Stays q j)

  pushed_chan : (b : ℕ) → (pushed.conn b).write_chan ≡ (w.conn b).write_chan
  pushed_chan b = ground arith

  pub push_chan : (b : ℕ) → ((push now p w).conn b).write_chan ≡ (w.conn b).write_chan
  push_chan b =
      subst (λ (x : World). (x.conn b).write_chan ≡ (w.conn b).write_chan) (sym push-eq)
        (pushed_chan b)
