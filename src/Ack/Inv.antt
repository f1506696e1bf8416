-- ===== src/Ack/Inv.antt =====
-- The invariant of the manager: the heap, the contexts of the connections and the messages agree.
use mathlib.Core.Path.{subst}
use native.Mathlib.Decide.{ℕ_discrete}
use zqim.Prelude.{
  ℕ, ◌<◌, ◌≡◌, ◌≢◌, refl, ◌∙◌, ap, arith, Option, none, some, ◌⊎◌, inl, inr, nat_eq, Option-cases,
}
use zqim.Prelude.Maps
use zqim.Conn.{ctx_get, ctx_delete}
use zqim.Heap.{AckMessage, Heap, update}
use zqim.Heap
use zqim.Heap.Members.{In}
use zqim.Heap.Ops.{IsValid, Removed}
use zqim.Heap.Insert.{Added, push-Added, delete-Removed, delete_gone}
use zqim.Ack.{World, get_connect, on_conn, set_message, renewed, delete}

-- A message that a context points to: it has the key's id and the user's id, and it is in the heap
-- or known to be out of it.
pub record IsTracked (h : Heap) (uid k p : ℕ) : Type 0 where
  pub msgid : (h.msg p).msgid ≡ k
  pub receiver : (h.msg p).receiver ≡ uid
  pub place : In h p ⊎ ((h.msg p).index ≡ none)

-- A connection serves one user; contexts point to tracked messages; no two messages in the heap
-- have both the id and the receiver in common.
pub record IsConsistent (w : World) : Type 0 where
  pub heap : IsValid w.msgheap
  pub single : (u v a : ℕ) → get_connect u w ≡ some a → get_connect v w ≡ some a → u ≡ v
  pub tracked :
      (uid a k p : ℕ)
      → get_connect uid w ≡ some a
      → ctx_get k (w.conn a) ≡ some p
      → IsTracked w.msgheap uid k p
  pub unique :
      (p q : ℕ)
      → In w.msgheap p
      → In w.msgheap q
      → (w.msgheap.msg p).msgid ≡ (w.msgheap.msg q).msgid
      → (w.msgheap.msg p).receiver ≡ (w.msgheap.msg q).receiver
      → p ≡ q

-- A message that was taken out of the heap stays tracked, and so do the others.
Removed-IsTracked :
    (h h' : Heap) (p uid k q : ℕ)
    → IsValid h
    → Removed h p h'
    → IsTracked h uid k q
    → IsTracked h' uid k q
Removed-IsTracked h h' p uid k q v r t = record {
  msgid = ground (arith, r.same q, t.msgid);
  receiver = ground (arith, r.same q, t.receiver);
  place = elim (ℕ_discrete q p) [
    | yes e ↦ inr (ap (λ x. (h'.msg x).index) e ∙ r.marked)
    | no d ↦ stay d t.place
  ];
}
  where
    stay : q ≢ p → In h q ⊎ ((h.msg q).index ≡ none) → In h' q ⊎ ((h'.msg q).index ≡ none)
    stay d (inl m) = inl ((r.others q d).0 m)
    stay d (inr e) = inr (
        ap (λ (x : AckMessage). x.index) (r.apart q d (λ (c, l, a). ground (arith, v.indexed c l)))
        ∙ e)

pub Removed-IsConsistent :
    (w : World) (p : ℕ) (h' : Heap)
    → IsConsistent w
    → Removed w.msgheap p h'
    → IsConsistent (record w { msgheap = h' })
unfolding get_connect
Removed-IsConsistent w p h' v r = record {
  heap = r.valid;
  single = v.single;
  tracked =
      λ uid a k q c x. Removed-IsTracked w.msgheap h' p uid k q v.heap r (v.tracked uid a k q c x);
  unique = λ q q' m m' e e'.
      v.unique q q' (old q m) (old q' m') (ground (arith, r.same q, r.same q'))
        (ground (arith, r.same q, r.same q'));
}
  where
    old : (q : ℕ) → In h' q → In w.msgheap q
    old q m = (r.others q (λ e. r.out (subst (In h') e m))).1 m

-- Forgetting an entry of a context.
pub ctx_delete-IsConsistent :
    (w : World) (a k : ℕ) → IsConsistent w → IsConsistent (on_conn a (ctx_delete k) w)
unfolding get_connect
ctx_delete-IsConsistent w a k v = record {
  heap = v.heap;
  single = v.single;
  tracked = λ uid b j q c x. v.tracked uid b j q c (kept b j q x);
  unique = v.unique;
}
  where
    kept :
        (b j q : ℕ)
        → ctx_get j (update w.conn a (ctx_delete k (w.conn a)) b) ≡ some q
        → ctx_get j (w.conn b) ≡ some q
    kept b j q x = ground (arith, Maps.lookup-erase k j (w.conn a).ctx)

-- What `delete` does, for an ack of message `k` from user `uid`.
pub data Deleted (k uid : ℕ) (w : World) (r : Option World) : Type 0 where
  -- no connection, or nothing is known of the message there
  ignored :
      (get_connect uid w ≡ none)
        ⊎ ((a : ℕ) × (get_connect uid w ≡ some a) × (ctx_get k (w.conn a) ≡ none))
      → r ≡ some w
      → Deleted k uid w r
  -- the message leaves the context, and the heap
  taken_out :
      (a p : ℕ) (h' : Heap)
      → get_connect uid w ≡ some a
      → ctx_get k (w.conn a) ≡ some p
      → In w.msgheap p
      → Removed w.msgheap p h'
      → r ≡ some (record (on_conn a (ctx_delete k) w) { msgheap = h' })
      → Deleted k uid w r
  -- the message leaves the context, and was not in the heap
  forgotten :
      (a p : ℕ)
      → get_connect uid w ≡ some a
      → ctx_get k (w.conn a) ≡ some p
      → ¬ In w.msgheap p
      → r ≡ some (on_conn a (ctx_delete k) w)
      → Deleted k uid w r

pub none-not-In : (h : Heap) (p : ℕ) → IsValid h → (h.msg p).index ≡ none → ¬ In h p
none-not-In h p v e (c, l, a) = ground (arith, v.indexed c l)

-- The ack of a message never makes the process panic: `delete` ignores it, or takes exactly that
-- message out of the context of its receiver, and out of the heap if it is still there.
pub delete-Deleted : (k uid : ℕ) (w : World) → IsConsistent w → Deleted k uid w (delete k uid w)
unfolding delete
delete-Deleted k uid w v = elim (Option-cases (get_connect uid w)) [
  | inl e ↦ ignored (inl e) (rw (e, delete))
  | inr (a, e) ↦ elim (Option-cases (ctx_get k (w.conn a))) [
    | inl x ↦ ignored (inr (a, e, x)) (rw (e, delete) (rw x))
    | inr (p, x) ↦ forget a p e x (v.tracked uid a k p e x).place
  ]
]
  where
    forget :
        (a p : ℕ)
        → get_connect uid w ≡ some a
        → ctx_get k (w.conn a) ≡ some p
        → In w.msgheap p ⊎ ((w.msgheap.msg p).index ≡ none)
        → Deleted k uid w (delete k uid w)
    forget a p e x (inl m) =
        let (h', d, r) = delete-Removed w.msgheap p v.heap m in
        taken_out a p h' e x m r (rw (e, delete) (rw x (rw d)))
    forget a p e x (inr i) =
        forgotten a p e x (none-not-In w.msgheap p v.heap i)
          (rw (e, delete) (rw x (rw (delete_gone w.msgheap p i))))

-- `delete` keeps the manager consistent, and does not panic.
pub delete-IsConsistent :
    (k uid : ℕ) (w : World)
    → IsConsistent w
    → (w' : World) × (delete k uid w ≡ some w') × IsConsistent w'
delete-IsConsistent k uid w v = go (delete-Deleted k uid w v)
  where
    go :
        Deleted k uid w (delete k uid w)
        → (w' : World) × (delete k uid w ≡ some w') × IsConsistent w'
    go (ignored c e) = (w, e, v)
    go (taken_out a p h' c x m r e) =
        (_, e, Removed-IsConsistent _ p h' (ctx_delete-IsConsistent w a k v) r)
    go (forgotten a p c x out e) = (_, e, ctx_delete-IsConsistent w a k v)

-- When no message in the heap has this id and receiver, `delete` leaves the heap alone.
pub delete_absent :
    (k uid : ℕ) (w : World)
    → IsConsistent w
    → ((q : ℕ)
        → In w.msgheap q
        → (w.msgheap.msg q).msgid ≡ k
        → (w.msgheap.msg q).receiver ≡ uid
        → ⊥)
    → (w' : World) × (delete k uid w ≡ some w') × IsConsistent w' × (w'.msgheap ≡ w.msgheap)
delete_absent k uid w v lone = go (delete-Deleted k uid w v)
  where
    go :
        Deleted k uid w (delete k uid w)
        → (w' : World) × (delete k uid w ≡ some w') × IsConsistent w' × (w'.msgheap ≡ w.msgheap)
    go (ignored c e) = (w, e, v, refl)
    go (taken_out a p h' c x m r e) =
        let t = v.tracked uid a k p c x in absurd (lone p m t.msgid t.receiver)
    go (forgotten a p c x out e) = (_, e, ctx_delete-IsConsistent w a k v, refl)

-- Renewing a message that is not in the heap does not disturb the heap.
module _ (now p : ℕ) (w : World) (v : IsConsistent w) (out : ¬ In w.msgheap p) where
  abbrev pub renew : World
  renew = set_message p (renewed now (w.msgheap.msg p)) w

  renew-apart : (c : ℕ) → c < w.msgheap.len → w.msgheap.at c ≢ p
  renew-apart c l e = out (c, l, e)

  renew-IsValid : IsValid renew.msgheap
  renew-IsValid = record {
    heap = λ c pos l.
        ground (arith, v.heap.heap c pos l, renew-apart c l, renew-apart (Heap.parent c));
    indexed = λ c l. ground (arith, v.heap.indexed c l, renew-apart c l);
  }

  pub renew-Added : Added renew.msgheap p (Heap.push renew.msgheap p)
  renew-Added = push-Added renew.msgheap p renew-IsValid out
