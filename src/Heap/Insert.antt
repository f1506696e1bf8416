-- ===== src/Heap/Insert.antt =====
-- Push, Fix and Delete on a valid heap.
use zqim.Prelude.{ℕ, ◌+◌, ◌-◌, ◌<◌, ◌≡◌, ◌≢◌, refl, sym, ◌∙◌, ap, arith, none, some, ◌⊎◌, inl, inr}
use mathlib.Core.Path.{subst}
use native.Mathlib.Decide.{dec_lt}
use zqim.Heap.{Heap, push_back, parent, up, push, fix, delete}
use zqim.Heap.Order.{UpInv, NearInv}
use zqim.Heap.Members.{In, IsIndexed, SameMessage, SameMessage-trans, Rearranged}
use zqim.Heap.Ops.{IsValid, Repaired, up-Repaired, repair-Repaired, Removed, remove-Removed}

-- `h'` is the valid heap `h` with the message at `p` put in; the content of every message is as it
-- was, and so is every message that is not in the heap.
pub record Added (h : Heap) (p : ℕ) (h' : Heap) : Type 0 where
  pub valid : IsValid h'
  pub len : h'.len ≡ h.len + 1
  pub there : In h' p
  pub kept : (q : ℕ) → In h q → In h' q
  pub only : (q : ℕ) → In h' q → (q ≡ p) ⊎ In h q
  pub same : (q : ℕ) → SameMessage (h.msg q) (h'.msg q)
  pub apart : (q : ℕ) → q ≢ p → ¬ In h q → h'.msg q ≡ h.msg q

module _ (h : Heap) (p : ℕ) (v : IsValid h) (new : ¬ In h p) where
  fresh : (c : ℕ) → c < h.len → h.at c ≢ p
  fresh c l e = new (c, l, e)

  push_back-IsIndexed : IsIndexed (push_back h p)
  unfolding push_back
  push_back-IsIndexed c l = ground (arith, v.indexed c, fresh c)

  push_back-UpInv : UpInv (push_back h p) (h.len + 1) h.len
  unfolding push_back
  push_back-UpInv = record {
    edges = λ c q r s. ground (arith, v.heap c, fresh c, fresh (parent c));
    bridged = λ c q r s t. absurd (omega arith);
  }

  push_back-len : (push_back h p).len ≡ h.len + 1
  unfolding push_back
  push_back-len = refl

  push_back-only : (q : ℕ) → In (push_back h p) q → (q ≡ p) ⊎ In h q
  unfolding push_back
  push_back-only q (c, l, e) = elim (dec_lt c h.len) [
    | yes old ↦ inr (c, old, ground arith)
    | no end ↦ inl (ground arith)
  ]

  push_back-same : (q : ℕ) → SameMessage (h.msg q) ((push_back h p).msg q)
  unfolding push_back
  push_back-same q = ground arith

  push_back-apart : (q : ℕ) → q ≢ p → (push_back h p).msg q ≡ h.msg q
  unfolding push_back
  push_back-apart q d = ground arith

  push_back-kept : (q : ℕ) → In h q → In (push_back h p) q
  unfolding push_back
  push_back-kept q (c, l, e) = (c, omega arith, ground arith)

  push_back-there : In (push_back h p) p
  unfolding push_back
  push_back-there = (h.len, omega arith, ground arith)

  added : (h' : Heap) → Repaired (push_back h p) (h.len + 1) h' → Added h p h'
  added h' r = record {
    valid = record {
      heap = λ c pos l. r.heap c pos (omega (arith, r.moves.len, push_back-len));
      indexed = r.moves.indexed;
    };
    len = r.moves.len ∙ push_back-len;
    there = r.moves.forth p push_back-there;
    kept = λ q m. r.moves.forth q (push_back-kept q m);
    only = λ q m. push_back-only q (r.moves.back q m);
    same = λ q. SameMessage-trans (push_back-same q) (r.moves.same q);
    apart =
        λ q d n. r.moves.apart q (λ m. outside q d n (push_back-only q m)) ∙ push_back-apart q d;
  }
    where
      outside : (q : ℕ) → q ≢ p → ¬ In h q → (q ≡ p) ⊎ In h q → ⊥
      outside q d n (inl e) = d e
      outside q d n (inr m) = n m

  -- heap.Push puts a message that is not in the heap yet into a valid heap.
  pub push-Added : Added h p (push h p)
  unfolding push
  push-Added =
      let start : (push_back h p).len - 1 ≡ h.len = omega (arith, push_back-len) in
      subst (λ j. Added h p (up (push_back h p) j)) (sym start)
        (added _ (
          up-Repaired (push_back h p) h.len (h.len + 1) (omega arith) (omega (arith, push_back-len))
            push_back-IsIndexed push_back-UpInv))

-- heap.Fix after a change of one message's timeout: a heap of the same messages again.
pub fix-IsValid :
    (h : Heap) (i : ℕ)
    → i < h.len
    → IsIndexed h
    → NearInv h h.len i
    → IsValid (fix h i) × Rearranged h (fix h i)
unfolding fix
fix-IsValid h i l v near =
    let r = repair-Repaired h i h.len l (omega arith) v near in
    (
      record {
        heap = λ c pos s. r.heap c pos (omega (arith, r.moves.len));
        indexed = r.moves.indexed;
      },
      r.moves,
    )

-- MinHeap.Delete of a message in a valid heap takes out exactly that message.
pub delete-Removed :
    (h : Heap) (p : ℕ) → IsValid h → In h p → (h' : Heap) × (delete h p ≡ some h') × Removed h p h'
unfolding delete
delete-Removed h p v (i, l, e) =
    let index : (h.msg p).index ≡ some i = ap (λ q. (h.msg q).index) (sym e) ∙ v.indexed i l in
    let (h', removed, r) = remove-Removed h i v l in
    (h', rw (index, delete) (rw removed), subst (λ q. Removed h q h') e r)

-- MinHeap.Delete of a message that was taken out before changes nothing.
pub delete_gone : (h : Heap) (p : ℕ) → (h.msg p).index ≡ none → delete h p ≡ some h
unfolding delete
delete_gone h p e = rw (e, delete)
