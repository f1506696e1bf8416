-- ===== src/Heap/Ops.antt =====
-- Push, Pop, Remove, Fix and Delete on a heap whose messages know their positions.
use mathlib.Core.Path.{subst}
use zqim.Prelude.{
  ℕ, zero, suc, ◌+◌, ◌-◌, ◌≤◌, ◌<◌, ◌≡◌, ◌≢◌, refl, sym, ◌∙◌, ap, arith, ◌==◌, leb, lt→ltb, le→ltb,
  none, some, Bool-cases, inl, inr, false, ◌↔◌,
}
use zqim.Heap.{
  Heap, swap, pop_back, parent, child, up_loop, up, down_loop, down, pop, remove, repair,
}
use zqim.Heap.Order.{IsHeap, UpInv, DownInv, NearInv, key-swap, at-swap, root_least}
use zqim.Heap.Up.{up-IsHeap}
use zqim.Heap.Down.{Downed, moved, stayed, down-IsHeap, down-Downed}
use zqim.Heap.Members.{
  In, IsIndexed, SameMessage, Rearranged, Rearranged-refl, Rearranged-trans, swap-Rearranged,
  up-Rearranged, down-Rearranged, child-lt,
}

-- A heap in order, whose messages know their positions.
pub record IsValid (h : Heap) : Type 0 where
  pub heap : IsHeap h h.len
  pub indexed : IsIndexed h

-- The loops stay inside the part of the slice that they are given.
up_loop-at : (fuel : ℕ) (h : Heap) (j c : ℕ) → j < c → (up_loop fuel h j).at c ≡ h.at c
unfolding up_loop swap
up_loop-at zero h j c l = refl
up_loop-at (suc fuel) h j c l = ground (arith, up_loop-at fuel (swap h (parent j) j) (parent j) c)

down_loop-at : (fuel : ℕ) (h : Heap) (i n c : ℕ) → n ≤ c → (down_loop fuel h i n).0.at c ≡ h.at c
unfolding down_loop swap
down_loop-at zero h i n c l = refl
down_loop-at (suc fuel) h i n c l =
    ground (arith, down_loop-at fuel (swap h i (child h i n)) (child h i n) n c, child-lt h i n)

up-at : (h : Heap) (j c : ℕ) → j < c → (up h j).at c ≡ h.at c
unfolding up
up-at h j c = up_loop-at j h j c

down-at : (h : Heap) (i n c : ℕ) → n ≤ c → (down h i n).0.at c ≡ h.at c
unfolding down
down-at h i n c = down_loop-at (n - i) h i n c

-- What a restored order makes of the first `n` places; the others are left alone.
pub record Repaired (h : Heap) (n : ℕ) (h' : Heap) : Type 0 where
  pub heap : IsHeap h' n
  pub moves : Rearranged h h'
  pub above : (c : ℕ) → n ≤ c → h'.at c ≡ h.at c

down-Repaired :
    (h : Heap) (i n : ℕ) → n ≤ h.len → IsIndexed h → DownInv h n i → Repaired h n (down h i n).0
down-Repaired h i n m v d = record {
  heap = down-IsHeap h i n d;
  moves = down-Rearranged h i n m v;
  above = down-at h i n;
}

module _ (h : Heap) (i n : ℕ) (l : i < n) (m : n ≤ h.len) (v : IsIndexed h) where
  pub up-Repaired : UpInv h n i → Repaired h n (up h i)
  up-Repaired u = record {
    heap = up-IsHeap h n i l u;
    moves = up-Rearranged h i (omega arith) v;
    above = λ c p. up-at h i c (omega arith);
  }

  pub repair-Repaired : NearInv h n i → Repaired h n (repair h i n)
  unfolding repair
  repair-Repaired near = go (down h i n) refl (down-Downed h i n near)
    where
      go : (r : Heap × ℕ) → down h i n ≡ r → Downed h i n r → Repaired h n (repair h i n)
      go r e (moved far heap) =
          rw (e, repair)
            (rw (lt→ltb i r.1 far) (record {
              heap = heap;
              moves = subst (λ (x : Heap × ℕ). Rearranged h x.0) e (down-Rearranged h i n m v);
              above = λ c p. ap (λ (x : Heap × ℕ). x.0.at c) (sym e) ∙ down-at h i n c p;
            }))
      go r e (stayed s u) = rw (e ∙ s, repair) (rw (le→ltb i i (omega arith)) (up-Repaired u))

-- `h'` is the valid heap `h` without the message at `p`, which is marked as taken out; the content
-- of every message is as it was.
pub record Removed (h : Heap) (p : ℕ) (h' : Heap) : Type 0 where
  pub valid : IsValid h'
  pub len : h'.len + 1 ≡ h.len
  pub out : ¬ In h' p
  pub marked : (h'.msg p).index ≡ none
  pub others : (q : ℕ) → q ≢ p → In h q ↔ In h' q
  pub same : (q : ℕ) → SameMessage (h.msg q) (h'.msg q)
  pub apart : (q : ℕ) → q ≢ p → ¬ In h q → h'.msg q ≡ h.msg q

module _ (h h₁ : Heap) (n p : ℕ) (size : h.len ≡ suc n) (moves : Rearranged h h₁)
    (heap : IsHeap h₁ n) (last : h₁.at n ≡ p) where
  size₁ : h₁.len ≡ suc n
  size₁ = moves.len ∙ size

  last_index : h₁.at (h₁.len - 1) ≡ p
  last_index = ap h₁.at (omega (arith, size₁)) ∙ last

  distinct : (c : ℕ) → c < n → h₁.at c ≢ p
  distinct c l e =
      let at_c = moves.indexed c (omega (arith, size₁)) in
      let at_n = moves.indexed n (omega (arith, size₁)) in ground (arith, last)

  pop_back-eq : pop_back h₁ ≡ (p, (pop_back h₁).1)
  unfolding pop_back
  pop_back-eq = λ i. (last_index i, (pop_back h₁).1)

  pop_back-Removed : Removed h p (pop_back h₁).1
  unfolding pop_back
  pop_back-Removed = record {
    valid = record {
      heap = λ c pos l. ground (arith, heap c, size₁);
      indexed =
          λ c l. ground (arith, moves.indexed c, distinct c (omega (arith, size₁)), last_index);
    };
    len = omega (arith, size₁, moves.len);
    out = λ (c, l, e). distinct c (omega (arith, size₁)) e;
    marked = ground (arith, last_index);
    others = λ q d. (
      λ m. let (c, l, e) = moves.forth q m in (c, ground (arith, size₁, last), e),
      λ (c, l, e). moves.back q (c, omega arith, e),
    );
    same = λ q. ground (arith, moves.same q, last_index);
    apart = λ q d n. ground (arith, moves.apart q n, last_index);
  }

-- heap.Pop on a heap that is not empty returns a message that times out first, and leaves a valid
-- heap of the others.
pub pop-Removed :
    (h : Heap)
    → IsValid h
    → 0 < h.len
    → (h' : Heap) × (pop h ≡ some (h.at 0, h'))
      × Removed h (h.at 0) h'
      × ((q : ℕ) → In h q → (h.msg (h.at 0)).timeout ≤ (h.msg q).timeout)
unfolding pop
pop-Removed h v pos =
    let n = h.len - 1 in
    let size : h.len ≡ suc n = omega arith in
    let first = swap-Rearranged h 0 n (omega arith) (omega arith) v.indexed in
    let d : DownInv (swap h 0 n) n 0 = record {
      edges = λ c p q r. ground (arith, key-swap h 0 n c, key-swap h 0 n (parent c), v.heap c);
      bridged = λ c p q r s. absurd (omega arith);
    } in
    let r = down-Repaired (swap h 0 n) 0 n (omega (arith, first.len)) first.indexed d in
    let traded : (swap h 0 n).at n ≡ h.at 0 = ground (arith, at-swap h 0 n n) in
    let last = r.above n (omega arith) ∙ traded in
    let nonzero : (h.len == 0) ≡ false = ground arith in
    let moves = Rearranged-trans first r.moves in
    (
      _,
      rw nonzero (ap some (pop_back-eq h _ n (h.at 0) size moves r.heap last)),
      pop_back-Removed h _ n (h.at 0) size moves r.heap last,
      λ q (c, l, e). ground (arith, root_least h h.len c v.heap l),
    )

-- heap.Remove at a position of a valid heap takes out the message that stands there.
pub remove-Removed :
    (h : Heap) (i : ℕ)
    → IsValid h
    → i < h.len
    → (h' : Heap) × (remove h i ≡ some (h.at i, h')) × Removed h (h.at i) h'
unfolding remove
remove-Removed h i v l = elim (Bool-cases (h.len - 1 == i)) [
  | inl end ↦
      let n = h.len - 1 in
      let size : h.len ≡ suc n = omega arith in
      let last : h.at n ≡ h.at i = ap h.at (ground arith) in
      let whole = Rearranged-refl h v.indexed in
      let front : IsHeap h n = λ c p q. v.heap c p (omega arith) in
      rw (inside, end)
        (
          _,
          ap some (pop_back-eq h h n (h.at i) size whole front last),
          pop_back-Removed h h n (h.at i) size whole front last,
        )
  | inr middle ↦
      let n = h.len - 1 in
      let size : h.len ≡ suc n = omega arith in
      let below : i < n = ground arith in
      let first = swap-Rearranged h i n l (omega arith) v.indexed in
      let near : NearInv (swap h i n) n i = record {
        edges = λ c p q r s. ground (arith, key-swap h i n c, key-swap h i n (parent c), v.heap c);
        bridged = λ c p q r s.
            ground (arith, key-swap h i n c, key-swap h i n (parent i), v.heap c, v.heap i);
      } in
      let r =
        repair-Repaired (swap h i n) i n below (omega (arith, first.len)) first.indexed near in
      let traded : (swap h i n).at n ≡ h.at i = ground (arith, at-swap h i n n) in
      let last = r.above n (omega arith) ∙ traded in
      let moves = Rearranged-trans first r.moves in
      rw (inside, middle)
        (
          _,
          ap some (pop_back-eq h _ n (h.at i) size moves r.heap last),
          pop_back-Removed h _ n (h.at i) size moves r.heap last,
        )
]
  where
    inside : leb h.len i ≡ false
    inside = ground arith
