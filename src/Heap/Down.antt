-- ===== src/Heap/Down.antt =====
-- `down` restores the order below a message that may time out too late for its place, and reports
-- whether it moved.
use zqim.Prelude.{
  ℕ, zero, suc, ◌+◌, ◌-◌, ◌*◌, ◌≤◌, ◌<◌, ◌≡◌, refl, arith, ◌==◌, leb, not, ◌||◌, ◌⊎◌, Bool,
  if◌then◌else◌, Bool-cases, inl, inr, true, false,
}
use zqim.Heap.{Heap, key, less, swap, parent, child, down_loop, down}
use zqim.Heap.Order.{IsHeap, UpInv, DownInv, NearInv, key-swap}

-- `j` is the child of `i` that times out first.
record IsChild (h : Heap) (i n j : ℕ) : Type 0 where
  inside : j < n
  side : (j ≡ 2 * i + 1) ⊎ (j ≡ 2 * i + 2)
  least : (c : ℕ) → 0 < c → c < n → parent c ≡ i → key h j ≤ key h c

side_of : (c i : ℕ) → 0 < c → parent c ≡ i → (c ≡ 2 * i + 1) ⊎ (c ≡ 2 * i + 2)
side_of c i p e = omega arith

child-IsChild : (h : Heap) (i n : ℕ) → 2 * i + 1 < n → IsChild h i n (child h i n)
unfolding child less
child-IsChild h i n p = record {
  inside = ground arith;
  side = ground arith;
  least = λ c q r s. ground (arith, side_of c i q s);
}

module _ (h : Heap) (i n j : ℕ) (s : IsChild h i n j) (below : key h j ≤ key h i) where
  at :
      (c : ℕ)
      → key (swap h i j) c ≡ (if j == c then key h i else if i == c then key h j else key h c)
  at = key-swap h i j

  swap-DownInv : DownInv h n i → DownInv (swap h i j) n j
  swap-DownInv v = record {
    edges =
        λ c p q r. ground (arith, at c, at (parent c), v.edges c, v.bridged j, s.least c, s.side);
    bridged = λ c p q r t. ground (arith, at c, at (parent j), v.edges c, s.side);
  }

  swap-NearInv : NearInv h n i → DownInv (swap h i j) n j
  swap-NearInv v = record {
    edges =
        λ c p q r. ground (arith, at c, at (parent c), v.edges c, v.bridged j, s.least c, s.side);
    bridged = λ c p q r t. ground (arith, at c, at (parent j), v.edges c, s.side);
  }

abbrev stops : Heap → ℕ → ℕ → Bool
stops h i n = leb n (2 * i + 1) || not (less h (child h i n) i)

module _ (h : Heap) (i n : ℕ) where
  lower : stops h i n ≡ false → IsChild h i n (child h i n) × (key h (child h i n) ≤ key h i)
  unfolding less
  lower go = (child-IsChild h i n (ground arith), ground arith)

  settled : stops h i n ≡ true → (c : ℕ) → 0 < c → c < n → parent c ≡ i → key h i ≤ key h c
  unfolding less
  settled stop c p q r =
      let s = child-IsChild h i n (omega (arith, side_of c i p r)) in
      ground (arith, s.least c p q r)

down_loop-IsHeap :
    (fuel : ℕ) (h : Heap) (i n : ℕ)
    → n ≤ i + fuel
    → DownInv h n i
    → IsHeap (down_loop fuel h i n).0 n × (i ≤ (down_loop fuel h i n).1)
unfolding down_loop
down_loop-IsHeap zero h i n f v = ((λ c p q. ground (arith, v.edges c)), omega arith)
down_loop-IsHeap (suc fuel) h i n f v = elim (Bool-cases (stops h i n)) [
  | inl stop ↦ rw stop ((λ c p q. ground (arith, v.edges c, settled h i n stop c p q)), omega arith)
  | inr go ↦
      let (s, below) = lower h i n go in
      let (heap, far) =
        down_loop-IsHeap fuel (swap h i (child h i n)) (child h i n) n (omega (arith, s.side))
          (swap-DownInv h i n _ s below v) in
      rw go (heap, omega (arith, s.side))
]

-- What `down` does from a place where any edge may be out of order: it moves, and leaves a heap, or
-- it does not, and only the edge above may still be out of order.
pub data Downed (h : Heap) (i n : ℕ) (r : Heap × ℕ) : Type 0 where
  moved : i < r.1 → IsHeap r.0 n → Downed h i n r
  stayed : r ≡ (h, i) → UpInv h n i → Downed h i n r

down_loop-Downed :
    (fuel : ℕ) (h : Heap) (i n : ℕ)
    → n ≤ i + fuel
    → NearInv h n i
    → Downed h i n (down_loop fuel h i n)
unfolding down_loop
down_loop-Downed zero h i n f v =
    stayed refl (record { edges = λ c p q r. ground (arith, v.edges c); bridged = v.bridged })
down_loop-Downed (suc fuel) h i n f v = elim (Bool-cases (stops h i n)) [
  | inl stop ↦ rw stop (
      stayed refl (record {
        edges = λ c p q r. ground (arith, v.edges c, settled h i n stop c p q);
        bridged = v.bridged;
      }))
  | inr go ↦
      let (s, below) = lower h i n go in
      let (heap, far) =
        down_loop-IsHeap fuel (swap h i (child h i n)) (child h i n) n (omega (arith, s.side))
          (swap-NearInv h i n _ s below v) in
      rw go (moved (omega (arith, s.side)) heap)
]

pub down-IsHeap : (h : Heap) (i n : ℕ) → DownInv h n i → IsHeap (down h i n).0 n
unfolding down
down-IsHeap h i n v = (down_loop-IsHeap (n - i) h i n (omega arith) v).0

pub down-Downed : (h : Heap) (i n : ℕ) → NearInv h n i → Downed h i n (down h i n)
unfolding down
down-Downed h i n = down_loop-Downed (n - i) h i n (omega arith)
