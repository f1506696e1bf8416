-- ===== src/Heap/Up.antt =====
-- `up` restores the order above a message that may time out too early for its place.
use zqim.Prelude.{
  ℕ, zero, suc, ◌≤◌, ◌<◌, ◌≡◌, arith, ◌==◌, not, ◌||◌, Bool-cases, inl, inr, true, false,
}
use zqim.Heap.{Heap, key, less, swap, parent, up_loop, up}
use zqim.Heap.Order.{IsHeap, UpInv, key-swap}

swap-UpInv :
    (h : Heap) (n j : ℕ)
    → 0 < j
    → j < n
    → key h j ≤ key h (parent j)
    → UpInv h n j
    → UpInv (swap h (parent j) j) n (parent j)
swap-UpInv h n j pos inside below v =
    let at = key-swap h (parent j) j in
    record {
      edges = λ c p q r. ground (arith, at c, at (parent c), v.edges c, v.bridged c);
      bridged =
          λ c p q r t. ground (arith, at c, at (parent (parent j)), v.edges c, v.edges (parent j));
    }

UpInv-IsHeap :
    (h : Heap) (n j : ℕ) → (0 < j → key h (parent j) ≤ key h j) → UpInv h n j → IsHeap h n
UpInv-IsHeap h n j e v c p q = ground (arith, v.edges c)

up_loop-IsHeap :
    (fuel : ℕ) (h : Heap) (n j : ℕ) → j ≤ fuel → j < n → UpInv h n j → IsHeap (up_loop fuel h j) n
unfolding up_loop
up_loop-IsHeap zero h n j f inside v = UpInv-IsHeap h n j (λ p. absurd (omega arith)) v
up_loop-IsHeap (suc fuel) h n j f inside v =
    elim (Bool-cases (parent j == j || not (less h j (parent j)))) [
      | inl stop ↦ rw stop (UpInv-IsHeap h n j (λ p. settled p stop) v)
      | inr go ↦ rw go (
          up_loop-IsHeap fuel (swap h (parent j) j) n (parent j) (ground arith) (ground arith)
            (swap-UpInv h n j (ground arith) inside (rises go) v))
    ]
  where
    settled :
        0 < j → (parent j == j || not (less h j (parent j))) ≡ true → key h (parent j) ≤ key h j
    settled p stop = unfold less in (ground arith)

    rises : (parent j == j || not (less h j (parent j))) ≡ false → key h j ≤ key h (parent j)
    rises go = unfold less in (ground arith)

-- Only one edge out of order, and `up` from its lower end makes a heap.
pub up-IsHeap : (h : Heap) (n j : ℕ) → j < n → UpInv h n j → IsHeap (up h j) n
unfolding up
up-IsHeap h n j = up_loop-IsHeap j h n j (omega arith)
