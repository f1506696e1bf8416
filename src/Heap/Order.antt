-- ===== src/Heap/Order.antt =====
-- The heap order, and what a swap does to the keys.
use zqim.Prelude.{ℕ, zero, suc, ◌≤◌, ◌<◌, ◌≡◌, ◌≢◌, refl, arith, ◌==◌, if◌then◌else◌}
use zqim.Heap.{Heap, key, swap, parent}

-- Among the first `n` positions no message times out before its parent.
abbrev pub IsHeap : Heap → ℕ → Type 0
IsHeap h n = (c : ℕ) → 0 < c → c < n → key h (parent c) ≤ key h c

-- The children of `i` do not time out before its parent.
abbrev pub IsBridged : Heap → ℕ → ℕ → Type 0
IsBridged h n i = (c : ℕ) → 0 < c → c < n → parent c ≡ i → 0 < i → key h (parent i) ≤ key h c

-- Only the edge from `i` up may be out of order.
pub record UpInv (h : Heap) (n i : ℕ) : Type 0 where
  pub edges : (c : ℕ) → 0 < c → c < n → c ≢ i → key h (parent c) ≤ key h c
  pub bridged : IsBridged h n i

-- Only the edges from `i` down may be out of order.
pub record DownInv (h : Heap) (n i : ℕ) : Type 0 where
  pub edges : (c : ℕ) → 0 < c → c < n → parent c ≢ i → key h (parent c) ≤ key h c
  pub bridged : IsBridged h n i

-- Any edge at `i` may be out of order.
pub record NearInv (h : Heap) (n i : ℕ) : Type 0 where
  pub edges : (c : ℕ) → 0 < c → c < n → c ≢ i → parent c ≢ i → key h (parent c) ≤ key h c
  pub bridged : IsBridged h n i

pub timeout-swap : (h : Heap) (i j p : ℕ) → ((swap h i j).msg p).timeout ≡ (h.msg p).timeout
unfolding swap
timeout-swap h i j p = ground arith

pub at-swap :
    (h : Heap) (i j c : ℕ)
    → (swap h i j).at c ≡ (if j == c then h.at i else if i == c then h.at j else h.at c)
unfolding swap
at-swap h i j c = refl

pub key-swap :
    (h : Heap) (i j c : ℕ)
    → key (swap h i j) c ≡ (if j == c then key h i else if i == c then key h j else key h c)
key-swap h i j c = ground (arith, timeout-swap h i j ((swap h i j).at c), at-swap h i j c)

root_least_below : (k : ℕ) (h : Heap) (n c : ℕ) → IsHeap h n → c < k → c < n → key h 0 ≤ key h c
root_least_below zero h n c s f p = absurd (omega arith)
root_least_below (suc k) h n c s f p = ground (arith, s c, root_least_below k h n (parent c) s)

-- The message at the root times out first.
pub root_least : (h : Heap) (n c : ℕ) → IsHeap h n → c < n → key h 0 ≤ key h c
root_least h n c s p = root_least_below (suc c) h n c s (omega arith) p
