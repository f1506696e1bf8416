-- ===== src/Heap.antt =====
-- MinHeap of comit/manage/ackmessage.go: the slice of pointers to the messages that wait for an
-- ack, and Go's container/heap over its Len, Less, Swap, Push and Pop.
pub mod Order
pub mod Up
pub mod Down
pub mod Members
pub mod Ops
pub mod Insert
pub mod Refines
mod Tests
use zqim.Prelude.{
  ℕ, zero, suc, ◌+◌, ◌-◌, ◌*◌, ◌/◌, Bool, not, ◌&&◌, ◌||◌, List, [], ◌∷◌, Option, none, some, ltb,
  leb, ◌==◌, if◌then◌else◌,
}

-- `index` is `none` for the -1 that Pop leaves.
pub record AckMessage : Type 0 where
  pub body : List ℕ
  pub msgid : ℕ
  pub grop_or_one : ℕ
  pub receiver : ℕ
  pub timeout : ℕ
  pub index : Option ℕ
  pub ntime : ℕ

-- The slice: its length, and the address at each position below it. The messages live behind
-- their addresses, since the contexts of the connections point to them too.
pub record Heap : Type 0 where
  pub len : ℕ
  pub at : ℕ → ℕ
  pub msg : ℕ → AckMessage

-- A write to a slice element, or to a message behind its address.
abbrev pub update {ℓ} : {A : Type ℓ} → (ℕ → A) → ℕ → A → ℕ → A
update f i v j = if i == j then v else f j

abbrev pub set_index : ℕ → Option ℕ → Heap → Heap
set_index p v h = record h { msg = update h.msg p (record (h.msg p) { index = v }) }

abbrev pub key : Heap → ℕ → ℕ
key h i = (h.msg (h.at i)).timeout

unfoldable pub less : Heap → ℕ → ℕ → Bool
less h i j = leb (key h i) (key h j)

unfoldable pub swap : Heap → ℕ → ℕ → Heap
swap h i j =
    let moved : Heap = record h { at = update (update h.at i (h.at j)) j (h.at i) } in
    let first = set_index (moved.at i) (some i) moved in set_index (first.at j) (some j) first

-- `(h *MinHeap) Push`
unfoldable pub push_back : Heap → ℕ → Heap
push_back h p =
    let numbered = set_index p (some h.len) h in
    record numbered { len = h.len + 1; at = update h.at h.len p }

-- `(h *MinHeap) Pop`, on a slice that is not empty.
unfoldable pub pop_back : Heap → ℕ × Heap
pop_back h =
    let x = h.at (h.len - 1) in
    let marked = set_index x none h in (x, record marked { len = h.len - 1 })

abbrev pub parent : ℕ → ℕ
parent j = (j - 1) / 2

-- container/heap's `up`. Each round moves to the parent, so `j` rounds are enough: at 0 the loop
-- ends by its test.
unfoldable pub up_loop : ℕ → Heap → ℕ → Heap
up_loop zero h j = h
up_loop (suc fuel) h j =
    let i = parent j in
    let rest = up_loop fuel (swap h i j) i in if i == j || not (less h j i) then h else rest

unfoldable pub up : Heap → ℕ → Heap
unfolding up_loop
up h j = up_loop j h j

-- The child of `i` that `down` compares with.
unfoldable pub child : Heap → ℕ → ℕ → ℕ
child h i n =
    let left = 2 * i + 1 in if ltb (left + 1) n && less h (left + 1) left then left + 1 else left

-- container/heap's `down`, with the position that it ends at. `n - i` rounds are enough: at `n` or
-- beyond the loop ends by its test.
unfoldable pub down_loop : ℕ → Heap → ℕ → ℕ → Heap × ℕ
down_loop zero h i n = (h, i)
down_loop (suc fuel) h i n =
    let j = child h i n in
    let rest = down_loop fuel (swap h i j) j n in
    if leb n (2 * i + 1) || not (less h j i) then (h, i) else rest

unfoldable pub down : Heap → ℕ → ℕ → Heap × ℕ
unfolding down_loop
down h i n = down_loop (n - i) h i n

-- heap.Push
unfoldable pub push : Heap → ℕ → Heap
push h p = let h' = push_back h p in up h' (h'.len - 1)

-- heap.Pop: Swap panics on an empty slice.
unfoldable pub pop : Heap → Option (ℕ × Heap)
pop h = let n = h.len - 1 in if h.len == 0 then none else some (pop_back (down (swap h 0 n) 0 n).0)

-- heap.Remove: Swap panics when `i` is not a position of the slice. `down` has moved the element
-- if it ends elsewhere.
pub repair : Heap → ℕ → ℕ → Heap
repair h i n = let (h', k) = down h i n in if ltb i k then h' else up h' i

unfoldable pub remove : Heap → ℕ → Option (ℕ × Heap)
unfolding repair
remove h i =
    let n = h.len - 1 in
    if leb h.len i then none else some (pop_back (if n == i then h else repair (swap h i n) i n))

-- heap.Fix
unfoldable pub fix : Heap → ℕ → Heap
unfolding repair
fix h i = repair h i h.len

-- MinHeap.Delete: a message whose index is -1 is not in the heap.
unfoldable pub delete : Heap → ℕ → Option Heap
delete h p = elim (h.msg p).index [
  | none ↦ some h
  | some i ↦ elim (remove h i) [ none ↦ none | some (q, h') ↦ some h' ]
]
