-- ===== src/Heap/Members.antt =====
-- Which messages are in the heap, and that every message knows its position.
use zqim.Prelude.{
  ℕ, zero, suc, ◌+◌, ◌-◌, ◌*◌, ◌≤◌, ◌<◌, ◌≡◌, ◌≢◌, refl, ◌∙◌, arith, ◌==◌, not, ◌||◌, leb,
  if◌then◌else◌, some, Bool-cases, inl, inr, false,
}
use zqim.Heap.{AckMessage, Heap, less, swap, parent, child, up_loop, up, down_loop, down}

-- `p` stands at a position of the slice.
abbrev pub In : Heap → ℕ → Type 0
In h p = (i : ℕ) × (i < h.len) × (h.at i ≡ p)

-- The `index` of each message in the slice is its position.
abbrev pub IsIndexed : Heap → Type 0
IsIndexed h = (i : ℕ) → i < h.len → (h.msg (h.at i)).index ≡ some i

-- `m` and `m'` are the same message up to the index.
pub record SameMessage (m m' : AckMessage) : Type 0 where
  pub body : m'.body ≡ m.body
  pub msgid : m'.msgid ≡ m.msgid
  pub grop_or_one : m'.grop_or_one ≡ m.grop_or_one
  pub receiver : m'.receiver ≡ m.receiver
  pub timeout : m'.timeout ≡ m.timeout
  pub ntime : m'.ntime ≡ m.ntime

-- `h'` holds the messages of `h`, in some order, with the indices in step; a message that is not in
-- the slice is not touched.
pub record Rearranged (h h' : Heap) : Type 0 where
  pub len : h'.len ≡ h.len
  pub forth : (p : ℕ) → In h p → In h' p
  pub back : (p : ℕ) → In h' p → In h p
  pub same : (p : ℕ) → SameMessage (h.msg p) (h'.msg p)
  pub apart : (p : ℕ) → ¬ In h p → h'.msg p ≡ h.msg p
  pub indexed : IsIndexed h'

pub Rearranged-refl : (h : Heap) → IsIndexed h → Rearranged h h
Rearranged-refl h v = record {
  len = refl;
  forth = λ p m. m;
  back = λ p m. m;
  same = λ p. ground arith;
  apart = λ p n. refl;
  indexed = v;
}

pub SameMessage-trans : {a b c : AckMessage} → SameMessage a b → SameMessage b c → SameMessage a c
SameMessage-trans s t = ground arith

pub Rearranged-trans : {h h' h'' : Heap} → Rearranged h h' → Rearranged h' h'' → Rearranged h h''
Rearranged-trans r s = record {
  len = s.len ∙ r.len;
  forth = λ p m. s.forth p (r.forth p m);
  back = λ p m. r.back p (s.back p m);
  same = λ p. SameMessage-trans (r.same p) (s.same p);
  apart = λ p n. s.apart p (λ m. n (r.back p m)) ∙ r.apart p n;
  indexed = s.indexed;
}

module _ (h : Heap) (i j : ℕ) (hi : i < h.len) (hj : j < h.len) (v : IsIndexed h) where
  -- Where the element at `c` goes.
  abbrev trade : ℕ → ℕ
  trade c = if i == c then j else if j == c then i else c

  swap-forth : (p : ℕ) → In h p → In (swap h i j) p
  unfolding swap
  swap-forth p (c, l, e) = (trade c, ground arith, ground arith)

  swap-back : (p : ℕ) → In (swap h i j) p → In h p
  unfolding swap
  swap-back p (c, l, e) = (trade c, ground arith, ground arith)

  pub swap-Rearranged : Rearranged h (swap h i j)
  unfolding swap
  swap-Rearranged = record {
    len = refl;
    forth = swap-forth;
    back = swap-back;
    same = λ p. ground arith;
    apart = λ p n.
        let ni : h.at i ≢ p = λ e. n (i, hi, e) in
        let nj : h.at j ≢ p = λ e. n (j, hj, e) in ground arith;
    indexed = λ c l. ground (arith, v c l, v i hi, v j hj);
  }

pub up_loop-Rearranged :
    (fuel : ℕ) (h : Heap) (j : ℕ) → j < h.len → IsIndexed h → Rearranged h (up_loop fuel h j)
unfolding up_loop
up_loop-Rearranged zero h j l v = Rearranged-refl h v
up_loop-Rearranged (suc fuel) h j l v =
    elim (Bool-cases (parent j == j || not (less h j (parent j)))) [
      | inl stop ↦ rw stop (Rearranged-refl h v)
      | inr go ↦
          let s = swap-Rearranged h (parent j) j (omega arith) l v in
          rw go (
            Rearranged-trans s (
              up_loop-Rearranged fuel (swap h (parent j) j) (parent j) (omega (arith, s.len))
                s.indexed))
    ]

pub up-Rearranged : (h : Heap) (j : ℕ) → j < h.len → IsIndexed h → Rearranged h (up h j)
unfolding up
up-Rearranged h j = up_loop-Rearranged j h j

pub child-lt : (h : Heap) (i n : ℕ) → leb n (2 * i + 1) ≡ false → child h i n < n
unfolding child
child-lt h i n e = ground arith

pub down_loop-Rearranged :
    (fuel : ℕ) (h : Heap) (i n : ℕ)
    → n ≤ h.len
    → IsIndexed h
    → Rearranged h (down_loop fuel h i n).0
unfolding down_loop
down_loop-Rearranged zero h i n l v = Rearranged-refl h v
down_loop-Rearranged (suc fuel) h i n l v =
    elim (Bool-cases (leb n (2 * i + 1) || not (less h (child h i n) i))) [
      | inl stop ↦ rw stop (Rearranged-refl h v)
      | inr go ↦
          let inside : child h i n < n = child-lt h i n (ground arith) in
          let s = swap-Rearranged h i (child h i n) (ground arith) (omega arith) v in
          rw go (
            Rearranged-trans s (
              down_loop-Rearranged fuel (swap h i (child h i n)) (child h i n) n
                (omega (arith, s.len)) s.indexed))
    ]

pub down-Rearranged : (h : Heap) (i n : ℕ) → n ≤ h.len → IsIndexed h → Rearranged h (down h i n).0
unfolding down
down-Rearranged h i n = down_loop-Rearranged (n - i) h i n
