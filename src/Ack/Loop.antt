-- ===== src/Ack/Loop.antt =====
-- A whole tick of TimeLoop: it never panics, and leaves nothing overdue in the heap.
use zqim.Prelude.{ℕ, zero, suc, ◌≡◌, ◌==◌, if◌then◌else◌, Option, some, ◌⊎◌, List, [], ◌∷◌}
use zqim.Heap.{Heap}
use zqim.Ack.{World}
use zqim.Ack.Inv.{IsConsistent}
use zqim.Ack.Treated.{Treatments}
use zqim.Ack.Rounds.{IsOverdue}

-- A list that names every overdue message.
abbrev pub Has : ℕ → List ℕ → Type 0
Has q [] = ⊥
Has q (x ∷ xs) = (q ≡ x) ⊎ Has q xs

abbrev Covers : ℕ → World → List ℕ → Type 0
Covers now w xs = (q : ℕ) → IsOverdue now w q → Has q xs

cross_off : ℕ → List ℕ → List ℕ
cross_off p [] = []
cross_off p (x ∷ xs) = if x == p then xs else x ∷ cross_off p xs

-- A tick that ends well: nothing overdue is left, and `ps` are the messages of its rounds, every
-- overdue one among them.
abbrev pub Ticked : ℕ → World → Option World → Type 0
Ticked now w r =
    (w' : World) × (ps : List ℕ) × (r ≡ some w')
    × IsConsistent w'
    × ((q : ℕ) → ¬ IsOverdue now w' q)
    × Treatments now w ps w'
    × ((q : ℕ) → IsOverdue now w q → Has q ps)

-- The messages at the first `n` positions.
slots : ℕ → Heap → List ℕ
slots zero h = []
slots (suc n) h = h.at n ∷ slots n h
