-- ===== src/Ack/Treated.antt =====
-- What a round of the ticker's case does with an overdue message.
use zqim.Prelude.{
  ℕ, ◌+◌, ◌%◌, ◌≤◌, ◌<◌, ◌≡◌, arith, none, some, List, [], ◌∷◌, ◌++◌, length, true, ltb, ltb→le,
  ◌⊎◌, inl, inr, Bool-cases,
}
use zqim.Frame.{Request, u32_mod}
use zqim.Conn.{Connect, write, written, closed_error, block_error}
use zqim.Heap.Members.{In}
use zqim.Ack.{World, get_connect}

-- The message at `p` is written again to its receiver's connection, where it is the last request of
-- the channel, and waits for five seconds more; or it is given up, when the receiver is not
-- connected, it was sent more than three times, or the connection is closed or its ten places are
-- taken.
pub data Treated (now : ℕ) (w : World) (p : ℕ) (w' : World) : Type 0 where
  resent :
      (a : ℕ)
      → get_connect (w.msgheap.msg p).receiver w ≡ some a
      → (w.msgheap.msg p).ntime ≤ 3
      → (w'.conn a).write_chan
        ≡ (w.conn a).write_chan
          ++ record {
            typ = (w.msgheap.msg p).grop_or_one;
            body_len = length (w.msgheap.msg p).body % u32_mod;
            flag = 0;
            body = (w.msgheap.msg p).body;
          }
            ∷ []
      → In w'.msgheap p
      → (w'.msgheap.msg p).timeout ≡ now + 5
      → Treated now w p w'
  refused :
      (a : ℕ)
      → get_connect (w.msgheap.msg p).receiver w ≡ some a
      → ((w.conn a).is_close ≡ true) ⊎ (10 ≤ length (w.conn a).write_chan)
      → ¬ In w'.msgheap p
      → Treated now w p w'
  spent : 3 < (w.msgheap.msg p).ntime → ¬ In w'.msgheap p → Treated now w p w'
  gone : get_connect (w.msgheap.msg p).receiver w ≡ none → ¬ In w'.msgheap p → Treated now w p w'

-- A tick, by the messages of its rounds.
pub data Treatments (now : ℕ) : World → List ℕ → World → Type 0 where
  finished : {w : World} → Treatments now w [] w
  round :
      {w w₁ w' : World} {p : ℕ} {ps : List ℕ}
      → Treated now w p w₁
      → Treatments now w₁ ps w'
      → Treatments now w (p ∷ ps) w'

pub write-written :
    (c : Connect) (r : Request)
    → (write c r).1 ≡ written
    → (write c r).0.write_chan ≡ c.write_chan ++ r ∷ []
unfolding write
write-written c r e = elim (Bool-cases c.is_close) [
  | inl h ↦ absurd (ground (arith, e, h))
  | inr h ↦ elim (Bool-cases (ltb (length c.write_chan) 10)) [
    | inl l ↦ ground (arith, h, l)
    | inr l ↦ absurd (ground (arith, e, h, l))
  ]
]

pub write-refused :
    (c : Connect) (r : Request)
    → ((write c r).1 ≡ closed_error) ⊎ ((write c r).1 ≡ block_error)
    → (c.is_close ≡ true) ⊎ (10 ≤ length c.write_chan)
unfolding write
write-refused c r e = elim (Bool-cases c.is_close) [
  | inl h ↦ inl h
  | inr h ↦ elim (Bool-cases (ltb (length c.write_chan) 10)) [
    | inr l ↦ inr (ltb→le _ 10 l)
    | inl l ↦ absurd (elim e [ inl x ↦ ground (arith, x, h, l) | inr x ↦ ground (arith, x, h, l) ])
  ]
]
