-- ===== src/Rpc/Relay.antt =====
-- Whom Grouptranfer reaches.
use zqim.Prelude.{
  ℕ, ◌+◌, ◌<◌, ◌≡◌, ◌≢◌, refl, sym, ap, ◌∙◌, arith, none, List, [], ◌∷◌, ◌++◌, All, append_assoc,
  append-nil, inl, inr, Option-cases, nat_eq,
}
use zqim.Heap.{Heap}
use zqim.Ack.{World, get_connect}
use zqim.Services.{write_to, push_new, request_of, gorup_message}
use zqim.Rpc.{tranfer_loop}

module _ (buf : List ℕ) (rek : ℕ) where
  abbrev reached : ℕ → ℕ → World → World
  reached v b w = write_to b (request_of gorup_message buf) (push_new buf v rek 0 w)

  reached-cons : (v b : ℕ) (w : World) → (reached v b w).cons ≡ w.cons
  unfolding push_new
  reached-cons v b w = refl

  reached-connect : (u v b : ℕ) (w : World) → get_connect u (reached v b w) ≡ get_connect u w
  unfolding push_new get_connect
  reached-connect u v b w = refl

  -- A group message that is relayed for some receivers reaches nobody from the first one on who is
  -- not connected here, whether the others are or not.
  pub tranfer_loop-stops :
      (us vs : List ℕ) (v : ℕ) (w : World)
      → get_connect v w ≡ none
      → tranfer_loop buf rek (us ++ v ∷ vs) w ≡ tranfer_loop buf rek us w
  unfolding tranfer_loop
  tranfer_loop-stops [] vs v w e = rw (e, tranfer_loop)
  tranfer_loop-stops (u ∷ us) vs v w e = elim (Option-cases (get_connect u w)) [
    | inl f ↦ rw (f, tranfer_loop)
    | inr (b, f) ↦
        rw (f, tranfer_loop)
          (tranfer_loop-stops us vs v (reached u b w) (reached-connect v u b w ∙ e))
  ]

  -- The addresses of new messages, and what stands there.
  abbrev pub addresses : ℕ → List ℕ → List ℕ
  addresses n [] = []
  addresses n (v ∷ vs) = n ∷ addresses (n + 1) vs

  abbrev pub AreQueued : List ℕ → ℕ → Heap → Type 0
  AreQueued [] n h = Unit {0}
  AreQueued (v ∷ vs) n h =
      ((h.msg n).msgid ≡ rek)
      × ((h.msg n).receiver ≡ v)
      × ((h.msg n).body ≡ buf)
      × AreQueued vs (n + 1) h

  loop-older :
      (vs : List ℕ) (w : World) (p : ℕ)
      → p < w.next
      → (tranfer_loop buf rek vs w).msgheap.msg p ≡ w.msgheap.msg p
  unfolding tranfer_loop push_new get_connect
  loop-older [] w p l = refl
  loop-older (v ∷ vs) w p l = elim (Option-cases (get_connect v w)) [
    | inl f ↦ rw (f, tranfer_loop)
    | inr (b, f) ↦
        rw (f, tranfer_loop) (loop-older vs (reached v b w) p (omega arith) ∙ ground arith)
  ]

  -- If all receivers are connected here, each has the message queued for the resending, in order,
  -- and nothing else is queued.
  pub tranfer_loop-AreQueued :
      (vs : List ℕ) (w : World)
      → All (λ v. get_connect v w ≢ none) vs
      → let w' = tranfer_loop buf rek vs w in
        (w'.push_ch ≡ w.push_ch ++ addresses w.next vs) × AreQueued vs w.next w'.msgheap
  unfolding tranfer_loop push_new get_connect
  tranfer_loop-AreQueued [] w h = (sym (append-nil w.push_ch), tt)
  tranfer_loop-AreQueued (v ∷ vs) w h = elim (Option-cases (get_connect v w)) [
    | inl f ↦ absurd (h.0 f)
    | inr (b, f) ↦
        let w₁ : World = reached v b w in
        let (c, q) = tranfer_loop-AreQueued vs w₁ h.1 in
        let older = loop-older vs w₁ w.next (omega arith) in
        rw (f, tranfer_loop)
          (
            c ∙ append_assoc w.push_ch (w.next ∷ []) (addresses (w.next + 1) vs),
            (
              ap (λ m. m.msgid) older ∙ ground arith,
              ap (λ m. m.receiver) older ∙ ground arith,
              ap (λ m. m.body) older ∙ ground arith,
              q,
            ),
          )
  ]
