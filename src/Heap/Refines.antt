-- ===== src/Heap/Refines.antt =====
-- The heap against a set from which a member that times out first is taken.
use mathlib.Core.Path.{subst, fun_ext}
use zqim.Prelude.{
  ℕ, ◌≤◌, ◌≡◌, ◌≢◌, refl, sym, ap, ◌∙◌, arith, Bool, true, false, Option, none, some, List, [], ◌∷◌,
  ◌↔◌, ◌⊎◌, inl, inr, ◌==◌, ==_iff, Bool-cases, nat_eq,
}
use zqim.Heap.{Heap, update, push, pop, delete}
use zqim.Heap.Members.{In}
use zqim.Heap.Ops.{IsValid, Removed, pop-Removed}
use zqim.Heap.Insert.{Added, push-Added, delete-Removed, delete_gone}

-- What is asked of the heap, with addresses of messages.
pub data Op : Type 0 where
  push_op : ℕ → Op
  pop_op : Op
  delete_op : ℕ → Op

-- What the program runs for it, with what heap.Pop gives. `none` is a panic.
abbrev popped : Option (ℕ × Heap) → Option (Option ℕ × Heap)
popped none = none
popped (some (p, h)) = some (some p, h)

abbrev silent : Option Heap → Option (Option ℕ × Heap)
silent none = none
silent (some h) = some (none, h)

abbrev pub run_op : Op → Heap → Option (Option ℕ × Heap)
run_op (push_op p) h = some (none, push h p)
run_op pop_op h = popped (pop h)
run_op (delete_op p) h = silent (delete h p)

abbrev with_out : Option ℕ → Option (List (Option ℕ) × Heap) → Option (List (Option ℕ) × Heap)
with_out o none = none
with_out o (some (os, h)) = some (o ∷ os, h)

abbrev pub run_ops : List Op → Heap → Option (List (Option ℕ) × Heap)
run_ops [] h = some ([], h)
run_ops (op ∷ ops) h = elim (run_op op h) [ none ↦ none | some r ↦ with_out r.0 (run_ops ops r.1) ]

-- The set of the addresses that wait, and what may become of it: any member that times out first
-- may be taken.
abbrev pub Waiting : Type 0
Waiting = ℕ → Bool

module _ (due : ℕ → ℕ) where
  pub data Allowed (b : Waiting) : Op → Option ℕ → Waiting → Type 0 where
    pushed : (p : ℕ) → Allowed b (push_op p) none (update b p true)
    taken :
        (p : ℕ)
        → b p ≡ true
        → ((q : ℕ) → b q ≡ true → due p ≤ due q)
        → Allowed b pop_op (some p) (update b p false)
    deleted : (p : ℕ) → Allowed b (delete_op p) none (update b p false)

  pub data AllowedAll : Waiting → List Op → List (Option ℕ) → Waiting → Type 0 where
    done : {b : Waiting} → AllowedAll b [] [] b
    next :
        {b c d : Waiting} {op : Op} {o : Option ℕ} {ops : List Op} {os : List (Option ℕ)}
        → Allowed b op o c
        → AllowedAll c ops os d
        → AllowedAll b (op ∷ ops) (o ∷ os) d

  -- When an operation may be asked for: a message is pushed only if it does not wait, and the pop
  -- needs one that does. A message may be deleted at any time.
  abbrev pub Ready : Waiting → Op → Type 0
  Ready b (push_op p) = b p ≡ false
  Ready b pop_op = (p : ℕ) × (b p ≡ true)
  Ready b (delete_op p) = Unit

  abbrev pub ReadyAll : Waiting → List Op → Type 0
  ReadyAll b [] = Unit
  ReadyAll b (op ∷ ops) =
      Ready b op × ((o : Option ℕ) (c : Waiting) → Allowed b op o c → ReadyAll c ops)

  -- The heap stands for the set: it is valid, holds the messages of the set, and every other
  -- message is marked as taken out.
  pub record Implements (h : Heap) (b : Waiting) : Type 0 where
    pub valid : IsValid h
    pub members : (p : ℕ) → In h p ↔ (b p ≡ true)
    pub timeouts : (p : ℕ) → (h.msg p).timeout ≡ due p
    pub marked : (p : ℕ) → b p ≡ false → (h.msg p).index ≡ none

  absent : (h : Heap) (b : Waiting) (p : ℕ) → Implements h b → b p ≡ false → ¬ In h p
  absent h b p i e m = ground (arith, e, (i.members p).0 m)

  Added-Implements :
      (h h' : Heap) (b : Waiting) (p : ℕ)
      → Implements h b
      → b p ≡ false
      → Added h p h'
      → Implements h' (update b p true)
  Added-Implements h h' b p i e a = record {
    valid = a.valid;
    members = λ q. (λ m. arrived q (a.only q m), λ t. back q (Bool-cases (p == q)) t);
    timeouts = λ q. (a.same q).timeout ∙ i.timeouts q;
    marked = λ q f.
        let away : q ≢ p = λ x. ground (arith, f, x) in
        let old : b q ≡ false = ground (arith, f) in
        ap (λ m. m.index) (a.apart q away (absent h b q i old)) ∙ i.marked q old;
  }
    where
      arrived : (q : ℕ) → (q ≡ p) ⊎ In h q → update b p true q ≡ true
      arrived q (inl e) = ground (arith, e)
      arrived q (inr m) = ground (arith, (i.members q).0 m)

      back : (q : ℕ) → ((p == q) ≡ true) ⊎ ((p == q) ≡ false) → update b p true q ≡ true → In h' q
      back q (inl e) t = subst (In h') ((==_iff p q).0 e) a.there
      back q (inr e) t = a.kept q ((i.members q).1 (ground (arith, e, t)))

  Removed-Implements :
      (h h' : Heap) (b : Waiting) (p : ℕ)
      → Implements h b
      → Removed h p h'
      → Implements h' (update b p false)
  Removed-Implements h h' b p i r = record {
    valid = r.valid;
    members = λ q. (λ m. left q m (Bool-cases (p == q)), λ t. kept q t);
    timeouts = λ q. (r.same q).timeout ∙ i.timeouts q;
    marked = λ q f. out q f (Bool-cases (p == q));
  }
    where
      apart : (q : ℕ) → (p == q) ≡ false → q ≢ p
      apart q e x = ground (arith, e, x)

      left : (q : ℕ) → In h' q → ((p == q) ≡ true) ⊎ ((p == q) ≡ false) → update b p false q ≡ true
      left q m (inl e) = absurd (r.out (subst (In h') (sym ((==_iff p q).0 e)) m))
      left q m (inr e) = ground (arith, e, (i.members q).0 ((r.others q (apart q e)).1 m))

      kept : (q : ℕ) → update b p false q ≡ true → In h' q
      kept q t =
          let away : q ≢ p = λ x. ground (arith, t, x) in
          (r.others q away).0 ((i.members q).1 (ground (arith, t)))

      out :
          (q : ℕ)
          → update b p false q ≡ false
          → ((p == q) ≡ true) ⊎ ((p == q) ≡ false)
          → (h'.msg q).index ≡ none
      out q f (inl e) = ap (λ x. (h'.msg x).index) (sym ((==_iff p q).0 e)) ∙ r.marked
      out q f (inr e) =
          let old : b q ≡ false = ground (arith, f, e) in
          ap (λ m. m.index) (r.apart q (apart q e) (absent h b q i old)) ∙ i.marked q old

  -- What one operation gives.
  abbrev Stepped : Heap → Waiting → Op → Type 0
  Stepped h b op =
      (o : Option ℕ) × (h' : Heap) × (c : Waiting) × (run_op op h ≡ some (o, h'))
      × Allowed b op o c
      × Implements h' c

  push-Stepped :
      (h : Heap) (b : Waiting) (p : ℕ) → Implements h b → b p ≡ false → Stepped h b (push_op p)
  push-Stepped h b p i e = (
    none,
    push h p,
    update b p true,
    refl,
    pushed p,
    Added-Implements h (push h p) b p i e (push-Added h p i.valid (absent h b p i e)),
  )

  pop-Stepped : (h : Heap) (b : Waiting) (p : ℕ) → Implements h b → b p ≡ true → Stepped h b pop_op
  pop-Stepped h b p i e =
      let (k, l, x) = (i.members p).1 e in
      let (h', f, r, least) = pop-Removed h i.valid (omega (arith, l)) in
      let first = h.at 0 in
      let there : In h first = (0, omega (arith, l), refl) in
      (
        some first,
        h',
        update b first false,
        rw f refl,
        taken first ((i.members first).0 there)
            (λ q t. omega (arith, least q ((i.members q).1 t), i.timeouts first, i.timeouts q)),
        Removed-Implements h h' b first i r,
      )

  same_set : (b : Waiting) (p : ℕ) → b p ≡ false → b ≡ update b p false
  same_set b p e = fun_ext (λ q. same_at q (Bool-cases (p == q)))
    where
      same_at : (q : ℕ) → ((p == q) ≡ true) ⊎ ((p == q) ≡ false) → b q ≡ update b p false q
      same_at q (inl x) = ap b (sym ((==_iff p q).0 x)) ∙ e ∙ rw x refl
      same_at q (inr x) = rw x refl

  delete-Stepped : (h : Heap) (b : Waiting) (p : ℕ) → Implements h b → Stepped h b (delete_op p)
  delete-Stepped h b p i = elim (Bool-cases (b p)) [
    | inl t ↦
        let (h', f, r) = delete-Removed h p i.valid ((i.members p).1 t) in
        (none, h', update b p false, rw f refl, deleted p, Removed-Implements h h' b p i r)
    | inr e ↦ (
      none,
      h,
      update b p false,
      rw (delete_gone h p (i.marked p e)) refl,
      deleted p,
      subst (Implements h) (same_set b p e) i,
    )
  ]

  op-Stepped : (op : Op) (h : Heap) (b : Waiting) → Implements h b → Ready b op → Stepped h b op
  op-Stepped (push_op p) h b i k = push-Stepped h b p i k
  op-Stepped pop_op h b i k = pop-Stepped h b k.0 i k.1
  op-Stepped (delete_op p) h b i k = delete-Stepped h b p i

  -- The heap, run over any operations that the set is ready for, never panics, and does what the
  -- set allows: whatever heap.Pop gives is a member that times out first.
  pub run_ops-Refines :
      (ops : List Op) (h : Heap) (b : Waiting)
      → Implements h b
      → ReadyAll b ops
      → (os : List (Option ℕ)) × (h' : Heap) × (c : Waiting) × (run_ops ops h ≡ some (os, h'))
        × AllowedAll b ops os c
        × Implements h' c
  run_ops-Refines [] h b i k = ([], h, b, refl, done, i)
  run_ops-Refines (op ∷ ops) h b i k =
      let (o, h', c, f, a, j) = op-Stepped op h b i k.0 in
      let (os, h'', d, g, rest, l) = run_ops-Refines ops h' c j (k.1 o c a) in
      (o ∷ os, h'', d, rw (f, run_ops) (rw g refl), next a rest, l)
