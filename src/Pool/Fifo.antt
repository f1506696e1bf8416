-- ===== src/Pool/Fifo.antt =====
-- Which functions the pool runs over any run, and what Stop does to it.
use mathlib.Core.Path.{subst}
use zqim.Prelude.{
  ℕ, ◌≡◌, refl, sym, ap, ◌∙◌, arith, Bool, true, false, Option, none, some, List, [], ◌∷◌, ◌++◌,
  ltb, length, get_elem?, append_assoc, append-nil, Bool-cases, inl, inr, ◌⊎◌,
}
use zqim.Pool.{
  Worker, waiting, working, ended, WorkPool, Event, add_exit, add_work, exit, take_work,
  return_work, stop, add_wrok_exit, add_wrok_send, receive, turn_exit, turn_work, turn_return,
  step_live, step, Run, done, next,
}

-- The functions that AddWrok took without an error, before the pool was stopped.
abbrev pub accepted : {W : Type 0} → Bool → List (Event W) → List W
accepted b [] = []
accepted true (e ∷ es) = []
accepted false (add_work f ∷ es) = f ∷ accepted false es
accepted false (add_exit f ∷ es) = accepted false es
accepted false (exit i ∷ es) = accepted false es
accepted false (take_work i ∷ es) = accepted false es
accepted false (return_work i ∷ es) = accepted false es
accepted false (stop ∷ es) = []

abbrev is_exit_after : {W : Type 0} → Bool → Event W → Bool
is_exit_after b (add_exit f) = b
is_exit_after b (add_work f) = b
is_exit_after b (exit i) = b
is_exit_after b (take_work i) = b
is_exit_after b (return_work i) = b
is_exit_after b stop = true

module _ {W : Type 0} where
  abbrev all_of : WorkPool W → List W
  all_of p = p.started ++ p.work_func_chan

  List-cases : (xs : List W) → (xs ≡ []) ⊎ ((f : W) × (fs : List W) × (xs ≡ f ∷ fs))
  List-cases [] = inl refl
  List-cases (f ∷ fs) = inr (f, fs, refl)

  -- A step but an AddWrok keeps the functions, and what it does to exitchan.
  abbrev Kept : Bool → WorkPool W → Option (WorkPool W) → Type 0
  Kept b p none = Unit
  Kept b p (some q) = (q.is_exit ≡ b) × (all_of q ≡ all_of p)

  turn_work-Kept :
      (i : ℕ) (v : Option (Worker W)) (p : WorkPool W) → Kept p.is_exit p (turn_work i v p)
  unfolding turn_work receive
  turn_work-Kept i none p = tt
  turn_work-Kept i (some (working f)) p = tt
  turn_work-Kept i (some ended) p = tt
  turn_work-Kept i (some waiting) p = elim (List-cases p.work_func_chan) [
    | inl c ↦ rw (c, receive) (ground arith)
    | inr (f, fs, c) ↦ rw (c, receive) (refl, append_assoc p.started (f ∷ []) fs)
  ]

  turn_exit-Kept :
      (i : ℕ) (v : Option (Worker W)) (p : WorkPool W) → Kept p.is_exit p (turn_exit i v p)
  unfolding turn_exit
  turn_exit-Kept i v p = ground arith

  turn_return-Kept :
      (i : ℕ) (v : Option (Worker W)) (p : WorkPool W) → Kept p.is_exit p (turn_return i v p)
  unfolding turn_return
  turn_return-Kept i v p = ground arith

  add_wrok_exit-Kept : (p : WorkPool W) → Kept p.is_exit p (add_wrok_exit p)
  unfolding add_wrok_exit
  add_wrok_exit-Kept p = ground arith

  -- What a step makes of the functions: it adds at most the one that AddWrok takes.
  abbrev Given : Event W → WorkPool W → Option (WorkPool W) → Type 0
  Given e p none = Unit
  Given e p (some q) =
      (q.is_exit ≡ is_exit_after p.is_exit e) × (all_of q ≡ all_of p ++ accepted p.is_exit (e ∷ []))

  -- Only AddWrok adds.
  abbrev is_add : Event W → Bool
  is_add (add_work f) = true
  is_add (add_exit f) = false
  is_add (exit i) = false
  is_add (take_work i) = false
  is_add (return_work i) = false
  is_add stop = false

  accepted-plain : (b : Bool) (e : Event W) → is_add e ≡ false → accepted b (e ∷ []) ≡ []
  accepted-plain true e a = refl
  accepted-plain false (add_exit f) a = refl
  accepted-plain false (add_work f) a = cc
  accepted-plain false (exit i) a = refl
  accepted-plain false (take_work i) a = refl
  accepted-plain false (return_work i) a = refl
  accepted-plain false stop a = refl

  accepted-true : (es : List (Event W)) → accepted true es ≡ []
  accepted-true [] = refl
  accepted-true (e ∷ es) = refl

  accepted-cons :
      (b : Bool) (e : Event W) (es : List (Event W))
      → accepted b (e ∷ es) ≡ accepted b (e ∷ []) ++ accepted (is_exit_after b e) es
  accepted-cons true (add_exit f) es = sym (accepted-true es)
  accepted-cons true (add_work f) es = sym (accepted-true es)
  accepted-cons true (exit i) es = sym (accepted-true es)
  accepted-cons true (take_work i) es = sym (accepted-true es)
  accepted-cons true (return_work i) es = sym (accepted-true es)
  accepted-cons true stop es = sym (accepted-true es)
  accepted-cons false (add_exit f) es = refl
  accepted-cons false (add_work f) es = refl
  accepted-cons false (exit i) es = refl
  accepted-cons false (take_work i) es = refl
  accepted-cons false (return_work i) es = refl
  accepted-cons false stop es = sym (accepted-true es)

  add_work-Given : (f : W) (p : WorkPool W) → Given (add_work f) p (add_wrok_send f p)
  unfolding add_wrok_send
  add_work-Given f p = elim (Bool-cases p.is_exit) [
    | inl x ↦ rw (x, add_wrok_send) (refl, sym (append-nil (all_of p)))
    | inr x ↦ elim (Bool-cases (ltb (length p.work_func_chan) p.chan_size)) [
      | inl r ↦
          rw (x, add_wrok_send)
            (rw r (refl, sym (append_assoc p.started p.work_func_chan (f ∷ []))))
      | inr r ↦ rw (x, add_wrok_send) (rw r tt)
    ]
  ]

  plain-Given :
      (e : Event W) (p : WorkPool W) (o : Option (WorkPool W))
      → is_add e ≡ false
      → is_exit_after p.is_exit e ≡ p.is_exit
      → Kept p.is_exit p o
      → Given e p o
  plain-Given e p none a x k = tt
  plain-Given e p (some q) a x k = (
    k.0 ∙ sym x,
    k.1 ∙ sym (append-nil (all_of p)) ∙ ap (all_of p ++◌) (sym (accepted-plain p.is_exit e a)),
  )

  stop-Given : (p : WorkPool W) → Given stop p (some (record p { is_exit = true }))
  stop-Given p = (
    refl,
    sym (append-nil (all_of p)) ∙ ap (all_of p ++◌) (sym (accepted-plain p.is_exit stop refl)),
  )

  step_live-Given : (e : Event W) (p : WorkPool W) → Given e p (step_live e p)
  unfolding step_live add_wrok_exit
  step_live-Given (add_exit f) p = plain-Given (add_exit f) p _ refl refl (add_wrok_exit-Kept p)
  step_live-Given (add_work f) p = add_work-Given f p
  step_live-Given (exit i) p = plain-Given (exit i) p _ refl refl (turn_exit-Kept i _ p)
  step_live-Given (take_work i) p = plain-Given (take_work i) p _ refl refl (turn_work-Kept i _ p)
  step_live-Given (return_work i) p =
      plain-Given (return_work i) p _ refl refl (turn_return-Kept i _ p)
  step_live-Given stop p = stop-Given p

  step-Given : (e : Event W) (p : WorkPool W) → Given e p (step e p)
  unfolding step
  step-Given e p = elim (Bool-cases p.panicked) [
    | inl b ↦ rw (b, step) tt
    | inr b ↦ rw (b, step) (step_live-Given e (record p { panicked = false }))
  ]

  -- The functions that the goroutines have started, and then the ones that wait, are those that
  -- were there and the ones that AddWrok took before Stop, in order: none is lost, run twice or
  -- overtaken in the channel.
  pub Run-accepted :
      (p q : WorkPool W) (es : List (Event W))
      → Run p es q
      → q.started ++ q.work_func_chan ≡ (p.started ++ p.work_func_chan) ++ accepted p.is_exit es
  Run-accepted p q [] done = sym (append-nil _)
  Run-accepted p q (e ∷ es) (next {q = m} f r) =
      let g : Given e p (some m) = subst (Given e p) f (step-Given e p) in
      Run-accepted m q es r
      ∙ ap (◌++ accepted m.is_exit es) g.1
      ∙ append_assoc (all_of p) (accepted p.is_exit (e ∷ [])) (accepted m.is_exit es)
      ∙ ap (λ b. all_of p ++ (accepted p.is_exit (e ∷ []) ++ accepted b es)) g.0
      ∙ ap (all_of p ++◌) (sym (accepted-cons p.is_exit e es))

  -- On a pool that is stopped when its channel is empty, a waiting goroutine can take nil out of
  -- the closed channel, whose call panics; and AddWrok can send on the closed channel, which panics
  -- too.
  stop-panics :
      (i : ℕ) (f : W) (p : WorkPool W)
      → p.panicked ≡ false
      → p.work_func_chan ≡ []
      → get_elem? p.workers i ≡ some waiting
      → let q : WorkPool W = record p { is_exit = true; panicked = true } in
        Run p (stop ∷ take_work i ∷ []) q × Run p (stop ∷ add_work f ∷ []) q
  unfolding step turn_work receive add_wrok_send
  stop-panics i f p b c w =
      let m : WorkPool W = record p { is_exit = true } in
      let s : step stop p ≡ some m = rw (b, step) refl in
      (
        next s (next (rw (b, step) (rw (w, turn_work) (rw (c, receive) refl))) done),
        next s (next (rw (b, step) refl) done),
      )
