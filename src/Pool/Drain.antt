-- ===== src/Pool/Drain.antt =====
-- What the pool makes of the functions that wait, while it is not stopped.
use zqim.Prelude.{
  ℕ, suc, ◌+◌, ◌<◌, ◌≡◌, refl, sym, ap, ◌∙◌, arith, some, List, [], ◌∷◌, ◌++◌, length, get_elem?,
  append-nil, inl, inr, ◌⊎◌,
}
use zqim.Pool.{
  Worker, waiting, working, ended, WorkPool, Event, take_work, return_work, step, Run, done, next,
}
use zqim.Pool.Turns.{
  busy, left, NoneEnded, IsRunning, IsWork, IsWorks, Stepped, taken, returned, step-Stepped,
}

zero_or : (n : ℕ) → (n ≡ 0) ⊎ (0 < n)
zero_or n = omega arith

module _ {W : Type 0} where
  List-cases : (xs : List W) → (xs ≡ []) ⊎ ((f : W) × (fs : List W) × (xs ≡ f ∷ fs))
  List-cases [] = inl refl
  List-cases (f ∷ fs) = inr (f, fs, refl)

  -- The first goroutine that is in a call.
  busy_one :
      (vs : List (Worker W)) → 0 < busy vs → (i : ℕ) × (f : W) × (get_elem? vs i ≡ some (working f))
  busy_one [] h = absurd (omega (arith, h))
  busy_one (working f ∷ vs) h = (0, f, refl)
  busy_one (waiting ∷ vs) h = let (i, f, e) = busy_one vs (omega (arith, h)) in (suc i, f, e)
  busy_one (ended ∷ vs) h = let (i, f, e) = busy_one vs (omega (arith, h)) in (suc i, f, e)

  first_waiting :
      (vs : List (Worker W))
      → 0 < length vs
      → NoneEnded vs
      → busy vs ≡ 0
      → get_elem? vs 0 ≡ some waiting
  first_waiting [] l n b = absurd (omega (arith, l))
  first_waiting (waiting ∷ vs) l n b = refl
  first_waiting (working f ∷ vs) l n b = absurd (omega (arith, b))
  first_waiting (ended ∷ vs) l n b = ground (arith, n.0)

  -- Where a run of the goroutines stands: another step is possible, or every function was started,
  -- in the order in which they waited, and every goroutine waits.
  pub data Drained (p q : WorkPool W) : Type 0 where
    goes_on : (e : Event W) (r : WorkPool W) → IsWork e → step e q ≡ some r → Drained p q
    all_started :
        q.work_func_chan ≡ []
        → busy q.workers ≡ 0
        → q.started ≡ p.started ++ p.work_func_chan
        → Drained p q

  Drained-busy : (p : WorkPool W) → IsRunning p → 0 < busy p.workers → Drained p p
  Drained-busy p h b =
      let (i, f, e) = busy_one p.workers b in
      let (r, s, t) = returned i p f h e in goes_on (return_work i) r tt s

  Drained-idle : (p : WorkPool W) → IsRunning p → busy p.workers ≡ 0 → Drained p p
  Drained-idle p h z = elim (List-cases p.work_func_chan) [
    | inl c ↦ all_started c z (sym (append-nil p.started) ∙ ap (p.started ++◌) (sym c))
    | inr (f, fs, c) ↦
        let e = first_waiting p.workers h.some_worker h.alive z in
        let (r, s, t) = taken 0 p f fs h e c in goes_on (take_work 0) r tt s
  ]

  Drained-self : (p : WorkPool W) → IsRunning p → Drained p p
  Drained-self p h = elim (zero_or (busy p.workers)) [
    | inl z ↦ Drained-idle p h z
    | inr b ↦ Drained-busy p h b
  ]

  Drained-step : (p q r : WorkPool W) → Stepped p q → Drained q r → Drained p r
  Drained-step p q r s (goes_on e t k f) = goes_on e t k f
  Drained-step p q r s (all_started c b t) = all_started c b (t ∙ s.same)

  -- From a pool that has goroutines and was not stopped: each step of a goroutine is one step fewer
  -- that is left, and until every function that waited was started, in order, and has returned,
  -- some goroutine has a step before it.
  pub run-Drained :
      (p q : WorkPool W) (es : List (Event W))
      → IsRunning p
      → IsWorks es
      → Run p es q
      → (left q + length es ≡ left p) × Drained p q
  run-Drained p q [] h k done = (omega arith, Drained-self p h)
  run-Drained p q (e ∷ es) h k (next {q = m} f r) =
      let s = step-Stepped e p m h k.0 f in
      let (l, d) = run-Drained m q es s.running k.1 r in
      (omega (arith, l, s.fewer), Drained-step p m q s d)
