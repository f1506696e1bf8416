-- ===== src/Pool/Turns.antt =====
-- The steps of the goroutines of a pool that is not stopped, one by one.
use mathlib.Core.Path.{subst}
use zqim.Prelude.{
  ℕ, zero, suc, ◌+◌, ◌*◌, ◌<◌, ◌≡◌, refl, sym, ap, ◌∙◌, arith, Bool, true, false, Option, none,
  some, List, [], ◌∷◌, ◌++◌, length, get_elem?, append_assoc, inl, inr, ◌⊎◌,
}
use zqim.Pool.{
  Worker, waiting, working, ended, WorkPool, Event, add_exit, add_work, exit, take_work,
  return_work, stop, set_worker, receive, turn_work, turn_return, step,
}

abbrev is_working : {W : Type 0} → Worker W → ℕ
is_working waiting = 0
is_working (working f) = 1
is_working ended = 0

abbrev is_ended : {W : Type 0} → Worker W → Bool
is_ended waiting = false
is_ended (working f) = false
is_ended ended = true

abbrev pub busy : {W : Type 0} → List (Worker W) → ℕ
busy [] = 0
busy (v ∷ vs) = is_working v + busy vs

-- The steps that the goroutines have before them: to take each function that waits and to return
-- from it, and from the ones that they are in.
abbrev pub left : {W : Type 0} → WorkPool W → ℕ
left p = 2 * length p.work_func_chan + busy p.workers

abbrev pub NoneEnded : {W : Type 0} → List (Worker W) → Type 0
NoneEnded [] = Unit
NoneEnded (v ∷ vs) = (is_ended v ≡ false) × NoneEnded vs

-- A pool with goroutines, that was not stopped.
pub record IsRunning {W : Type 0} (p : WorkPool W) : Type 0 where
  pub not_exit : p.is_exit ≡ false
  pub sound : p.panicked ≡ false
  pub alive : NoneEnded p.workers
  pub some_worker : 0 < length p.workers

-- A step of a goroutine.
abbrev pub IsWork : {W : Type 0} → Event W → Type 0
IsWork (add_exit f) = ⊥
IsWork (add_work f) = ⊥
IsWork (exit i) = ⊥
IsWork (take_work i) = Unit
IsWork (return_work i) = Unit
IsWork stop = ⊥

abbrev pub IsWorks : {W : Type 0} → List (Event W) → Type 0
IsWorks [] = Unit
IsWorks (e ∷ es) = IsWork e × IsWorks es

module _ {W : Type 0} where
  busy-set_working :
      (i : ℕ) (f : W) (vs : List (Worker W))
      → get_elem? vs i ≡ some waiting
      → busy (set_worker i (working f) vs) ≡ suc (busy vs)
  busy-set_working i f [] e = cc
  busy-set_working zero f (waiting ∷ vs) e = omega arith
  busy-set_working zero f (working g ∷ vs) e = cc
  busy-set_working zero f (ended ∷ vs) e = cc
  busy-set_working (suc i) f (v ∷ vs) e = omega (arith, busy-set_working i f vs e)

  busy-set_waiting :
      (i : ℕ) (f : W) (vs : List (Worker W))
      → get_elem? vs i ≡ some (working f)
      → suc (busy (set_worker i waiting vs)) ≡ busy vs
  busy-set_waiting i f [] e = cc
  busy-set_waiting zero f (waiting ∷ vs) e = cc
  busy-set_waiting zero f (working g ∷ vs) e = omega arith
  busy-set_waiting zero f (ended ∷ vs) e = cc
  busy-set_waiting (suc i) f (v ∷ vs) e = omega (arith, busy-set_waiting i f vs e)

  set_worker-NoneEnded :
      (i : ℕ) (v : Worker W) (vs : List (Worker W))
      → is_ended v ≡ false
      → NoneEnded vs
      → NoneEnded (set_worker i v vs)
  set_worker-NoneEnded i v [] n h = h
  set_worker-NoneEnded zero v (u ∷ us) n h = (n, h.1)
  set_worker-NoneEnded (suc i) v (u ∷ us) n h = (h.0, set_worker-NoneEnded i v us n h.1)

  length-set_worker :
      (i : ℕ) (v : Worker W) (vs : List (Worker W)) → length (set_worker i v vs) ≡ length vs
  length-set_worker i v [] = refl
  length-set_worker zero v (u ∷ us) = refl
  length-set_worker (suc i) v (u ∷ us) = ap suc (length-set_worker i v us)

  -- What a step of a goroutine makes of a running pool.
  pub record Stepped (p q : WorkPool W) : Type 0 where
    pub running : IsRunning q
    pub fewer : suc (left q) ≡ left p
    pub same : q.started ++ q.work_func_chan ≡ p.started ++ p.work_func_chan

  pub taken :
      (i : ℕ) (p : WorkPool W) (f : W) (fs : List W)
      → IsRunning p
      → get_elem? p.workers i ≡ some waiting
      → p.work_func_chan ≡ f ∷ fs
      → (q : WorkPool W) × (step (take_work i) p ≡ some q) × Stepped p q
  unfolding step turn_work receive
  taken i p f fs h e c =
      let q : WorkPool W = record p {
        work_func_chan = fs;
        workers = set_worker i (working f) p.workers;
        started = p.started ++ f ∷ [];
      } in
      (
        q,
        rw (h.sound, step) (rw (e, turn_work) (rw (c, receive) refl)),
        record {
          running = record {
            not_exit = h.not_exit;
            sound = h.sound;
            alive = set_worker-NoneEnded i (working f) p.workers refl h.alive;
            some_worker = omega (arith, h.some_worker, length-set_worker i (working f) p.workers);
          };
          fewer = omega (arith, busy-set_working i f p.workers e, ap length c);
          same = append_assoc p.started (f ∷ []) fs ∙ ap (p.started ++◌) (sym c);
        },
      )

  pub returned :
      (i : ℕ) (p : WorkPool W) (f : W)
      → IsRunning p
      → get_elem? p.workers i ≡ some (working f)
      → (q : WorkPool W) × (step (return_work i) p ≡ some q) × Stepped p q
  unfolding step turn_return
  returned i p f h e =
      let q : WorkPool W = record p { workers = set_worker i waiting p.workers } in
      (
        q,
        rw (h.sound, step) (rw (e, turn_return) refl),
        record {
          running = record {
            not_exit = h.not_exit;
            sound = h.sound;
            alive = set_worker-NoneEnded i waiting p.workers refl h.alive;
            some_worker = omega (arith, h.some_worker, length-set_worker i waiting p.workers);
          };
          fewer = omega (arith, busy-set_waiting i f p.workers e);
          same = refl;
        },
      )

  take_ready :
      (i : ℕ) (p : WorkPool W) (v : Option (Worker W)) (c : List W)
      → IsRunning p
      → get_elem? p.workers i ≡ v
      → p.work_func_chan ≡ c
      → (step (take_work i) p ≡ none)
        ⊎ ((f : W) × (fs : List W) × (v ≡ some waiting) × (c ≡ f ∷ fs))
  unfolding step turn_work receive
  take_ready i p none c h g d = inl (rw (h.sound, step) (rw (g, turn_work) refl))
  take_ready i p (some (working f)) c h g d = inl (rw (h.sound, step) (rw (g, turn_work) refl))
  take_ready i p (some ended) c h g d = inl (rw (h.sound, step) (rw (g, turn_work) refl))
  take_ready i p (some waiting) [] h g d =
      inl (rw (h.sound, step) (rw (g, turn_work) (rw (d, receive) (rw h.not_exit refl))))
  take_ready i p (some waiting) (f ∷ fs) h g d = inr (f, fs, refl, refl)

  return_ready :
      (i : ℕ) (p : WorkPool W) (v : Option (Worker W))
      → IsRunning p
      → get_elem? p.workers i ≡ v
      → (step (return_work i) p ≡ none) ⊎ ((f : W) × (v ≡ some (working f)))
  unfolding step turn_return
  return_ready i p none h g = inl (rw (h.sound, step) (rw (g, turn_return) refl))
  return_ready i p (some waiting) h g = inl (rw (h.sound, step) (rw (g, turn_return) refl))
  return_ready i p (some ended) h g = inl (rw (h.sound, step) (rw (g, turn_return) refl))
  return_ready i p (some (working f)) h g = inr (f, refl)

  abbrev result : WorkPool W → Option (WorkPool W) → WorkPool W
  result p none = p
  result p (some q) = q

  same_result :
      (e : Event W) (p q r : WorkPool W)
      → step e p ≡ some q
      → step e p ≡ some r
      → Stepped p r
      → Stepped p q
  same_result e p q r f g = subst (Stepped p) (ap (result p) (sym g ∙ f))

  -- Every step of a goroutine is one of the two.
  pub step-Stepped :
      (e : Event W) (p q : WorkPool W) → IsRunning p → IsWork e → step e p ≡ some q → Stepped p q
  step-Stepped (take_work i) p q h k e = elim (take_ready i p _ _ h refl refl) [
    | inl n ↦ cc
    | inr (f, fs, v, c) ↦
        let (r, s, t) = taken i p f fs h v c in same_result (take_work i) p q r e s t
  ]
  step-Stepped (return_work i) p q h k e = elim (return_ready i p _ h refl) [
    | inl n ↦ cc
    | inr (f, v) ↦ let (r, s, t) = returned i p f h v in same_result (return_work i) p q r e s t
  ]
  step-Stepped (add_exit f) p q h k e = elim k [ ]
  step-Stepped (add_work f) p q h k e = elim k [ ]
  step-Stepped (exit i) p q h k e = elim k [ ]
  step-Stepped stop p q h k e = elim k [ ]
