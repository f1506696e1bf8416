-- ===== src/Serve/Once.antt =====
-- How often each request is run.
use mathlib.Core.Path.{subst}
use zqim.Prelude.{
  ℕ, zero, suc, ◌+◌, ◌≡◌, refl, sym, ap, ◌∙◌, arith, Bool, Option, none, some, List, [], ◌∷◌, ◌++◌,
  map, if◌then◌else◌, inl, inr, Bool-cases, Option-cases,
}
use zqim.Frame.{Unpacked, waiting, panicked, out_of_fuel, unpack}
use zqim.Services.{Services}
use zqim.Serve.{
  Work, Server, NetEvent, accepts, accept_fails, receives, read_fails, handles, changes, unpacked,
  receive, hang_up, take_at, run_one, start, step, run,
}
use zqim.Serve.Turns.{or_else}

-- How many of the requests pass a test.
abbrev pub count : (Work → Bool) → List Work → ℕ
count p [] = 0
count p (w ∷ ws) = (if p w then 1 else 0) + count p ws

count-append : (p : Work → Bool) (vs ws : List Work) → count p (vs ++ ws) ≡ count p vs + count p ws
count-append p [] ws = omega arith
count-append p (v ∷ vs) ws = omega (arith, count-append p vs ws)

module _ {S : Type 0} (sv : Services S) (p : Work → Bool) where
  -- What passes the test has been run, or waits, as often as it was handed on.
  abbrev pub IsOnce : Server S → Type 0
  IsOnce s = count p s.handled + count p s.waiting ≡ count p s.handed

  -- A request is taken out of those that wait.
  abbrev IsTaken : List Work → Option (Work × List Work) → Type 0
  IsTaken ws none = Unit
  IsTaken ws (some (w, rest)) = count p (w ∷ []) + count p rest ≡ count p ws

  abbrev put_back : Work → Option (Work × List Work) → Option (Work × List Work)
  put_back w none = none
  put_back w (some (v, vs)) = some (v, w ∷ vs)

  IsTaken-cons :
      (w : Work) (ws : List Work) (o : Option (Work × List Work))
      → IsTaken ws o
      → IsTaken (w ∷ ws) (put_back w o)
  IsTaken-cons w ws none h = tt
  IsTaken-cons w ws (some (v, vs)) h = omega (arith, h)

  take_at-IsTaken : (i : ℕ) (ws : List Work) → IsTaken ws (take_at sv i ws)
  take_at-IsTaken i [] = tt
  take_at-IsTaken zero (w ∷ ws) = omega arith
  take_at-IsTaken (suc i) (w ∷ ws) = elim (Option-cases (take_at sv i ws)) [
    | inl n ↦ rw n tt
    | inr ((v, vs), f) ↦
        rw f (IsTaken-cons w ws (some (v, vs)) (subst (IsTaken ws) f (take_at-IsTaken i ws)))
  ]

  run_one-IsOnce :
      (now : ℕ) (held : Option (List ℕ)) (o : Option (Work × List Work)) (s : Server S)
      → IsTaken s.waiting o
      → IsOnce s
      → IsOnce (run_one sv now held o s)
  run_one-IsOnce now held none s t h = h
  run_one-IsOnce now held (some ((a, r), rest)) s t h =
      omega (arith, h, t, count-append p s.handled ((a, r) ∷ []))

  unpacked-IsOnce :
      (a : ℕ) (x : Unpacked) (s s' : Server S) → IsOnce s → unpacked sv a x s ≡ some s' → IsOnce s'
  unpacked-IsOnce a (waiting rs b) s s' h e =
      let ws : List Work = map (λ r. (a, r)) rs in
      subst IsOnce (ap (or_else s) e)
        (omega (arith, h, count-append p s.handed ws, count-append p s.waiting ws))
  unpacked-IsOnce a (panicked rs) s s' h e = cc
  unpacked-IsOnce a out_of_fuel s s' h e = cc

  hang_up-IsOnce : (a : ℕ) (s : Server S) → IsOnce s → IsOnce (hang_up sv a s)
  unfolding hang_up
  hang_up-IsOnce a s h = elim (Bool-cases (s.reading a)) [
    | inl r ↦ rw (r, hang_up) h
    | inr r ↦ rw (r, hang_up) h
  ]

  step-IsOnce : (e : NetEvent S) (s s' : Server S) → IsOnce s → step sv e s ≡ some s' → IsOnce s'
  unfolding step start
  step-IsOnce accepts s s' h e = subst IsOnce (ap (or_else s) e) h
  step-IsOnce accept_fails s s' h e = cc
  step-IsOnce (receives a chunk spare) s s' h e = elim (Bool-cases (s.reading a)) [
    | inl r ↦
        unpacked-IsOnce a (unpack (record { unread = s.unread a ++ chunk; spare = spare })) s s' h
          (sym (rw (r, receive) refl) ∙ e)
    | inr r ↦
        let f : receive sv a chunk spare s ≡ some s = rw (r, receive) refl in
        subst IsOnce (ap (or_else s) (sym f ∙ e)) h
  ]
  step-IsOnce (read_fails a) s s' h e = subst IsOnce (ap (or_else s) e) (hang_up-IsOnce a s h)
  step-IsOnce (handles now held i) s s' h e =
      subst IsOnce (ap (or_else s) e)
        (run_one-IsOnce now held (take_at sv i s.waiting) s (take_at-IsTaken i s.waiting) h)
  step-IsOnce (changes y) s s' h e = subst IsOnce (ap (or_else s) e) h

  -- Over any run, whatever order the goroutines take, every request that is handed on is run
  -- exactly once or still waits: for each test of requests, as many that pass it were run or wait
  -- as were handed on.
  pub run-IsOnce :
      (es : List (NetEvent S)) (s s' : Server S) → IsOnce s → run sv es s ≡ some s' → IsOnce s'
  unfolding run
  run-IsOnce [] s s' h e = subst IsOnce (ap (or_else s) e) h
  run-IsOnce (x ∷ es) s s' h e = elim (Option-cases (step sv x s)) [
    | inl n ↦ absurd (ground (arith, e, n))
    | inr (t, f) ↦ run-IsOnce es t s' (step-IsOnce x s t h f) (sym (rw (f, run) refl) ∙ e)
  ]
