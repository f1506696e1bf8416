-- ===== src/Serve/Effects.antt =====
-- What the requests that are run do to the state of the process.
use mathlib.Core.Path.{subst}
use zqim.Prelude.{
  ℕ, zero, suc, true, false, ◌≡◌, refl, sym, ap, ◌∙◌, arith, Bool, Option, none, some, List, [],
  ◌∷◌, ◌++◌, append-nil, append_assoc, inl, inr, get_elem?, Bool-cases, Option-cases,
}
use zqim.Frame.{Unpacked, waiting, panicked, out_of_fuel, unpack}
use zqim.Conn.{accept, close}
use zqim.Ack.{on_conn}
use zqim.Services.{Services, Sys, with_world}
use zqim.Auth.{close_handle}
use zqim.Route.{routes_run, set_router}
use zqim.Serve.{
  Work, Server, NetEvent, accepts, accept_fails, receives, read_fails, handles, changes, seen,
  unpacked, receive, hang_up, take_at, run_one, start, step, run,
}
use zqim.Serve.Turns.{or_else}
use zqim.Serve.Once.{IsOnce, run-IsOnce}
use zqim.Serve.Streams.{run_rest}

-- What happens to the state: a request of a connection goes through its route, at a time and with
-- what the buffer holds of its body; a connection is opened; one is ended; or another part of the
-- process sets the state.
pub data Effect (S : Type 0) : Type 0 where
  ran : ℕ → Option (List ℕ) → Work → Effect S
  opened ended : ℕ → Effect S
  changed : Sys S → Effect S

-- The requests among the effects.
abbrev pub works : {S : Type 0} → List (Effect S) → List Work
works [] = []
works (ran now held w ∷ fx) = w ∷ works fx
works (opened a ∷ fx) = works fx
works (ended a ∷ fx) = works fx
works (changed y ∷ fx) = works fx

module _ {S : Type 0} (sv : Services S) where
  abbrev pub effect : Effect S → Sys S → Sys S
  effect (ran now held (a, r)) y = routes_run (set_router sv now) a (seen held r) y
  effect (opened a) y = with_world (on_conn a (λ c. accept)) y
  effect (ended a) y = close_handle sv a (with_world (on_conn a close) y)
  effect (changed z) y = z

  -- The effects are those of the events, each in the state that the events before it left: an event of
  -- a goroutine of the pool runs the request at its place among those that wait, if there is one; and
  -- the end of a read ends the connection, if its read loop has not returned before.
  pub data Fits : Server S → List (NetEvent S) → List (Effect S) → Type 0 where
    done : {s : Server S} → Fits s [] []
    opens :
        {s s' : Server S} {es : List (NetEvent S)} {fx : List (Effect S)}
        → step sv accepts s ≡ some s'
        → Fits s' es fx
        → Fits s (accepts ∷ es) (opened s.fresh ∷ fx)
    reads :
        {s s' : Server S} {es : List (NetEvent S)} {fx : List (Effect S)} {a : ℕ}
        {chunk spare : List ℕ}
        → step sv (receives a chunk spare) s ≡ some s'
        → Fits s' es fx
        → Fits s (receives a chunk spare ∷ es) fx
    ends :
        {s s' : Server S} {es : List (NetEvent S)} {fx : List (Effect S)} {a : ℕ}
        → s.reading a ≡ true
        → step sv (read_fails a) s ≡ some s'
        → Fits s' es fx
        → Fits s (read_fails a ∷ es) (ended a ∷ fx)
    ended_before :
        {s s' : Server S} {es : List (NetEvent S)} {fx : List (Effect S)} {a : ℕ}
        → s.reading a ≡ false
        → step sv (read_fails a) s ≡ some s'
        → Fits s' es fx
        → Fits s (read_fails a ∷ es) fx
    runs :
        {s s' : Server S} {es : List (NetEvent S)} {fx : List (Effect S)} {now i : ℕ}
        {held : Option (List ℕ)} (w : Work)
        → get_elem? s.waiting i ≡ some w
        → step sv (handles now held i) s ≡ some s'
        → Fits s' es fx
        → Fits s (handles now held i ∷ es) (ran now held w ∷ fx)
    idles :
        {s s' : Server S} {es : List (NetEvent S)} {fx : List (Effect S)} {now i : ℕ}
        {held : Option (List ℕ)}
        → get_elem? s.waiting i ≡ none
        → step sv (handles now held i) s ≡ some s'
        → Fits s' es fx
        → Fits s (handles now held i ∷ es) fx
    sets :
        {s s' : Server S} {es : List (NetEvent S)} {fx : List (Effect S)} {y : Sys S}
        → step sv (changes y) s ≡ some s'
        → Fits s' es fx
        → Fits s (changes y ∷ es) (changed y ∷ fx)

  abbrev pub replay : List (Effect S) → Sys S → Sys S
  replay [] y = y
  replay (f ∷ fx) y = replay fx (effect f y)

  -- The state at the end of a run is what the effects make of the first one, and the requests of
  -- the effects are those that were run.
  pub record Replayed (es : List (NetEvent S)) (s s' : Server S) : Type 0 where
    pub effects : List (Effect S)
    pub fits : Fits s es effects
    pub state : s'.sys ≡ replay effects s.sys
    pub requests : s'.handled ≡ s.handled ++ works effects

  -- A step without an effect.
  silent :
      {es : List (NetEvent S)} {e : NetEvent S} {s s' s'' : Server S}
      → ((fx : List (Effect S)) → Fits s' es fx → Fits s (e ∷ es) fx)
      → s'.sys ≡ s.sys
      → s'.handled ≡ s.handled
      → Replayed es s' s''
      → Replayed (e ∷ es) s s''
  silent f y h t = record {
    effects = t.effects;
    fits = f t.effects t.fits;
    state = t.state ∙ ap (replay t.effects) y;
    requests = t.requests ∙ ap (◌++ works t.effects) h;
  }

  works-cons : (f : Effect S) (fx : List (Effect S)) → works (f ∷ []) ++ works fx ≡ works (f ∷ fx)
  works-cons (ran now held w) fx = refl
  works-cons (opened a) fx = refl
  works-cons (ended a) fx = refl
  works-cons (changed y) fx = refl

  -- A step with one.
  caused :
      {es : List (NetEvent S)} {e : NetEvent S} {s s' s'' : Server S} (f : Effect S)
      → ((fx : List (Effect S)) → Fits s' es fx → Fits s (e ∷ es) (f ∷ fx))
      → s'.sys ≡ effect f s.sys
      → s'.handled ≡ s.handled ++ works (f ∷ [])
      → Replayed es s' s''
      → Replayed (e ∷ es) s s''
  caused {s = s} f k y h t = record {
    effects = f ∷ t.effects;
    fits = k t.effects t.fits;
    state = t.state ∙ ap (replay t.effects) y;
    requests =
        t.requests
        ∙ ap (◌++ works t.effects) h
        ∙ append_assoc s.handled (works (f ∷ [])) (works t.effects)
        ∙ ap (s.handled ++◌) (works-cons f t.effects);
  }

  IsSilent : Server S → Server S → Type 0
  IsSilent s s' = (s'.sys ≡ s.sys) × (s'.handled ≡ s.handled)

  unpacked-IsSilent :
      (a : ℕ) (x : Unpacked) (s s' : Server S) → unpacked sv a x s ≡ some s' → IsSilent s s'
  unfolding IsSilent
  unpacked-IsSilent a (waiting rs b) s s' e = subst (IsSilent s) (ap (or_else s) e) (refl, refl)
  unpacked-IsSilent a (panicked rs) s s' e = cc
  unpacked-IsSilent a out_of_fuel s s' e = cc

  receive-IsSilent :
      (a : ℕ) (chunk spare : List ℕ) (s s' : Server S)
      → receive sv a chunk spare s ≡ some s'
      → IsSilent s s'
  unfolding IsSilent receive unpack
  receive-IsSilent a chunk spare s s' e = elim (Bool-cases (s.reading a)) [
    | inl r ↦
        unpacked-IsSilent a (unpack (record { unread = s.unread a ++ chunk; spare = spare })) s s'
          (sym (rw (r, receive) refl) ∙ e)
    | inr r ↦
        let f : receive sv a chunk spare s ≡ some s = rw (r, receive) refl in
        subst (IsSilent s) (ap (or_else s) (sym f ∙ e)) (refl, refl)
  ]

  -- The request at a place among those that wait is the one that is taken there.
  abbrev first_of : Option (Work × List Work) → Option Work
  first_of none = none
  first_of (some (w, rest)) = some w

  get_elem?-take_at : (i : ℕ) (ws : List Work) → get_elem? ws i ≡ first_of (take_at sv i ws)
  get_elem?-take_at i [] = refl
  get_elem?-take_at zero (w ∷ ws) = refl
  get_elem?-take_at (suc i) (w ∷ ws) = elim (Option-cases (take_at sv i ws)) [
    | inl n ↦ rw n (get_elem?-take_at i ws ∙ ap first_of n)
    | inr (x, f) ↦ rw f (get_elem?-take_at i ws ∙ ap first_of f)
  ]

  run_one-Replayed :
      (now i : ℕ) (held : Option (List ℕ)) (o : Option (Work × List Work)) {es : List (NetEvent S)}
      {s s'' : Server S}
      → get_elem? s.waiting i ≡ first_of o
      → step sv (handles now held i) s ≡ some (run_one sv now held o s)
      → Replayed es (run_one sv now held o s) s''
      → Replayed (handles now held i ∷ es) s s''
  run_one-Replayed now i held none n e t = silent (λ fx f. idles n e f) refl refl t
  run_one-Replayed now i held (some ((a, r), rest)) n e t =
      caused (ran now held (a, r)) (λ fx f. runs (a, r) n e f) refl refl t

  hang_up-Replayed :
      (a : ℕ) {es : List (NetEvent S)} {s s'' : Server S}
      → step sv (read_fails a) s ≡ some (hang_up sv a s)
      → Replayed es (hang_up sv a s) s''
      → Replayed (read_fails a ∷ es) s s''
  unfolding hang_up
  hang_up-Replayed a {es = es} {s = s} {s'' = s''} e t = elim (Bool-cases (s.reading a)) [
    | inl r ↦
        caused (ended a) (λ fx f. ends r e f) (rw (r, hang_up) refl)
          (rw (r, hang_up) (sym (append-nil s.handled))) t
    | inr r ↦ silent (λ fx f. ended_before r e f) (rw (r, hang_up) refl) (rw (r, hang_up) refl) t
  ]

  pub run-Replayed :
      (es : List (NetEvent S)) (s s' : Server S) → run sv es s ≡ some s' → Replayed es s s'
  unfolding IsSilent run step start
  run-Replayed [] s s' r =
      subst (Replayed [] s) (ap (or_else s) r)
        (record { effects = []; fits = done; state = refl; requests = sym (append-nil s.handled) })
  run-Replayed (accepts ∷ es) s s'' r =
      let (s', f, g) = run_rest sv 0 accepts es s s'' r in
      let t = subst (λ x. Replayed es x s'') (sym (ap (or_else s) f)) (run-Replayed es s' s'' g) in
      caused (opened s.fresh) (λ fx k. opens refl k) refl (sym (append-nil s.handled)) t
  run-Replayed (accept_fails ∷ es) s s'' r =
      let (s', f, g) = run_rest sv 0 accept_fails es s s'' r in absurd (ground (arith, f))
  run-Replayed (receives a chunk spare ∷ es) s s'' r =
      let (s', f, g) = run_rest sv 0 (receives a chunk spare) es s s'' r in
      let (y, h) = receive-IsSilent a chunk spare s s' f in
      silent (λ fx k. reads f k) y h (run-Replayed es s' s'' g)
  run-Replayed (read_fails a ∷ es) s s'' r =
      let (s', f, g) = run_rest sv 0 (read_fails a) es s s'' r in
      hang_up-Replayed a refl
        (subst (λ x. Replayed es x s'') (sym (ap (or_else s) f)) (run-Replayed es s' s'' g))
  run-Replayed (handles now held i ∷ es) s s'' r =
      let (s', f, g) = run_rest sv 0 (handles now held i) es s s'' r in
      run_one-Replayed now i held (take_at sv i s.waiting) (get_elem?-take_at i s.waiting) refl
        (subst (λ x. Replayed es x s'') (sym (ap (or_else s) f)) (run-Replayed es s' s'' g))
  run-Replayed (changes y ∷ es) s s'' r =
      let (s', f, g) = run_rest sv 0 (changes y) es s s'' r in
      let t = subst (λ x. Replayed es x s'') (sym (ap (or_else s) f)) (run-Replayed es s' s'' g) in
      caused (changed y) (λ fx k. sets refl k) refl (sym (append-nil s.handled)) t

  -- Over any run, whatever order the goroutines take: every request that is handed on is run exactly
  -- once or still waits, that is, for each test of requests as many that pass it were run or wait as
  -- were handed on, if that holds at the start; each event of a goroutine of the pool runs the request
  -- at its place among those that wait, if there is one; and the state at the end is what the requests
  -- that were run, each through its route at its turn, with what the buffer holds of its body then,
  -- and the other events make of the first state.
  pub run-IsRun :
      (es : List (NetEvent S)) (s s' : Server S)
      → ((p : Work → Bool) → IsOnce sv p s)
      → run sv es s ≡ some s'
      → ((p : Work → Bool) → IsOnce sv p s') × Replayed es s s'
  run-IsRun es s s' h r = (λ p. run-IsOnce sv p es s s' (h p) r, run-Replayed es s s' r)
