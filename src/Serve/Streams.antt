-- ===== src/Serve/Streams.antt =====
-- What each connection's requests are, whatever the other goroutines do in between.
use mathlib.Core.Path.{subst}
use zqim.Prelude.{
  ℕ, ◌≡◌, refl, sym, ap, ◌∙◌, arith, some, List, [], ◌∷◌, ◌++◌, ◌==◌, ==_iff, append-nil, inl, inr,
  Bool-cases, Option-cases, All,
}
use zqim.Frame.{Request, read}
use zqim.Frame.Step.{IsValid}
use zqim.Frame.Stream.{Chunked, read-Chunked}
use zqim.Services.{Services}
use zqim.Serve.{
  Server, NetEvent, accepts, accept_fails, receives, read_fails, handles, changes, receive, take_at,
  step, run,
}
use zqim.Serve.Turns.{
  of_conn, chunks_of, StaysUp, delivered, rest_of, or_else, IsUp, Quiet, start-Quiet, hang_up-Quiet,
  run_one-Quiet, changed-Quiet, receive-Quiet, ReadTo, Quiet-ReadTo, receive-Took, Took-ReadTo,
}

module _ {S : Type 0} (sv : Services S) (a : ℕ) where
  pub run_rest :
      (e : NetEvent S) (es : List (NetEvent S)) (s s'' : Server S)
      → run sv (e ∷ es) s ≡ some s''
      → (s' : Server S) × (step sv e s ≡ some s') × (run sv es s' ≡ some s'')
  unfolding run
  run_rest e es s s'' r = elim (Option-cases (step sv e s)) [
    | inl n ↦ absurd (ground (arith, r, n))
    | inr (s', f) ↦ (s', f, sym (rw (f, run) refl) ∙ r)
  ]

  -- However the goroutines take turns, as long as no read of the connection fails, its requests
  -- that are handed on are those that the read loop delivers from its own chunks.
  pub run-ReadTo :
      (es : List (NetEvent S)) (s s' : Server S)
      → IsUp sv a s
      → All (StaysUp a) es
      → run sv es s ≡ some s'
      → ReadTo sv a s s' (chunks_of a es)
  unfolding run step read
  run-ReadTo [] s s' h u r =
      subst (λ t. ReadTo sv a s t []) (ap (or_else s) r)
        (record {
          rs = [];
          left = s.unread a;
          reads = refl;
          requests = sym (append-nil (of_conn a s.handed));
          buffer = refl;
        })
  run-ReadTo (accepts ∷ es) s s'' h u r =
      let (s', f, g) = run_rest accepts es s s'' r in
      let q = subst (Quiet sv a s) (ap (or_else s) f) (start-Quiet sv a s h) in
      Quiet-ReadTo sv a s s' s'' (chunks_of a es) q (run-ReadTo es s' s'' q.up u.1 g)
  run-ReadTo (accept_fails ∷ es) s s'' h u r =
      let (s', f, g) = run_rest accept_fails es s s'' r in absurd (ground (arith, f))
  run-ReadTo (read_fails b ∷ es) s s'' h u r =
      let (s', f, g) = run_rest (read_fails b) es s s'' r in
      let q = subst (Quiet sv a s) (ap (or_else s) f) (hang_up-Quiet sv a b s u.0 h) in
      Quiet-ReadTo sv a s s' s'' (chunks_of a es) q (run-ReadTo es s' s'' q.up u.1 g)
  run-ReadTo (handles now held i ∷ es) s s'' h u r =
      let (s', f, g) = run_rest (handles now held i) es s s'' r in
      let q =
        subst (Quiet sv a s) (ap (or_else s) f)
          (run_one-Quiet sv a now held (take_at sv i s.waiting) s h) in
      Quiet-ReadTo sv a s s' s'' (chunks_of a es) q (run-ReadTo es s' s'' q.up u.1 g)
  run-ReadTo (changes y ∷ es) s s'' h u r =
      let (s', f, g) = run_rest (changes y) es s s'' r in
      let q = subst (Quiet sv a s) (ap (or_else s) f) (changed-Quiet sv a y s h) in
      Quiet-ReadTo sv a s s' s'' (chunks_of a es) q (run-ReadTo es s' s'' q.up u.1 g)
  run-ReadTo (receives b chunk spare ∷ es) s s'' h u r =
      let (s', f, g) = run_rest (receives b chunk spare) es s s'' r in
      elim (Bool-cases (b == a)) [
        | inl e ↦
            let own = ap (λ c. receive sv c chunk spare s) (sym ((==_iff b a).0 e)) ∙ f in
            let k = receive-Took sv a chunk spare s s' h own in
            rw e (
              Took-ReadTo sv a chunk spare s s' s'' (chunks_of a es) k
                (run-ReadTo es s' s'' k.up u.1 g))
        | inr e ↦
            let q = receive-Quiet sv a b chunk spare s s' e h f in
            rw e (Quiet-ReadTo sv a s s' s'' (chunks_of a es) q (run-ReadTo es s' s'' q.up u.1 g))
      ]

  -- However the goroutines take turns, the chunks of a connection that hold the frames of some
  -- requests, as Chunked says, hand on these requests, in order.
  pub run-Chunked :
      (es : List (NetEvent S)) (s s' : Server S) (rs : List Request)
      → IsUp sv a s
      → All (StaysUp a) es
      → run sv es s ≡ some s'
      → Chunked (s.unread a) (chunks_of a es) rs
      → All IsValid rs
      → (of_conn a s'.handed ≡ of_conn a s.handed ++ rs) × (s'.unread a ≡ [])
  run-Chunked es s s' rs h u r c v =
      let t = run-ReadTo es s s' h u r in
      let e = sym t.reads ∙ read-Chunked c v in
      (t.requests ∙ ap (λ x. of_conn a s.handed ++ delivered x) e, t.buffer ∙ ap rest_of e)
