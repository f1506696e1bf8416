-- ===== src/Serve/Turns.antt =====
-- The steps of the server, as one connection sees them.
use mathlib.Core.Path.{subst}
use zqim.Prelude.{
  ℕ, ◌<◌, ◌≡◌, refl, sym, ap, ◌∙◌, arith, true, false, Option, none, some, List, [], ◌∷◌, ◌++◌, map,
  ◌==◌, if◌then◌else◌, append-nil, append_assoc, inl, inr, Bool-cases,
}
use zqim.Frame.{
  Request, Buffer, Unpacked, waiting, panicked, out_of_fuel, unpack, Received, received, crashed,
  read, prepend_all,
}
use zqim.Services.{Services, Sys}
use zqim.Serve.{
  Work, Server, NetEvent, accepts, accept_fails, receives, read_fails, handles, changes, unpacked,
  receive, hang_up, run_one, start,
}

-- The requests of one connection, and the chunks that it sends.
abbrev pub of_conn : ℕ → List Work → List Request
of_conn a [] = []
of_conn a ((b, r) ∷ ws) = if b == a then r ∷ of_conn a ws else of_conn a ws

abbrev pub chunks_of : {S : Type 0} → ℕ → List (NetEvent S) → List (List ℕ × List ℕ)
chunks_of a [] = []
chunks_of a (accepts ∷ es) = chunks_of a es
chunks_of a (accept_fails ∷ es) = chunks_of a es
chunks_of a (receives b chunk spare ∷ es) =
    if b == a then (chunk, spare) ∷ chunks_of a es else chunks_of a es
chunks_of a (read_fails b ∷ es) = chunks_of a es
chunks_of a (handles now held i ∷ es) = chunks_of a es
chunks_of a (changes y ∷ es) = chunks_of a es

-- No read of the connection fails.
abbrev pub StaysUp : {S : Type 0} → ℕ → NetEvent S → Type 0
StaysUp a accepts = Unit
StaysUp a accept_fails = Unit
StaysUp a (receives b chunk spare) = Unit
StaysUp a (read_fails b) = (b == a) ≡ false
StaysUp a (handles now held i) = Unit
StaysUp a (changes y) = Unit

of_conn-append : (a : ℕ) (vs ws : List Work) → of_conn a (vs ++ ws) ≡ of_conn a vs ++ of_conn a ws
of_conn-append a [] ws = refl
of_conn-append a ((b, r) ∷ vs) ws = ground (arith, of_conn-append a vs ws)

of_conn-own : (a : ℕ) (rs : List Request) → of_conn a (map (λ r. (a, r)) rs) ≡ rs
of_conn-own a [] = refl
of_conn-own a (r ∷ rs) = ground (arith, of_conn-own a rs)

of_conn-other :
    (a b : ℕ) (rs : List Request) → (b == a) ≡ false → of_conn a (map (λ r. (b, r)) rs) ≡ []
of_conn-other a b [] n = refl
of_conn-other a b (r ∷ rs) n = ground (arith, of_conn-other a b rs n)

abbrev pub delivered : Received → List Request
delivered (received rs u) = rs
delivered (crashed rs) = rs

abbrev pub rest_of : Received → List ℕ
rest_of (received rs u) = u
rest_of (crashed rs) = []

abbrev pub or_else : {S : Type 0} → Server S → Option (Server S) → Server S
or_else s none = s
or_else s (some t) = t

module _ {S : Type 0} (sv : Services S) (a : ℕ) where
  -- The connection is read.
  pub record IsUp (s : Server S) : Type 0 where
    pub reading : s.reading a ≡ true
    pub known : a < s.fresh

  -- A step that leaves the connection's buffer and requests as they are.
  pub record Quiet (s s' : Server S) : Type 0 where
    pub up : IsUp s'
    pub buffer : s'.unread a ≡ s.unread a
    pub same : of_conn a s'.handed ≡ of_conn a s.handed

  pub still : (s : Server S) → IsUp s → Quiet s s
  still s h = record { up = h; buffer = refl; same = refl }

  pub start-Quiet : (s : Server S) → IsUp s → Quiet s (start sv s)
  unfolding start
  start-Quiet s h =
      let other : (s.fresh == a) ≡ false = ground (arith, h.known) in
      record {
        up = record { reading = rw other h.reading; known = omega (arith, h.known) };
        buffer = rw other refl;
        same = refl;
      }

  pub hang_up-Quiet : (b : ℕ) (s : Server S) → (b == a) ≡ false → IsUp s → Quiet s (hang_up sv b s)
  unfolding hang_up
  hang_up-Quiet b s n h = elim (Bool-cases (s.reading b)) [
    | inl e ↦
        rw (e, hang_up)
          (record {
            up = record { reading = rw n h.reading; known = h.known };
            buffer = refl;
            same = refl;
          })
    | inr e ↦ rw (e, hang_up) (still s h)
  ]

  pub run_one-Quiet :
      (now : ℕ) (held : Option (List ℕ)) (o : Option (Work × List Work)) (s : Server S)
      → IsUp s
      → Quiet s (run_one sv now held o s)
  run_one-Quiet now held none s h = still s h
  run_one-Quiet now held (some ((b, r), rest)) s h = record {
    up = record { reading = h.reading; known = h.known };
    buffer = refl;
    same = refl;
  }

  pub changed-Quiet : (y : Sys S) (s : Server S) → IsUp s → Quiet s (record s { sys = y })
  changed-Quiet y s h = record {
    up = record { reading = h.reading; known = h.known };
    buffer = refl;
    same = refl;
  }

  -- A chunk of another connection.
  other-Quiet :
      (b : ℕ) (x : Unpacked) (s s' : Server S)
      → (b == a) ≡ false
      → IsUp s
      → unpacked sv b x s ≡ some s'
      → Quiet s s'
  other-Quiet b (waiting rs c) s s' n h e = subst (Quiet s) (ap (or_else s) e) (record {
    up = record { reading = h.reading; known = h.known };
    buffer = rw n refl;
    same =
        of_conn-append a s.handed (map (λ r. (b, r)) rs)
        ∙ ap (of_conn a s.handed ++◌) (of_conn-other a b rs n)
        ∙ append-nil (of_conn a s.handed);
  })
  other-Quiet b (panicked rs) s s' n h e = cc
  other-Quiet b out_of_fuel s s' n h e = cc

  pub receive-Quiet :
      (b : ℕ) (chunk spare : List ℕ) (s s' : Server S)
      → (b == a) ≡ false
      → IsUp s
      → receive sv b chunk spare s ≡ some s'
      → Quiet s s'
  unfolding receive
  receive-Quiet b chunk spare s s' n h e = elim (Bool-cases (s.reading b)) [
    | inl r ↦
        other-Quiet b (unpack (record { unread = s.unread b ++ chunk; spare = spare })) s s' n h
          (sym (rw (r, receive) refl) ∙ e)
    | inr r ↦
        let f : receive sv b chunk spare s ≡ some s = rw (r, receive) refl in
        subst (Quiet s) (ap (or_else s) (sym f ∙ e)) (still s h)
  ]

  -- What the connection has been read to: requests, and the bytes that are left.
  pub record ReadTo (s s' : Server S) (chunks : List (List ℕ × List ℕ)) : Type 0 where
    pub rs : List Request
    pub left : List ℕ
    pub reads : read (s.unread a) chunks ≡ received rs left
    pub requests : of_conn a s'.handed ≡ of_conn a s.handed ++ rs
    pub buffer : s'.unread a ≡ left

  pub Quiet-ReadTo :
      (s s' s'' : Server S) (chunks : List (List ℕ × List ℕ))
      → Quiet s s'
      → ReadTo s' s'' chunks
      → ReadTo s s'' chunks
  Quiet-ReadTo s s' s'' chunks q t = record {
    rs = t.rs;
    left = t.left;
    reads = ap (λ u. read u chunks) (sym q.buffer) ∙ t.reads;
    requests = t.requests ∙ ap (◌++ t.rs) q.same;
    buffer = t.buffer;
  }

  -- A chunk of this connection, by what unpack makes of it.
  pub record Took (s s' : Server S) (x : Unpacked) : Type 0 where
    pub rs : List Request
    pub b : Buffer
    pub unpacks : x ≡ waiting rs b
    pub up : IsUp s'
    pub buffer : s'.unread a ≡ b.unread
    pub more : of_conn a s'.handed ≡ of_conn a s.handed ++ rs

  unpacked-Took :
      (x : Unpacked) (s s' : Server S) → IsUp s → unpacked sv a x s ≡ some s' → Took s s' x
  unpacked-Took (waiting rs b) s s' h e =
      subst (λ t. Took s t (waiting rs b)) (ap (or_else s) e)
        (record {
          rs = rs;
          b = b;
          unpacks = refl;
          up = record { reading = h.reading; known = h.known };
          buffer = ground arith;
          more =
              of_conn-append a s.handed (map (λ r. (a, r)) rs)
              ∙ ap (of_conn a s.handed ++◌) (of_conn-own a rs);
        })
  unpacked-Took (panicked rs) s s' h e = cc
  unpacked-Took out_of_fuel s s' h e = cc

  pub receive-Took :
      (chunk spare : List ℕ) (s s' : Server S)
      → IsUp s
      → receive sv a chunk spare s ≡ some s'
      → Took s s' (unpack (record { unread = s.unread a ++ chunk; spare = spare }))
  unfolding receive
  receive-Took chunk spare s s' h e =
      let x = unpack (record { unread = s.unread a ++ chunk; spare = spare }) in
      unpacked-Took x s s' h (sym (rw (h.reading, receive) refl) ∙ e)

  pub Took-ReadTo :
      (chunk spare : List ℕ) (s s' s'' : Server S) (chunks : List (List ℕ × List ℕ))
      → Took s s' (unpack (record { unread = s.unread a ++ chunk; spare = spare }))
      → ReadTo s' s'' chunks
      → ReadTo s s'' ((chunk, spare) ∷ chunks)
  unfolding read
  Took-ReadTo chunk spare s s' s'' chunks k t = record {
    rs = k.rs ++ t.rs;
    left = t.left;
    reads =
        rw (k.unpacks, read)
          (ap (λ u. prepend_all k.rs (read u chunks)) (sym k.buffer)
            ∙ ap (prepend_all k.rs) t.reads);
    requests = t.requests ∙ ap (◌++ t.rs) k.more ∙ append_assoc (of_conn a s.handed) k.rs t.rs;
    buffer = t.buffer;
  }
