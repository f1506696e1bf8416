-- ===== src/Conn/Race/Inv.antt =====
-- What every interleaving of Write and Close keeps.
use mathlib.Core.Path.{subst}
use zqim.Prelude.{
  ℕ, ◌≡◌, refl, sym, ap, ◌∙◌, arith, Bool, true, false, List, ◌==◌, Bool-cases, inl, inr, ◌⊎◌,
}
use zqim.Frame.{Request}
use zqim.Heap.{update}
use zqim.Conn.Race.{
  Shared, WritePc, called, checked, returned, ClosePc, entered, swapped, exit_done, ended, lost,
  WriteMove, refused, passes, exit_case, send_case, send_panics, default_case, CloseMove,
  swap_fails, swap_works, close_exit, exit_panics, close_chan, chan_panics, System, Step, writes,
  closes, takes, Steps, still, later,
}

-- The call of Close whose compare-and-swap worked.
abbrev pub won : ClosePc → Bool
won entered = false
won lost = false
won swapped = true
won exit_done = true
won ended = true

-- Where Close stands, against what it has closed.
abbrev pub Fits : Shared → ClosePc → Type 0
Fits m entered = Unit
Fits m lost = m.is_close ≡ true
Fits m swapped = (m.is_close ≡ true) × (m.exit_closed ≡ false) × (m.chan_closed ≡ false)
Fits m exit_done = (m.is_close ≡ true) × (m.exit_closed ≡ true) × (m.chan_closed ≡ false)
Fits m ended = (m.is_close ≡ true) × (m.exit_closed ≡ true) × (m.chan_closed ≡ true)

abbrev pub is_checked : WritePc → Bool
is_checked (called r) = false
is_checked (checked r) = true
is_checked (returned r) = false

pub record Inv (s : System) : Type 0 where
  pub unique : (i j : ℕ) → won (s.closer i) ≡ true → won (s.closer j) ≡ true → i ≡ j
  pub fits : (i : ℕ) → Fits s.mem (s.closer i)
  -- nothing is closed before isClose is set, and exitChan before writeChan
  pub unclosed : s.mem.is_close ≡ false → (s.mem.exit_closed ≡ false) × (s.mem.chan_closed ≡ false)
  pub ordered : s.mem.chan_closed ≡ true → s.mem.exit_closed ≡ true
  pub cause :
      s.mem.panicked ≡ true
      → (i : ℕ) × (is_checked (s.writer i) ≡ true) × (s.mem.chan_closed ≡ true)

-- Only the flags matter to Close.
Fits-same :
    (m n : Shared) (p : ClosePc)
    → n.is_close ≡ m.is_close
    → n.exit_closed ≡ m.exit_closed
    → n.chan_closed ≡ m.chan_closed
    → Fits m p
    → Fits n p
Fits-same m n entered a b c h = tt
Fits-same m n lost a b c h = a ∙ h
Fits-same m n swapped a b c h = (a ∙ h.0, b ∙ h.1, c ∙ h.2)
Fits-same m n exit_done a b c h = (a ∙ h.0, b ∙ h.1, c ∙ h.2)
Fits-same m n ended a b c h = (a ∙ h.0, b ∙ h.1, c ∙ h.2)

-- A move of Write leaves the flags as they are, and panics only at its select.
record Written (m : Shared) (p : WritePc) (n : Shared) (q : WritePc) : Type 0 where
  close_kept : n.is_close ≡ m.is_close
  exit_kept : n.exit_closed ≡ m.exit_closed
  chan_kept : n.chan_closed ≡ m.chan_closed
  panics :
      n.panicked ≡ true → (m.panicked ≡ true) ⊎ ((is_checked q ≡ true) × (m.chan_closed ≡ true))

WriteMove-Written : {m n : Shared} {p q : WritePc} → WriteMove m p n q → Written m p n q
WriteMove-Written (refused e) = record {
  close_kept = refl;
  exit_kept = refl;
  chan_kept = refl;
  panics = inl;
}
WriteMove-Written (passes e) = record {
  close_kept = refl;
  exit_kept = refl;
  chan_kept = refl;
  panics = inl;
}
WriteMove-Written (exit_case e) = record {
  close_kept = refl;
  exit_kept = refl;
  chan_kept = refl;
  panics = inl;
}
WriteMove-Written (send_case e l) = record {
  close_kept = refl;
  exit_kept = refl;
  chan_kept = refl;
  panics = inl;
}
WriteMove-Written (send_panics e) = record {
  close_kept = refl;
  exit_kept = refl;
  chan_kept = refl;
  panics = λ x. inr (refl, e);
}
WriteMove-Written (default_case e f l) = record {
  close_kept = refl;
  exit_kept = refl;
  chan_kept = refl;
  panics = inl;
}

pub update_self : {A : Type 0} → (f : ℕ → A) (i : ℕ) (a : A) → update f i a i ≡ a
update_self f i a = ground arith

writes-Inv :
    (s : System) (i : ℕ) (m : Shared) (p : WritePc)
    → Inv s
    → s.mem.panicked ≡ false
    → WriteMove s.mem (s.writer i) m p
    → Inv (record s { mem = m; writer = update s.writer i p })
writes-Inv s i m p h ok mv =
    let w = WriteMove-Written mv in
    record {
      unique = h.unique;
      fits = λ j. Fits-same s.mem m (s.closer j) w.close_kept w.exit_kept w.chan_kept (h.fits j);
      unclosed =
          λ e. let (a, b) = h.unclosed (sym w.close_kept ∙ e) in (w.exit_kept ∙ a, w.chan_kept ∙ b);
      ordered = λ e. w.exit_kept ∙ h.ordered (sym w.chan_kept ∙ e);
      cause = λ e. elim (w.panics e) [
        | inl x ↦ absurd (ground (arith, ok, x))
        | inr x ↦ (i, ap is_checked (update_self s.writer i p) ∙ x.0, w.chan_kept ∙ x.1)
      ];
    }

Fits-lost : (n : Shared) (p : ClosePc) → won p ≡ false → n.is_close ≡ true → Fits n p
Fits-lost n entered w c = tt
Fits-lost n lost w c = c
Fits-lost n swapped w c = cc
Fits-lost n exit_done w c = cc
Fits-lost n ended w c = cc

won-is_close : (m : Shared) (p : ClosePc) → Fits m p → won p ≡ true → m.is_close ≡ true
won-is_close m entered f w = cc
won-is_close m lost f w = f
won-is_close m swapped f w = f.0
won-is_close m exit_done f w = f.0
won-is_close m ended f w = f.0

module _ (s : System) (i : ℕ) (h : Inv s) (ok : s.mem.panicked ≡ false) where
  -- A move of the only call of Close that can have worked.
  sole-Inv :
      (n : Shared) (q : ClosePc)
      → ((j : ℕ) → (i == j) ≡ false → won (s.closer j) ≡ false)
      → n.is_close ≡ true
      → Fits n q
      → (n.chan_closed ≡ true → n.exit_closed ≡ true)
      → n.panicked ≡ false
      → Inv (record s { mem = n; closer = update s.closer i q })
  sole-Inv n q others set fit o sound = record {
    unique = λ j k a b. mine j a ∙ sym (mine k b);
    fits = λ j. placed j (Bool-cases (i == j));
    unclosed = λ e. absurd (ground (arith, set, e));
    ordered = o;
    cause = λ e. absurd (ground (arith, sound, e));
  }
    where
      mine : (j : ℕ) → won (update s.closer i q j) ≡ true → j ≡ i
      mine j a = ground (arith, others j, a)

      placed : (j : ℕ) → ((i == j) ≡ true) ⊎ ((i == j) ≡ false) → Fits n (update s.closer i q j)
      placed j (inl e) = rw e fit
      placed j (inr e) = rw e (Fits-lost n (s.closer j) (others j e) set)

  swap_fails-Inv : s.mem.is_close ≡ true → Inv (record s { closer = update s.closer i lost })
  swap_fails-Inv set = record {
    unique = λ j k a b. h.unique j k (before j a) (before k b);
    fits = λ j. placed j (Bool-cases (i == j));
    unclosed = h.unclosed;
    ordered = h.ordered;
    cause = h.cause;
  }
    where
      before : (j : ℕ) → won (update s.closer i lost j) ≡ true → won (s.closer j) ≡ true
      before j a = ground (arith, a)

      placed :
          (j : ℕ) → ((i == j) ≡ true) ⊎ ((i == j) ≡ false) → Fits s.mem (update s.closer i lost j)
      placed j (inl e) = rw e set
      placed j (inr e) = rw e (h.fits j)

  -- If this call has won, no other has.
  others_lost : won (s.closer i) ≡ true → (j : ℕ) → (i == j) ≡ false → won (s.closer j) ≡ false
  others_lost w j n = elim (Bool-cases (won (s.closer j))) [
    | inl v ↦ absurd (ground (arith, n, h.unique i j w v))
    | inr v ↦ v
  ]

  none_won : s.mem.is_close ≡ false → (j : ℕ) → won (s.closer j) ≡ false
  none_won c j = elim (Bool-cases (won (s.closer j))) [
    | inl v ↦ absurd (ground (arith, c, won-is_close s.mem (s.closer j) (h.fits j) v))
    | inr v ↦ v
  ]

  closes-Inv :
      (n : Shared) (c q : ClosePc)
      → s.closer i ≡ c
      → CloseMove s.mem c n q
      → Inv (record s { mem = n; closer = update s.closer i q })
  closes-Inv n c q e (swap_fails set) = swap_fails-Inv set
  closes-Inv n c q e (swap_works unset) =
      let (x, y) = h.unclosed unset in
      sole-Inv n q (λ j d. none_won unset j) refl (refl, x, y) (λ z. cc) ok
  closes-Inv n c q e (close_exit unset) =
      let f = subst (Fits s.mem) e (h.fits i) in
      sole-Inv n q (others_lost (ap won e)) f.0 (f.0, refl, f.2) (λ z. refl) ok
  closes-Inv n c q e (exit_panics set) =
      let f = subst (Fits s.mem) e (h.fits i) in absurd (ground (arith, set, f.1))
  closes-Inv n c q e (close_chan unset) =
      let f = subst (Fits s.mem) e (h.fits i) in
      sole-Inv n q (others_lost (ap won e)) f.0 (f.0, f.1, refl) (λ z. f.1) ok
  closes-Inv n c q e (chan_panics set) =
      let f = subst (Fits s.mem) e (h.fits i) in absurd (ground (arith, set, f.2))

takes-Inv :
    (s : System) (rest : List Request)
    → Inv s
    → Inv (record s { mem = record (s.mem) { write_chan = rest } })
takes-Inv s rest h = record {
  unique = h.unique;
  fits = λ j.
      Fits-same s.mem (record (s.mem) { write_chan = rest }) (s.closer j) refl refl refl (h.fits j);
  unclosed = h.unclosed;
  ordered = h.ordered;
  cause = h.cause;
}

pub Step-Inv : {s t : System} → Inv s → Step s t → Inv t
Step-Inv {s} h (writes i ok mv) = writes-Inv s i _ _ h ok mv
Step-Inv {s} h (closes i ok mv) = closes-Inv s i h ok _ _ _ refl mv
Step-Inv {s} h (takes ok e) = takes-Inv s _ h

pub Steps-Inv : {s t : System} → Inv s → Steps s t → Inv t
Steps-Inv h still = h
Steps-Inv h (later r x) = Step-Inv (Steps-Inv h r) x
