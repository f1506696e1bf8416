-- ===== src/Conn/Race/Safety.antt =====
-- What any interleaving of Write and Close comes to.
use mathlib.Core.Path.{subst}
use zqim.Prelude.{
  ℕ, ◌≤◌, ◌≡◌, refl, sym, ap, ◌∙◌, arith, true, false, List, [], ◌∷◌, length, length-append, ◌==◌,
  ==_iff, Bool-cases, inl, inr, ◌⊎◌,
}
use zqim.Frame.{Request}
use zqim.Heap.{update}
use zqim.Conn.{chan_size, closed_error}
use zqim.Conn.Race.{
  Shared, WritePc, called, checked, returned, ClosePc, entered, swapped, exit_done, WriteMove,
  refused, passes, exit_case, send_case, send_panics, default_case, CloseMove, swap_fails,
  swap_works, close_exit, exit_panics, close_chan, chan_panics, System, Step, writes, closes, takes,
  Steps, still, later,
}
use zqim.Conn.Race.Inv.{won, Fits, is_checked, Inv, Steps-Inv, update_self}

-- A connection that nobody has begun to close.
pub record IsUnclosed (s : System) : Type 0 where
  pub sound : s.mem.panicked ≡ false
  pub unclosed : s.mem.is_close ≡ false
  pub exit_unclosed : s.mem.exit_closed ≡ false
  pub chan_unclosed : s.mem.chan_closed ≡ false
  pub unentered : (i : ℕ) → s.closer i ≡ entered

-- Such a connection, into which nothing was written yet.
pub record IsFresh (s : System) : Type 0 where
  pub open_yet : IsUnclosed s
  pub nothing_waits : s.mem.write_chan ≡ []

IsUnclosed-Inv : {s : System} → IsUnclosed s → Inv s
IsUnclosed-Inv {s} h = record {
  unique = λ i j a b. absurd (ground (arith, ap won (h.unentered i), a));
  fits = λ i. rw (h.unentered i) tt;
  unclosed = λ e. (h.exit_unclosed, h.chan_unclosed);
  ordered = λ e. absurd (ground (arith, h.chan_unclosed, e));
  cause = λ e. absurd (ground (arith, h.sound, e));
}

-- No move of Close panics when it fits what is closed.
CloseMove-sound :
    {m n : Shared} {p q : ClosePc}
    → m.panicked ≡ false
    → Fits m p
    → CloseMove m p n q
    → n.panicked ≡ false
CloseMove-sound ok f (swap_fails e) = ok
CloseMove-sound ok f (swap_works e) = ok
CloseMove-sound ok f (close_exit e) = ok
CloseMove-sound ok f (exit_panics e) = absurd (ground (arith, e, f.1))
CloseMove-sound ok f (close_chan e) = ok
CloseMove-sound ok f (chan_panics e) = absurd (ground (arith, e, f.2))

WriteMove-bounded :
    {m n : Shared} {p q : WritePc}
    → WriteMove m p n q
    → length m.write_chan ≤ chan_size
    → length n.write_chan ≤ chan_size
WriteMove-bounded (refused e) h = h
WriteMove-bounded (passes e) h = h
WriteMove-bounded (exit_case e) h = h
WriteMove-bounded {m} (send_case {r} e l) h = ground (arith, length-append m.write_chan (r ∷ []), l)
WriteMove-bounded (send_panics e) h = h
WriteMove-bounded (default_case e f l) h = h

takes-bounded :
    {r : Request} (xs : List Request) (rest : List Request)
    → xs ≡ r ∷ rest
    → length xs ≤ chan_size
    → length rest ≤ chan_size
takes-bounded xs rest e h = ground (arith, ap length e)

CloseMove-write_chan :
    {m n : Shared} {p q : ClosePc} → CloseMove m p n q → n.write_chan ≡ m.write_chan
CloseMove-write_chan (swap_fails e) = refl
CloseMove-write_chan (swap_works e) = refl
CloseMove-write_chan (close_exit e) = refl
CloseMove-write_chan (exit_panics e) = refl
CloseMove-write_chan (close_chan e) = refl
CloseMove-write_chan (chan_panics e) = refl

Step-bounded :
    {s t : System}
    → Step s t
    → length s.mem.write_chan ≤ chan_size
    → length t.mem.write_chan ≤ chan_size
Step-bounded (writes i ok mv) h = WriteMove-bounded mv h
Step-bounded (closes i ok mv) h = rw (CloseMove-write_chan mv) h
Step-bounded {s} (takes {r} {rest} ok e) h = takes-bounded s.mem.write_chan rest e h

Steps-bounded :
    {s t : System}
    → Steps s t
    → length s.mem.write_chan ≤ chan_size
    → length t.mem.write_chan ≤ chan_size
Steps-bounded still h = h
Steps-bounded (later x y) h = Step-bounded y (Steps-bounded x h)

-- However the calls of Write and Close on a connection interleave, at most one call of Close gets
-- past its compare-and-swap, no step of a call of Close panics, writeChan holds no more than its
-- ten requests, and when the process has panicked, some call of Write stands at its select with
-- writeChan closed.
pub Steps-sound :
    {s t : System}
    → IsFresh s
    → Steps s t
    → ((i j : ℕ) → won (t.closer i) ≡ true → won (t.closer j) ≡ true → i ≡ j)
      × ((i : ℕ) (n : Shared) (q : ClosePc)
          → t.mem.panicked ≡ false
          → CloseMove t.mem (t.closer i) n q
          → n.panicked ≡ false)
      × (length t.mem.write_chan ≤ chan_size)
      × (t.mem.panicked ≡ true
          → (i : ℕ) × (is_checked (t.writer i) ≡ true) × (t.mem.chan_closed ≡ true))
Steps-sound h r =
    let v = Steps-Inv (IsUnclosed-Inv h.open_yet) r in
    (
      v.unique,
      λ i n q ok mv. CloseMove-sound ok (v.fits i) mv,
      Steps-bounded r (ground (arith, ap length h.nothing_waits)),
      v.cause,
    )

-- isClose stays set.
Late : ℕ → Request → System → Type 0
Late i r s =
    (s.mem.is_close ≡ true) × ((s.writer i ≡ called r) ⊎ (s.writer i ≡ returned closed_error))

WriteMove-is_close : {m n : Shared} {p q : WritePc} → WriteMove m p n q → n.is_close ≡ m.is_close
WriteMove-is_close (refused e) = refl
WriteMove-is_close (passes e) = refl
WriteMove-is_close (exit_case e) = refl
WriteMove-is_close (send_case e l) = refl
WriteMove-is_close (send_panics e) = refl
WriteMove-is_close (default_case e f l) = refl

CloseMove-is_close :
    {m n : Shared} {p q : ClosePc} → CloseMove m p n q → m.is_close ≡ true → n.is_close ≡ true
CloseMove-is_close (swap_fails e) h = h
CloseMove-is_close (swap_works e) h = refl
CloseMove-is_close (close_exit e) h = h
CloseMove-is_close (exit_panics e) h = h
CloseMove-is_close (close_chan e) h = h
CloseMove-is_close (chan_panics e) h = h

WriteMove-Late :
    {r : Request} {m n : Shared} {p q : WritePc}
    → m.is_close ≡ true
    → WriteMove m p n q
    → (p ≡ called r) ⊎ (p ≡ returned closed_error)
    → (q ≡ called r) ⊎ (q ≡ returned closed_error)
WriteMove-Late c (refused e) h = inr refl
WriteMove-Late c (passes e) h = absurd (ground (arith, c, e))
WriteMove-Late c (exit_case e) h = inr refl
WriteMove-Late c (send_case e l) h = elim h [ inl x ↦ absurd cc | inr x ↦ absurd cc ]
WriteMove-Late c (send_panics e) h = elim h [ inl x ↦ absurd cc | inr x ↦ absurd cc ]
WriteMove-Late c (default_case e f l) h = elim h [ inl x ↦ absurd cc | inr x ↦ absurd cc ]

Step-Late : (i : ℕ) (r : Request) {s t : System} → Step s t → Late i r s → Late i r t
unfolding Late
Step-Late i r {s} (writes j {m} {p} ok mv) h = (
  WriteMove-is_close mv ∙ h.0,
  elim (Bool-cases (j == i)) [ inl e ↦ late_at ((==_iff j i).0 e) | inr e ↦ rw e (h.1) ],
)
  where
    late_at :
        j ≡ i → (update s.writer j p i ≡ called r) ⊎ (update s.writer j p i ≡ returned closed_error)
    late_at e =
        let x =
          subst (λ k. (s.writer k ≡ called r) ⊎ (s.writer k ≡ returned closed_error)) (sym e) h.1 in
        rw ((==_iff j i).1 e) (WriteMove-Late h.0 mv x)
Step-Late i r (closes j ok mv) h = (CloseMove-is_close mv h.0, h.1)
Step-Late i r (takes ok e) h = h

-- A call of Write that begins once isClose is set never gets to the select: whatever the other
-- goroutines do, it is still at its first test or has returned ConnectIsCloseError.
Steps-Late :
    (i : ℕ) (r : Request) {s t : System}
    → s.mem.is_close ≡ true
    → s.writer i ≡ called r
    → Steps s t
    → (t.mem.is_close ≡ true) × ((t.writer i ≡ called r) ⊎ (t.writer i ≡ returned closed_error))
unfolding Late
Steps-Late i r c w still = (c, inl w)
Steps-Late i r c w (later x y) = Step-Late i r y (Steps-Late i r c w x)

module _ {s : System} (h : IsUnclosed s) (i j : ℕ) (r : Request) where
  by_write :
      {t : System} {p q : WritePc} {n : Shared}
      → Steps s t
      → t.mem.panicked ≡ false
      → t.writer i ≡ p
      → WriteMove t.mem p n q
      → Steps s (record t { mem = n; writer = update t.writer i q })
  by_write {t} {p} {q} {n} x ok e mv =
      later x (writes i ok (subst (λ p. WriteMove t.mem p n q) (sym e) mv))

  by_close :
      {t : System} {p q : ClosePc} {n : Shared}
      → Steps s t
      → t.mem.panicked ≡ false
      → t.closer j ≡ p
      → CloseMove t.mem p n q
      → Steps s (record t { mem = n; closer = update t.closer j q })
  by_close {t} {p} {q} {n} x ok e mv =
      later x (closes j ok (subst (λ p. CloseMove t.mem p n q) (sym e) mv))

  -- A send on writeChan after it is closed is possible: from any state in which nobody has begun to
  -- close, the process has not panicked and some call of Write is about to begin, a call of Close
  -- can run between its test of IsClose and its select, and the select then panics.
  pub panic_reachable : s.writer i ≡ called r → (t : System) × Steps s t × (t.mem.panicked ≡ true)
  panic_reachable w =
      let x = by_write still h.sound w (passes h.unclosed) in
      let y = by_close x h.sound (h.unentered j) (swap_works h.unclosed) in
      let z = by_close y h.sound (update_self s.closer j swapped) (close_exit h.exit_unclosed) in
      let v =
        by_close z h.sound (update_self (update s.closer j swapped) j exit_done)
          (close_chan h.chan_unclosed) in
      (_, by_write v h.sound (update_self s.writer i (checked r)) (send_panics refl), refl)
