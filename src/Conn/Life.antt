-- ===== src/Conn/Life.antt =====
-- What a connection promises: order, capacity, the end of writing, and the heartbeat.
use zqim.Prelude.{
  ℕ, ◌+◌, ◌≤◌, ◌<◌, ◌≡◌, refl, sym, ◌∙◌, ap, ◌↔◌, arith, true, false, List, [], ◌∷◌, ◌++◌,
  append-nil, append_assoc, length,
}
use zqim.Frame.{Request, get_bytes}
use zqim.Frame.Stream.{frames}
use zqim.Conn.{
  Connect, closed_error, write, close, exit_case, write_case, tick_case, write_loop, ping_handle,
  Event, writes, turns, pings, closes, step, run, taken, accepted, put,
}

pub frames-append : (rs qs : List Request) → frames (rs ++ qs) ≡ frames rs ++ frames qs
frames-append [] qs = refl
frames-append (r ∷ rs) qs =
    ap (◌++◌ (get_bytes r)) (frames-append rs qs) ∙ sym (append_assoc (get_bytes r) _ _)

-- All that has been taken and not lost: on the wire already, or waiting in the channel.
abbrev pub pledged : Connect → List ℕ
pledged c = c.wire ++ frames c.write_chan

-- No write to the socket fails.
abbrev pub IsSmooth : List Event → Type 0
IsSmooth [] = Unit {0}
IsSmooth (turns (write_case false) ∷ es) = ⊥
IsSmooth (e ∷ es) = IsSmooth es

write-pledged :
    (c : Connect) (r : Request)
    → pledged (write c r).0 ≡ pledged c ++ frames (taken c r (write c r).1)
unfolding write
write-pledged c r = ground (
  arith,
  frames-append c.write_chan (r ∷ []),
  append-nil (pledged c),
  append_assoc c.wire (frames c.write_chan) (frames (r ∷ [])),
)

put-pledged :
    (c : Connect) (rs : List Request) → c.write_chan ≡ rs → pledged (put c rs true).0 ≡ pledged c
put-pledged c [] e = refl
put-pledged c (r ∷ rs) e =
    append_assoc c.wire (get_bytes r) (frames rs)
    ∙ ap (λ (q : List Request). c.wire ++ frames q) (sym e)

tick-pledged :
    (timeout now : ℕ) (c : Connect) → pledged (write_loop timeout c (tick_case now)).0 ≡ pledged c
unfolding write_loop
tick-pledged timeout now c = ground arith

close-pledged : (c : Connect) → pledged (close c) ≡ pledged c
unfolding close
close-pledged c = ground arith

-- Whatever happens to a connection, short of a failing socket: what is on the wire, with what waits
-- in the channel, is what was there before and then the frames of the requests that Write took
-- since, in the order in which it took them.
pub run-pledged :
    (timeout : ℕ) (c : Connect) (es : List Event)
    → IsSmooth es
    → pledged (run timeout c es) ≡ pledged c ++ frames (accepted timeout c es)
unfolding run accepted step
run-pledged timeout c [] h = sym (append-nil (pledged c))
run-pledged timeout c (writes r ∷ es) h =
    let c' = step timeout c (writes r) in
    let old = taken c r (write c r).1 in
    let new = accepted timeout c' es in
    run-pledged timeout c' es h
    ∙ ap (λ (x : List ℕ). x ++ frames new) (write-pledged c r)
    ∙ append_assoc (pledged c) (frames old) (frames new)
    ∙ ap (◌++◌ (pledged c)) (sym (frames-append old new))
run-pledged timeout c (turns exit_case ∷ es) h = run-pledged timeout c es h
run-pledged timeout c (turns (write_case true) ∷ es) h =
    let c' = step timeout c (turns (write_case true)) in
    run-pledged timeout c' es h
    ∙ ap (λ (x : List ℕ). x ++ frames (accepted timeout c' es)) (put-pledged c c.write_chan refl)
run-pledged timeout c (turns (write_case false) ∷ es) h = absurd h
run-pledged timeout c (turns (tick_case now) ∷ es) h =
    let c' = step timeout c (turns (tick_case now)) in
    run-pledged timeout c' es h
    ∙ ap (λ (x : List ℕ). x ++ frames (accepted timeout c' es)) (tick-pledged timeout now c)
run-pledged timeout c (pings now ∷ es) h = run-pledged timeout (step timeout c (pings now)) es h
run-pledged timeout c (closes ∷ es) h =
    let c' = step timeout c closes in
    run-pledged timeout c' es h
    ∙ ap (λ (x : List ℕ). x ++ frames (accepted timeout c' es)) (close-pledged c)

-- No more than ten requests ever wait in the channel.
abbrev pub IsBounded : Connect → Type 0
IsBounded c = length c.write_chan ≤ 10

close-is_close : (c : Connect) → (close c).is_close ≡ true
unfolding close
close-is_close c = ground arith

step-is_close :
    (timeout : ℕ) (c : Connect) (e : Event) → c.is_close ≡ true → (step timeout c e).is_close ≡ true
unfolding step
step-is_close timeout c (writes r) h = ground arith
step-is_close timeout c (turns exit_case) h = h
step-is_close timeout c (turns (write_case true)) h = go c.write_chan
  where
    go : (rs : List Request) → (put c rs true).0.is_close ≡ true
    go [] = h
    go (r ∷ rs) = h
step-is_close timeout c (turns (write_case false)) h = go c.write_chan
  where
    go : (rs : List Request) → (put c rs false).0.is_close ≡ true
    go [] = h
    go (r ∷ rs) = h
step-is_close timeout c (turns (tick_case now)) h = ground arith
step-is_close timeout c (pings now) h = h
step-is_close timeout c closes h = ground arith

run-is_close :
    (timeout : ℕ) (c : Connect) (es : List Event)
    → c.is_close ≡ true
    → (run timeout c es).is_close ≡ true
unfolding run
run-is_close timeout c [] h = h
run-is_close timeout c (e ∷ es) h =
    run-is_close timeout (step timeout c e) es (step-is_close timeout c e h)

write_closed : (c : Connect) (r : Request) → c.is_close ≡ true → write c r ≡ (c, closed_error)
unfolding write
write_closed c r h = rw h

-- Once closed, always closed: whatever happens after Close, a Write is refused with
-- ConnectIsCloseError and changes nothing.
write-run-close :
    (timeout : ℕ) (c : Connect) (es : List Event) (r : Request)
    → let c' = run timeout (close c) es in write c' r ≡ (c', closed_error)
write-run-close timeout c es r =
    write_closed _ r (run-is_close timeout (close c) es (close-is_close c))

-- The heartbeat: after a ping at time `t`, a tick closes an open connection exactly when more than
-- the timeout and 100 seconds have gone by since; otherwise the loop goes on.
write_loop-ping_handle :
    (timeout t now : ℕ) (c : Connect)
    → c.is_close ≡ false
    → let (c', on) = write_loop timeout (ping_handle t c) (tick_case now) in
      ((c'.is_close ≡ true) ↔ (t + 100 + timeout < now)) × ((on ≡ true) ↔ (c'.is_close ≡ false))
unfolding write_loop ping_handle
write_loop-ping_handle timeout t now c h =
    ((λ e. ground arith, λ e. ground arith), (λ e. ground arith, λ e. ground arith))
