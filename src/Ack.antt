-- ===== src/Ack.antt =====
-- comit/manage/connectmanage.go and the AckMessageManage of comit/manage/ackmessage.go: which
-- connection a user has, and the resending of messages until the receiver's ack arrives.
pub mod Inv
pub mod Push
pub mod Treated
pub mod Rounds
pub mod Loop
pub mod Collision
mod Tests
use zqim.Prelude.{
  ℕ, zero, suc, ◌+◌, ◌%◌, Bool, List, [], ◌∷◌, ◌++◌, Option, none, some, ltb, ◌==◌, ◌||◌,
  if◌then◌else◌, length, nat_eq,
}
use zqim.Prelude.Maps
use zqim.Frame.{Request, u32_mod}
use zqim.Conn.{
  Connect, WriteResult, written, closed_error, block_error, write, ctx_set, ctx_get, ctx_delete,
}
use zqim.Heap.{AckMessage, Heap, update, pop}
use zqim.Heap

-- The state of the process that the manager works on. Connections are behind addresses, as
-- messages are: `cons` is ConManage.cons, from user ids to them. `push_ch` and `del_ch` are the
-- channels, oldest first; a send that finds its channel full waits for the loop, so no send is
-- lost. `next` is the address that the next allocated message gets.
pub record World : Type 0 where
  pub cons : List (ℕ × ℕ)
  pub conn : ℕ → Connect
  pub msgheap : Heap
  pub push_ch : List ℕ
  pub del_ch : List (ℕ × ℕ)
  pub next : ℕ

-- ConnectManage
unfoldable pub add_connect : ℕ → ℕ → World → World
add_connect uid a w = record w { cons = Maps.insert uid a w.cons }

unfoldable pub get_connect : ℕ → World → Option ℕ
get_connect uid w = Maps.lookup uid w.cons

unfoldable pub delete_connect : ℕ → World → World
delete_connect uid w = record w { cons = Maps.erase uid w.cons }

erase_all : List (ℕ × ℕ) → List (ℕ × ℕ) → List (ℕ × ℕ)
erase_all [] m = m
erase_all ((k, a) ∷ ks) m = erase_all ks (Maps.erase k m)

unfoldable pub clean_connect : World → World
unfolding erase_all
clean_connect w = record w { cons = erase_all w.cons w.cons }

abbrev pub on_conn : ℕ → (Connect → Connect) → World → World
on_conn a f w = record w { conn = update w.conn a (f (w.conn a)) }

abbrev pub set_message : ℕ → AckMessage → World → World
set_message p m w = record w { msgheap = record (w.msgheap) { msg = update w.msgheap.msg p m } }

-- `message.ntime`, a uint8, counts the sendings.
abbrev pub renewed : ℕ → AckMessage → AckMessage
renewed now m = record m { ntime = (m.ntime + 1) % 256; timeout = now + 5; index = some 0 }

-- The method `push`, which the loop calls.
unfoldable pub push : ℕ → ℕ → World → World
push now p w =
    let m = w.msgheap.msg p in
    let w₁ = set_message p (renewed now m) w in
    elim (get_connect m.receiver w) [
      | none ↦ w₁
      | some a ↦
          let w₂ = on_conn a (ctx_set m.msgid p) w₁ in
          record w₂ { msgheap = Heap.push w₂.msgheap p }
    ]

-- The method `delete`; `none` is a panic of container/heap.
unfoldable pub delete : ℕ → ℕ → World → Option World
delete msgid receiver w = elim (get_connect receiver w) [
  | none ↦ some w
  | some a ↦ elim (ctx_get msgid (w.conn a)) [
    | none ↦ some w
    | some p ↦
        let w₁ = on_conn a (ctx_delete msgid) w in
        elim (Heap.delete w.msgheap p) [ none ↦ none | some h ↦ some (record w₁ { msgheap = h }) ]
  ]
]

-- The request that carries a message again.
abbrev pub resend_request : AckMessage → Request
resend_request m = record {
  typ = m.grop_or_one;
  body_len = length m.body % u32_mod;
  flag = 0;
  body = m.body;
}

-- One round of the `for` of the ticker's case.
pub data Round : Type 0 where
  break_off : Round
  go_on : World → Round
  panic : Round

abbrev or_panic : Option World → Round
or_panic none = panic
or_panic (some w) = go_on w

abbrev unless_sent : WriteResult → World → World → World
unless_sent written w w' = w'
unless_sent closed_error w w' = w
unless_sent block_error w w' = w

-- What becomes of the message at `p`, which was popped.
unfoldable pub retry : ℕ → ℕ → World → Round
retry now p w =
    let m = w.msgheap.msg p in
    elim (get_connect m.receiver w) [
      | none ↦ or_panic (delete m.msgid m.receiver w)
      | some a ↦
          let dropped = or_panic (delete m.msgid m.receiver w) in
          let (c, result) = write (w.conn a) (resend_request m) in
          let sent = on_conn a (λ _. c) w in
          if ltb 3 m.ntime then dropped else go_on (unless_sent result sent (push now p sent))
    ]

-- `this.Get(0)` panics on an empty slice.
unfoldable pub tick_round : ℕ → World → Round
unfolding retry
tick_round now w =
    let overdue : Round = elim (pop w.msgheap) [
      | none ↦ panic
      | some (p, h) ↦ retry now p (record w { msgheap = h })
    ] in
    if w.msgheap.len == 0
    then panic
    else if ltb (Heap.key w.msgheap 0) now
    then overdue
    else break_off

unfoldable pub tick_loop : ℕ → ℕ → World → Option World
tick_loop zero now w = some w
tick_loop (suc n) now w = elim (tick_round now w) [
  | break_off ↦ some w
  | go_on w' ↦ tick_loop n now w'
  | panic ↦ none
]

-- The ticker's case: as many rounds as the heap has messages when it starts.
unfoldable pub tick : ℕ → World → Option World
unfolding tick_loop
tick now w = tick_loop w.msgheap.len now w

-- The methods Push and Delete hand their work to the loop.
abbrev pub send_push : ℕ → World → World
send_push p w = record w { push_ch = w.push_ch ++ p ∷ [] }

abbrev pub send_delete : ℕ → ℕ → World → World
send_delete msgid receiver w = record w { del_ch = w.del_ch ++ (msgid, receiver) ∷ [] }

-- One turn of TimeLoop, by the case that the select takes: none of the channels being empty.
pub data Case : Type 0 where
  tick_case del_case push_case : Case

abbrev pub receive_delete : List (ℕ × ℕ) → World → Option World
receive_delete [] w = some w
receive_delete ((msgid, receiver) ∷ rest) w = delete msgid receiver (record w { del_ch = rest })

abbrev pub receive_push : ℕ → List ℕ → World → Option World
receive_push now [] w = some w
receive_push now (p ∷ rest) w = some (push now p (record w { push_ch = rest }))

unfoldable pub time_loop : ℕ → World → Case → Option World
time_loop now w tick_case = tick now w
time_loop now w del_case = receive_delete w.del_ch w
time_loop now w push_case = receive_push now w.push_ch w
