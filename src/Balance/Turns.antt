-- ===== src/Balance/Turns.antt =====
-- The servers that NextTcpServer gives, one call after the other.
use zqim.Prelude.{
  ℕ, zero, suc, ◌+◌, ◌%◌, ◌<◌, ◌≡◌, ◌≢◌, false, ◌∙◌, ap, arith, List, [], ◌∷◌, ◌++◌, length,
  get_elem?, All, ◌==◌, string_eq,
}
use Prim.Native.String.{String}
use zqim.Frame.{u32_mod}
use zqim.Balance.{ComitManages, next_tcp_server, add_tcp_server, delete_tcp_server, remove_first}

-- The state after some calls.
abbrev pub after : ℕ → ComitManages → ComitManages
after zero m = m
after (suc k) m = (next_tcp_server (after k m)).1

after-eq :
    (k : ℕ) (m : ComitManages)
    → m.index + k < u32_mod
    → after k m ≡ record m { index = m.index + k }
unfolding next_tcp_server
after-eq zero m l = ap (λ i. record m { index = i }) (omega arith)
after-eq (suc k) m l =
    ap (λ x. (next_tcp_server x).1) (after-eq k m (omega arith))
    ∙ ap (λ i. record m { index = i }) (omega (arith, l))

-- The servers come in turn: the call after `k` calls gives the one at index `k + 1` from the first,
-- around the list, until the uint32 wraps.
pub next_tcp_server-after :
    (k : ℕ) (m : ComitManages)
    → 0 < length m.tcpserver
    → m.index + k + 1 < u32_mod
    → (next_tcp_server (after k m)).0
      ≡ get_elem? m.tcpserver ((m.index + k + 1) % length m.tcpserver)
unfolding next_tcp_server
next_tcp_server-after k m s l =
    let some_left : (length m.tcpserver == 0) ≡ false = ground arith in
    ap (λ x. (next_tcp_server x).0) (after-eq k m (omega arith))
    ∙ rw some_left (ap (λ i. get_elem? m.tcpserver (i % length m.tcpserver)) (omega (arith, l)))

remove_first-append :
    (ip : String) (vs : List String) → All (λ v. v ≢ ip) vs → remove_first ip (vs ++ ip ∷ []) ≡ vs
unfolding remove_first
remove_first-append ip [] h = ground (arith, string_eq.beq_iff ip ip)
remove_first-append ip (v ∷ vs) h =
    ground (arith, h.0, string_eq.beq_iff v ip, remove_first-append ip vs h.1)

-- Deleting a server that was added, and was not there before, restores the list.
pub delete_tcp_server-add_tcp_server :
    (ip : String) (m : ComitManages)
    → All (λ v. v ≢ ip) m.tcpserver
    → delete_tcp_server ip (add_tcp_server ip m) ≡ m
unfolding delete_tcp_server
delete_tcp_server-add_tcp_server ip m h =
    ap (λ vs. record m { tcpserver = vs }) (remove_first-append ip m.tcpserver h)
