-- ===== src/Etcd/Given.antt =====
-- The servers of the list come round.
use Prim.Native.String.{String}
use mathlib.Core.List.{Memᴰ}
use mathlib.Core.Path.{subst}
use native.Mathlib.Nat.{add-mul-mod_self_left, mod-eq_of_lt, mul-le-mul_right}
use zqim.Prelude.{
  ℕ, suc, ◌+◌, ◌-◌, ◌%◌, ◌*◌, ◌≤◌, ◌<◌, ◌≡◌, sym, ap, ◌∙◌, arith, some, List, [], ◌∷◌, length,
  get_elem?, string_eq,
}
use zqim.Frame.{u32_mod}
use zqim.Balance.{ComitManages, next_tcp_server}
use zqim.Balance.Turns.{after, next_tcp_server-after}
use zqim.Etcd.{}

-- The rounds that NextTcpServer makes until it comes to a place of the list.
in_turn :
    (a : String) (xs : List String)
    → Memᴰ a xs
    → (i : ℕ) × (i < length xs) × (get_elem? xs i ≡ some a)
in_turn a [] i = elim i [ ]
in_turn a (x ∷ xs) (Memᴰ.head e) = (0, omega arith, ap some (sym e))
in_turn a (x ∷ xs) (Memᴰ.tail j) = let (i, l, g) = in_turn a xs j in (suc i, omega (arith, l), g)

around : (i n q : ℕ) → i < n → (i + n * q) % n ≡ i
around i n q l = add-mul-mod_self_left i n q ∙ mod-eq_of_lt l

reached : (i n d : ℕ) → i < n → d + (i + n * (d + 1) - (d + 1)) + 1 ≡ i + n * (d + 1)
reached i n d l =
    let far : 1 * (d + 1) ≤ n * (d + 1) = mul-le-mul_right (d + 1) (omega (arith, l)) in
    omega (arith, far)

pub given :
    (a : String) (m : ComitManages)
    → Memᴰ a m.tcpserver
    → length m.tcpserver * (m.index + 2) < u32_mod
    → (k : ℕ) × ((next_tcp_server (after k m)).0 ≡ some a)
given a m j room =
    let n = length m.tcpserver in
    let q = m.index + 1 in
    let (i, l, g) = in_turn a m.tcpserver j in
    let k = i + n * q - q in
    let bound : m.index + k + 1 < u32_mod =
      subst (λ x. x < u32_mod) (sym (reached i n m.index l)) (omega (arith, room, l)) in
    (
      k,
      next_tcp_server-after k m (omega (arith, l)) bound
          ∙ ap (λ x. get_elem? m.tcpserver (x % n)) (reached i n m.index l)
          ∙ ap (get_elem? m.tcpserver) (around i n q l)
          ∙ g,
    )
