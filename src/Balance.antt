-- ===== src/Balance.antt =====
-- ComitManages of logic/service/comitService.go: the web server's list of connection servers, from
-- which clients are given one in turn, and its table of gRPC servers.
pub mod Sync
pub mod Turns
mod Tests
use zqim.Prelude.{
  ℕ, zero, suc, ◌+◌, ◌%◌, ◌≡◌, Bool, Option, none, some, List, [], ◌∷◌, ◌++◌, length, get_elem?,
  ◌==◌, if◌then◌else◌, string_eq,
}
use zqim.Prelude.Maps
use Prim.Native.String.{String}
use zqim.Frame.{u32_mod}

pub record ComitManages : Type 0 where
  pub comits : List (String × ℕ)
  pub tcpserver : List String
  pub index : ℕ

-- `dial` stands for NewComitServer.
unfoldable pub add_comit_server :
    (String → Option ℕ) → String → String → ComitManages → ComitManages × Bool
add_comit_server dial key addr m = elim (dial addr) [
  | none ↦ (m, Bool.false)
  | some server ↦ (record m { comits = Maps.insert key server m.comits }, Bool.true)
]

abbrev pub delete_comit_server : String → ComitManages → ComitManages
delete_comit_server key m = record m { comits = Maps.erase key m.comits }

abbrev pub get_comit_server : String → ComitManages → Option ℕ
get_comit_server key m = Maps.lookup key m.comits

-- The entries come in the order in which the loop visits the map; `n` is what Intn drew. On an
-- empty map Intn panics.
unfoldable pub rand_comit_server : ℕ → List (String × ℕ) → Option ℕ
rand_comit_server n [] = none
rand_comit_server zero ((k, v) ∷ rest) = some v
rand_comit_server (suc n) ((k, v) ∷ rest) = rand_comit_server n rest

abbrev pub add_tcp_server : String → ComitManages → ComitManages
add_tcp_server ip m = record m { tcpserver = m.tcpserver ++ ip ∷ [] }

-- The index is a uint32; `none` is the panic of a division by zero.
unfoldable pub next_tcp_server : ComitManages → Option String × ComitManages
next_tcp_server m =
    let i = (m.index + 1) % u32_mod in
    let n = length m.tcpserver in
    (if n == 0 then none else get_elem? m.tcpserver (i % n), record m { index = i })

unfoldable pub remove_first : String → List String → List String
remove_first ip [] = []
remove_first ip (v ∷ vs) =
    let rest = remove_first ip vs in if string_eq.beq v ip then vs else v ∷ rest

unfoldable pub delete_tcp_server : String → ComitManages → ComitManages
unfolding remove_first
delete_tcp_server ip m = record m { tcpserver = remove_first ip m.tcpserver }
