-- ===== src/Etcd.antt =====
-- The registration with etcd: Init, Registry and Less of comit/registrationDiscovery/registry.go
-- and of logic/service/registryDiscoverService.go, what comit/main.go registers, and how Watch and
-- GetConfig read the keys. etcd is a parameter.
pub mod Keys
pub mod Loops
pub mod Held
pub mod Given
pub mod Found
pub mod Samples
mod Tests
use Prim.Native.Char.{code}
use Prim.Native.String
use Prim.Native.String.{String}
use zqim.Prelude.{
  ℕ, zero, suc, ◌+◌, ◌/◌, ◌%◌, Bool, true, false, Option, none, some, List, [], ◌∷◌, map, ltb, ◌==◌,
  if◌then◌else◌,
}
use zqim.Registry
use zqim.Balance.{ComitManages}
use zqim.Balance.Sync

-- strings.TrimPrefix: what is left of a text behind a prefix, or the whole text.
abbrev pub behind : String → String → Option String
behind String.[] s = some s
behind (String.◌∷◌ c p) String.[] = none
behind (String.◌∷◌ c p) (String.◌∷◌ d s) =
    let rest = behind p s in if code c == code d then rest else none

abbrev pub or_whole : String → Option String → String
or_whole s none = s
or_whole s (some rest) = rest

unfoldable pub trim_prefix : String → String → String
trim_prefix s p = or_whole s (behind p s)

abbrev pub im_prefix : String
im_prefix = "/root/comit/imserver/"

abbrev pub grpc_prefix : String
grpc_prefix = "/root/comit/grpcserver/"

-- The client of etcd: New and Status, a lease, a put under a lease, and a Get WithPrefix; an error
-- gives `false` or `none`.
pub record Etcd (E : Type 0) : Type 0 where
  pub new_client : List String → E → Bool
  pub status : String → E → Bool
  pub grant : ℕ → E → Option (ℕ × E)
  pub put_with_lease : String → String → ℕ → E → Option E
  pub get_with_prefix : String → E → Option (List (String × String))

-- RegistrationDiscovery keeps the lease.
pub data Init (E : Type 0) : Type 0 where
  initialised : ℕ → E → Init E
  init_error : Init E
  init_panic : Init E

-- The configuration of a connection server: ImIp and ImPort, and GrpcIp and GrpcPort, as main joins
-- them.
pub record Config : Type 0 where
  pub server_name : String
  pub im_addr : String
  pub grpc_addr : String

-- An error of Registry is only logged.
abbrev pub or_same : {E : Type 0} → E → Option E → E
or_same e none = e
or_same e (some e') = e'

module _ {E : Type 0} (et : Etcd E) where
  abbrev granted : Option (ℕ × E) → Init E
  granted none = init_error
  granted (some (lease, e)) = initialised lease e

  -- The first endpoint is asked for its status; an empty list has none.
  unfoldable pub init : List String → E → Init E
  init [] e = if et.new_client [] e then init_panic else init_error
  init (endpoint ∷ rest) e =
      if et.new_client (endpoint ∷ rest) e
      then (if et.status endpoint e then granted (et.grant 20 e) else init_error)
      else init_error

  unfoldable pub registry : ℕ → String → String → E → Option E
  registry lease key val e = et.put_with_lease key val lease e

  unfoldable pub registered : Config → Init E → Option E
  unfolding registry
  registered cfg init_error = none
  registered cfg init_panic = none
  registered cfg (initialised lease e) =
      let e₁ = or_same e (registry lease (String.◌++◌ im_prefix cfg.server_name) cfg.im_addr e) in
      some (or_same e₁ (registry lease (String.◌++◌ grpc_prefix cfg.server_name) cfg.grpc_addr e₁))

  -- What main does before it watches; `none` is its panic.
  unfoldable pub main : Config → E → Option E
  unfolding init registered
  main cfg e = registered cfg (init ("127.0.0.1:2379" ∷ []) e)

-- Less, by what KeepAlive gives: an error, or the answers of its channel, a closed channel being a
-- nil answer. Whether it still waits.
unfoldable pub less : Option (List Bool) → Bool
less none = false
less (some []) = true
less (some (answer ∷ rest)) = let waits = less (some rest) in if answer then waits else false

-- The entries of an answer, as GetConfig reads their keys.
abbrev pub trimmed : String → List (String × String) → List (String × String)
trimmed p kvs = map (λ kv. (trim_prefix kv.0 p, kv.1)) kvs

abbrev pub trimmed_rsp : String → Option (List (String × String)) → Option (List (String × String))
trimmed_rsp p none = none
trimmed_rsp p (some kvs) = some (trimmed p kvs)

module _ {E : Type 0} (et : Etcd E) (dial : String → Option ℕ) (server_name : String) where
  -- GetConfig of the web server.
  unfoldable pub get_config : E → ComitManages → Option ComitManages
  unfolding Sync.get_config
  get_config e m =
      Sync.get_config dial server_name (trimmed_rsp grpc_prefix (et.get_with_prefix grpc_prefix e))
        (trimmed_rsp im_prefix (et.get_with_prefix im_prefix e)) m

  -- GetConfig of a connection server; it leaves the table as it is when etcd gives an error.
  unfoldable pub get_config_comit : E → Registry.Comits → Registry.Comits
  unfolding Registry.get_config
  get_config_comit e comits = elim (et.get_with_prefix grpc_prefix e) [
    | none ↦ comits
    | some kvs ↦ Registry.get_config dial server_name (trimmed grpc_prefix kvs) comits
  ]
