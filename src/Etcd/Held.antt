-- ===== src/Etcd/Held.antt =====
-- What etcd holds after main.
use Prim.Native.String
use Prim.Native.String.{String}
use Prim.Native.String.append
use mathlib.Core.List.{Memᴰ}
use mathlib.Core.Path.{subst}
use zqim.Prelude.{ℕ, ◌≡◌, ◌≢◌, refl, sym, ap, ◌∙◌, Option, none, some, List, string_eq}
use zqim.Etcd.{
  im_prefix, grpc_prefix, Etcd, Config, Init, initialised, init_error, init_panic, registered,
  or_same, main, registry, trimmed,
}
use zqim.Etcd.Keys.{keys_apart}

-- etcd, by the entries that it holds: a put sets its key and no other, and a Get gives the entries
-- whose keys have the prefix, as they are held.
pub record IsEtcd {E : Type 0} (et : Etcd E) (holds : String → E → Option String) : Type 0 where
  pub put_self :
      (k v : String) (l : ℕ) (e e' : E) → et.put_with_lease k v l e ≡ some e' → holds k e' ≡ some v
  pub put_apart :
      (k v j : String) (l : ℕ) (e e' : E)
      → k ≢ j
      → et.put_with_lease k v l e ≡ some e'
      → holds j e' ≡ holds j e
  pub listed :
      (p n v : String) (e : E) (kvs : List (String × String))
      → et.get_with_prefix p e ≡ some kvs
      → holds (String.◌++◌ p n) e ≡ some v
      → Memᴰ (String.◌++◌ p n, v) kvs
  pub current :
      (p n v : String) (e : E) (kvs : List (String × String))
      → et.get_with_prefix p e ≡ some kvs
      → Memᴰ (n, v) (trimmed p kvs)
      → holds (String.◌++◌ p n) e ≡ some v

Option-some : {A : Type 0} → (a : A) (o : Option A) → o ≢ none → o ≡ some (or_same a o)
Option-some a none h = absurd (h refl)
Option-some a (some b) h = refl

-- The entries of a connection server.
abbrev pub IsRegistered : {E : Type 0} → (String → E → Option String) → Config → E → Type 0
IsRegistered holds cfg e =
    (holds (String.◌++◌ im_prefix cfg.server_name) e ≡ some cfg.im_addr)
    × (holds (String.◌++◌ grpc_prefix cfg.server_name) e ≡ some cfg.grpc_addr)

module _ {E : Type 0} (et : Etcd E) (holds : String → E → Option String) (lawful : IsEtcd et holds)
    (cfg : Config) where
  registered-IsRegistered :
      (r : Init E) (e' : E)
      → ((k v : String) (l : ℕ) (d : E) → et.put_with_lease k v l d ≢ none)
      → registered et cfg r ≡ some e'
      → IsRegistered holds cfg e'
  unfolding registered registry
  registered-IsRegistered init_error e' up h = cc
  registered-IsRegistered init_panic e' up h = cc
  registered-IsRegistered (initialised l d) e' up h =
      let im = String.◌++◌ im_prefix cfg.server_name in
      let rpc = String.◌++◌ grpc_prefix cfg.server_name in
      let d₁ = or_same d (et.put_with_lease im cfg.im_addr l d) in
      let d₂ = or_same d₁ (et.put_with_lease rpc cfg.grpc_addr l d₁) in
      let p = Option-some d (et.put_with_lease im cfg.im_addr l d) (up im cfg.im_addr l d) in
      let q =
        Option-some d₁ (et.put_with_lease rpc cfg.grpc_addr l d₁) (up rpc cfg.grpc_addr l d₁) in
      let apart = keys_apart cfg.server_name in
      subst (IsRegistered holds cfg) (ap (or_same d) h) (
        lawful.put_apart rpc cfg.grpc_addr im l d₁ d₂ (λ e. apart (sym e)) q
            ∙ lawful.put_self im cfg.im_addr l d d₁ p,
        lawful.put_self rpc cfg.grpc_addr l d₁ d₂ q,
      )

  pub main-IsRegistered :
      (e e' : E)
      → ((k v : String) (l : ℕ) (d : E) → et.put_with_lease k v l d ≢ none)
      → main et cfg e ≡ some e'
      → IsRegistered holds cfg e'
  unfolding main
  main-IsRegistered e e' up h = registered-IsRegistered _ e' up h
