-- ===== src/Etcd/Loops.antt =====
-- The loops of the two GetConfig over the entries of etcd.
use Prim.Native.String.{String}
use mathlib.Core.List.{Memᴰ}
use mathlib.Core.Path.{subst}
use zqim.Prelude.{
  ℕ, ◌≡◌, ◌≢◌, refl, sym, ap, ◌∙◌, arith, Option, some, List, [], ◌∷◌, ◌++◌, map, if◌then◌else◌,
  Bool-cases, inl, inr, string_eq,
}
use zqim.Balance.{ComitManages, add_tcp_server}
use zqim.Balance.Sync
use zqim.Balance.Sync.Stays.{rpcwatch-put}
use zqim.Registry
use zqim.Registry.Latest.{or_else, latest}
use zqim.Etcd.{}

-- An entry of another server's address is put on the list.
Mem-append : {A : Type 0} {a : A} (xs ys : List A) → Memᴰ a xs → Memᴰ a (xs ++ ys)
Mem-append [] ys i = elim i [ ]
Mem-append (x ∷ xs) ys (Memᴰ.head e) = Memᴰ.head e
Mem-append (x ∷ xs) ys (Memᴰ.tail i) = Memᴰ.tail (Mem-append xs ys i)

Mem-last : {A : Type 0} (a : A) (xs : List A) → Memᴰ a (xs ++ a ∷ [])
Mem-last a [] = Memᴰ.head refl
Mem-last a (x ∷ xs) = Memᴰ.tail (Mem-last a xs)

module _ (dial : String → Option ℕ) (own : String) where
  add_tcp_servers-stays :
      (kvs : List (String × String)) (a : String) (m : ComitManages)
      → Memᴰ a m.tcpserver
      → Memᴰ a (Sync.add_tcp_servers dial own kvs m).tcpserver
  unfolding Sync.add_tcp_servers
  add_tcp_servers-stays [] a m i = i
  add_tcp_servers-stays ((k, v) ∷ kvs) a m i = elim (Bool-cases (string_eq.beq k own)) [
    | inl e ↦ rw (e, Sync.add_tcp_servers) (add_tcp_servers-stays kvs a m i)
    | inr e ↦
        rw (e, Sync.add_tcp_servers)
          (add_tcp_servers-stays kvs a (add_tcp_server v m) (Mem-append m.tcpserver _ i))
  ]

  pub add_tcp_servers-adds :
      (kvs : List (String × String)) (n a : String) (m : ComitManages)
      → n ≢ own
      → Memᴰ (n, a) kvs
      → Memᴰ a (Sync.add_tcp_servers dial own kvs m).tcpserver
  unfolding Sync.add_tcp_servers
  add_tcp_servers-adds [] n a m d i = elim i [ ]
  add_tcp_servers-adds ((k, v) ∷ kvs) n a m d (Memᴰ.head e) =
      let same : k ≡ n = sym (ap (λ x. x.0) e) in
      let placed =
        subst (λ z. Memᴰ z (m.tcpserver ++ v ∷ [])) (sym (ap (λ x. x.1) e))
          (Mem-last v m.tcpserver) in
      elim (Bool-cases (string_eq.beq k own)) [
        | inl h ↦ absurd (d (sym same ∙ (string_eq.beq_iff k own).0 h))
        | inr h ↦
            rw (h, Sync.add_tcp_servers) (add_tcp_servers-stays kvs a (add_tcp_server v m) placed)
      ]
  add_tcp_servers-adds ((k, v) ∷ kvs) n a m d (Memᴰ.tail i) = add_tcp_servers-adds kvs n a _ d i

  pub add_tcp_servers-comits :
      (kvs : List (String × String)) (m : ComitManages)
      → (Sync.add_tcp_servers dial own kvs m).comits ≡ m.comits
  unfolding Sync.add_tcp_servers
  add_tcp_servers-comits [] m = refl
  add_tcp_servers-comits ((k, v) ∷ kvs) m =
      add_tcp_servers-comits kvs (if string_eq.beq k own then m else add_tcp_server v m)
      ∙ ground arith

  -- GetConfig's loops over the gRPC servers do what Watch does with as many PUTs.
  abbrev pub puts : List (String × String) → List Registry.Event
  puts kvs = map (λ kv. Registry.put kv.0 kv.1) kvs

  pub add_comit_servers-watch :
      (kvs : List (String × String)) (m : ComitManages)
      → (Sync.add_comit_servers dial own kvs m).comits ≡ Registry.watch dial own (puts kvs) m.comits
  unfolding Sync.add_comit_servers Registry.watch Sync.watch_event
  add_comit_servers-watch [] m = refl
  add_comit_servers-watch ((k, v) ∷ kvs) m =
      add_comit_servers-watch kvs (Sync.watch_event dial own (Sync.rpcwatch Sync.put k v) m)
      ∙ ap (Registry.watch dial own (puts kvs)) (rpcwatch-put dial own k v m).0

  pub get_config-watch :
      (kvs : List (String × String)) (c : Registry.Comits)
      → Registry.get_config dial own kvs c ≡ Registry.watch dial own (puts kvs) c
  unfolding Registry.get_config Registry.watch Registry.watch_event
  get_config-watch [] c = refl
  get_config-watch ((k, v) ∷ kvs) c = get_config-watch kvs _

module _ (dial : String → Option ℕ) (own n v : String) (s : ℕ) (dialled : dial v ≡ some s) where
  latest_same :
      (k w : String)
      → (k ≡ n → w ≡ v)
      → (if string_eq.beq k n then or_else dial own n (dial w) (some s) else some s) ≡ some s
  latest_same k w h = elim (Bool-cases (string_eq.beq k n)) [
    | inl e ↦ rw e (
        ap (λ o. or_else dial own n o (some s))
          (ap dial (h ((string_eq.beq_iff k n).0 e)) ∙ dialled))
    | inr e ↦ rw e refl
  ]

  latest-stays :
      (kvs : List (String × String))
      → ((w : String) → Memᴰ (n, w) kvs → w ≡ v)
      → latest dial own n (puts dial own kvs) (some s) ≡ some s
  latest-stays [] only = refl
  latest-stays ((k, w) ∷ kvs) only =
      ap (latest dial own n (puts dial own kvs))
        (latest_same k w (λ e. only w (Memᴰ.head (ap (λ j. (j, w)) (sym e)))))
      ∙ latest-stays kvs (λ u j. only u (Memᴰ.tail j))

  pub latest-puts :
      (kvs : List (String × String)) (cur : Option ℕ)
      → ((w : String) → Memᴰ (n, w) kvs → w ≡ v)
      → Memᴰ (n, v) kvs
      → latest dial own n (puts dial own kvs) cur ≡ some s
  latest-puts [] cur only i = elim i [ ]
  latest-puts ((k, w) ∷ kvs) cur only (Memᴰ.head e) =
      let chosen : (if string_eq.beq k n then or_else dial own n (dial w) cur else cur) ≡ some s =
        rw ((string_eq.beq_iff k n).1 (sym (ap (λ x. x.0) e)))
          (ap (λ o. or_else dial own n o cur) (ap dial (sym (ap (λ x. x.1) e)) ∙ dialled)) in
      ap (latest dial own n (puts dial own kvs)) chosen
      ∙ latest-stays kvs (λ u j. only u (Memᴰ.tail j))
  latest-puts ((k, w) ∷ kvs) cur only (Memᴰ.tail i) =
      latest-puts kvs _ (λ u j. only u (Memᴰ.tail j)) i
