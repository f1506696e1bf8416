-- ===== src/Balance/Sync/Stays.antt =====
-- What the events of etcd make of the two lists.
use Prim.Native.String.{String}
use mathlib.Core.Path.{subst}
use zqim.Prelude.{
  ℕ, ◌≡◌, ◌≢◌, refl, sym, ap, ◌∙◌, arith, Option, List, [], ◌∷◌, ◌++◌, All, inl, inr, Option-cases,
  Bool-cases, string_eq, append-nil, append_assoc,
}
use zqim.Balance.{ComitManages, add_comit_server, remove_first, delete_tcp_server}
use zqim.Registry
use zqim.Balance.Sync.{put, delete, Event, imwatch, rpcwatch, watch_event, watch_events}

-- The events of the table of gRPC servers, as a connection server gets them.
abbrev pub rpc_events : List Event → List Registry.Event
rpc_events [] = []
rpc_events (imwatch k v ∷ es) = rpc_events es
rpc_events (rpcwatch put key value ∷ es) = Registry.put key value ∷ rpc_events es
rpc_events (rpcwatch delete key value ∷ es) = Registry.delete key ∷ rpc_events es

-- The addresses that were put under /root/comit/imserver/.
abbrev pub im_puts : List Event → List String
im_puts [] = []
im_puts (imwatch put v ∷ es) = v ∷ im_puts es
im_puts (imwatch delete v ∷ es) = im_puts es
im_puts (rpcwatch k key value ∷ es) = im_puts es

-- etcd gives a DELETE no value, and a server registers under an address that is not empty.
abbrev pub IsEtcd : Event → Type 0
IsEtcd (imwatch put v) = v ≢ ""
IsEtcd (imwatch delete v) = v ≡ ""
IsEtcd (rpcwatch k key value) = Unit

remove_first-absent :
    (ip : String) (vs : List String) → All (λ v. v ≢ ip) vs → remove_first ip vs ≡ vs
unfolding remove_first
remove_first-absent ip [] h = refl
remove_first-absent ip (v ∷ vs) h =
    ground (arith, h.0, string_eq.beq_iff v ip, remove_first-absent ip vs h.1)

append-nonempty :
    (vs : List String) (v : String)
    → All (λ u. u ≢ "") vs
    → v ≢ ""
    → All (λ u. u ≢ "") (vs ++ v ∷ [])
append-nonempty [] v h p = (p, tt)
append-nonempty (u ∷ us) v h p = (h.0, append-nonempty us v h.1 p)

kept :
    {us vs : List String} → us ≡ vs → All (λ v. v ≢ "") vs → (us ≡ vs ++ []) × All (λ v. v ≢ "") us
kept {us} {vs} e h = (e ∙ sym (append-nil vs), subst (All (λ v. v ≢ "")) (sym e) h)

im_puts-cons : (e : Event) (es : List Event) → im_puts (e ∷ []) ++ im_puts es ≡ im_puts (e ∷ es)
im_puts-cons (imwatch put v) es = refl
im_puts-cons (imwatch delete v) es = refl
im_puts-cons (rpcwatch put key value) es = refl
im_puts-cons (rpcwatch delete key value) es = refl

module _ (dial : String → Option ℕ) (own : String) where
  add_comit_server-Registry :
      (key value : String) (m : ComitManages)
      → let n = (add_comit_server dial key value m).0 in
        (n.comits ≡ Registry.add_comit_server dial own key value m.comits)
        × (n.tcpserver ≡ m.tcpserver)
  unfolding add_comit_server Registry.add_comit_server
  add_comit_server-Registry key value m = elim (Option-cases (dial value)) [
    | inl e ↦ rw (e, add_comit_server, Registry.add_comit_server) (refl, refl)
    | inr (s, e) ↦ rw (e, add_comit_server, Registry.add_comit_server) (refl, refl)
  ]

  pub rpcwatch-put :
      (key value : String) (m : ComitManages)
      → let n = watch_event dial own (rpcwatch put key value) m in
        (n.comits ≡ Registry.watch_event dial own (Registry.put key value) m.comits)
        × (n.tcpserver ≡ m.tcpserver)
  unfolding watch_event Registry.watch_event
  rpcwatch-put key value m = elim (Bool-cases (string_eq.beq key own)) [
    | inl e ↦ rw e (refl, refl)
    | inr e ↦ rw e (add_comit_server-Registry key value m)
  ]

  rpcwatch-delete :
      (key value : String) (m : ComitManages)
      → let n = watch_event dial own (rpcwatch delete key value) m in
        (n.comits ≡ Registry.watch_event dial own (Registry.delete key) m.comits)
        × (n.tcpserver ≡ m.tcpserver)
  unfolding watch_event Registry.watch_event
  rpcwatch-delete key value m = elim (Bool-cases (string_eq.beq key own)) [
    | inl e ↦ rw e (refl, refl)
    | inr e ↦ rw e (refl, refl)
  ]

  -- Whatever events arrive, the table of gRPC servers is that of a connection server with the same
  -- name, that gets the same events of it.
  pub watch_events-watch :
      (es : List Event) (m : ComitManages)
      → (watch_events dial own es m).comits ≡ Registry.watch dial own (rpc_events es) m.comits
  unfolding watch_events Registry.watch watch_event delete_tcp_server
  watch_events-watch [] m = refl
  watch_events-watch (imwatch put v ∷ es) m = watch_events-watch es _
  watch_events-watch (imwatch delete v ∷ es) m = watch_events-watch es _
  watch_events-watch (rpcwatch put key value ∷ es) m =
      watch_events-watch es _
      ∙ ap (Registry.watch dial own (rpc_events es)) (rpcwatch-put key value m).0
  watch_events-watch (rpcwatch delete key value ∷ es) m =
      watch_events-watch es _
      ∙ ap (Registry.watch dial own (rpc_events es)) (rpcwatch-delete key value m).0

  -- What an event does to the list of connection servers.
  im_put :
      (e : Event) (m : ComitManages)
      → IsEtcd e
      → All (λ v. v ≢ "") m.tcpserver
      → let n = watch_event dial own e m in
        (n.tcpserver ≡ m.tcpserver ++ im_puts (e ∷ [])) × All (λ v. v ≢ "") n.tcpserver
  unfolding watch_event delete_tcp_server
  im_put (imwatch put v) m n h = (refl, append-nonempty m.tcpserver v h n)
  im_put (imwatch delete v) m n h =
      let t : remove_first v m.tcpserver ≡ m.tcpserver =
        ap (λ u. remove_first u m.tcpserver) n ∙ remove_first-absent "" m.tcpserver h in
      kept t h
  im_put (rpcwatch put key value) m n h = kept (rpcwatch-put key value m).1 h
  im_put (rpcwatch delete key value) m n h = kept (rpcwatch-delete key value m).1 h

  -- No connection server is ever taken off the list from which the clients are given one: it only
  -- grows by the addresses that are put.
  pub watch_events-im_puts :
      (es : List Event) (m : ComitManages)
      → All IsEtcd es
      → All (λ v. v ≢ "") m.tcpserver
      → (watch_events dial own es m).tcpserver ≡ m.tcpserver ++ im_puts es
  unfolding watch_events
  watch_events-im_puts [] m h n = sym (append-nil m.tcpserver)
  watch_events-im_puts (e ∷ es) m h n =
      let (s, k) = im_put e m h.0 n in
      watch_events-im_puts es (watch_event dial own e m) h.1 k
      ∙ ap (◌++ im_puts es) s
      ∙ append_assoc m.tcpserver (im_puts (e ∷ [])) (im_puts es)
      ∙ ap (m.tcpserver ++◌) (im_puts-cons e es)
