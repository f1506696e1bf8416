-- ===== src/Balance/Sync.antt =====
-- logic/service/registryDiscoverService.go: how the web server's lists follow etcd.
pub mod Stays
use Prim.Native.String.{String}
use zqim.Prelude.{ℕ, Option, none, some, List, [], ◌∷◌, if◌then◌else◌, string_eq}
use zqim.Balance.{
  ComitManages, add_comit_server, delete_comit_server, add_tcp_server, delete_tcp_server,
}

-- v.Type of an event.
pub data EventType : Type 0 where
  put delete : EventType

-- An event of the watch on /root/comit/imserver/ with its value, or of the one on
-- /root/comit/grpcserver/ with its key, as TrimPrefix leaves it, and its value.
pub data Event : Type 0 where
  imwatch : EventType → String → Event
  rpcwatch : EventType → String → String → Event

abbrev Kvs : Type 0
Kvs = List (String × String)

module _ (dial : String → Option ℕ) (server_name : String) where
  unfoldable pub watch_event : Event → ComitManages → ComitManages
  unfolding delete_tcp_server add_comit_server
  watch_event (imwatch put value) m = add_tcp_server value m
  watch_event (imwatch delete value) m = delete_tcp_server value m
  watch_event (rpcwatch put key value) m =
      if string_eq.beq key server_name then m else (add_comit_server dial key value m).0
  watch_event (rpcwatch delete key value) m =
      if string_eq.beq key server_name then m else delete_comit_server key m

  -- The two channels' events, in the order in which the select takes them.
  unfoldable pub watch_events : List Event → ComitManages → ComitManages
  unfolding watch_event
  watch_events [] m = m
  watch_events (e ∷ es) m = watch_events es (watch_event e m)

  unfoldable pub add_comit_servers : Kvs → ComitManages → ComitManages
  unfolding add_comit_server
  add_comit_servers [] m = m
  add_comit_servers ((key, value) ∷ kvs) m =
      add_comit_servers kvs
        (if string_eq.beq key server_name then m else (add_comit_server dial key value m).0)

  unfoldable pub add_tcp_servers : Kvs → ComitManages → ComitManages
  add_tcp_servers [] m = m
  add_tcp_servers ((key, value) ∷ kvs) m =
      add_tcp_servers kvs (if string_eq.beq key server_name then m else add_tcp_server value m)

  -- The two answers of etcd; the second error is not looked at, and its answer is nil, on which the
  -- loop panics.
  abbrev add_im : Option Kvs → ComitManages → Option ComitManages
  add_im none m = none
  add_im (some kvs) m = some (add_tcp_servers kvs m)

  unfoldable pub get_config : Option Kvs → Option Kvs → ComitManages → Option ComitManages
  unfolding add_comit_servers add_tcp_servers
  get_config none im m = some m
  get_config (some kvs) im m = add_im im (add_comit_servers kvs m)

  abbrev watch_from : List Event → Option ComitManages → Option ComitManages
  watch_from es none = none
  watch_from es (some m) = some (watch_events es m)

  -- Watch
  unfoldable pub watch : Option Kvs → Option Kvs → List Event → ComitManages → Option ComitManages
  unfolding get_config watch_events
  watch rsp im es m = watch_from es (get_config rsp im m)
